-- ===== src/Head/Coding.antt =====
-- What an accepted `Transfer-Encoding` says.
use vakya.Prelude.{
  ◌≡◌, refl, sym, ap, ◌∙◌, ◌⊎◌, inl, inr, false, not, Option, none, some, List, [], ◌∷◌, arith,
  ◌==◌, Bool-cases, Bytes, ok, >>=-eq-ok,
}
use vakya.Head.{invalid_transfer_encoding, for_each_list_member, for_each_value}
use vakya.Head.Framing.{
  Codings, no_codings, TransferFraming, chunked_framing, coding_member, coded, is_exactly,
  parse_transfer_encoding,
}
use vakya.Head.Members.{members, folded, value-Handled}
use vakya.Head.Counting.{One, Bad, member-first, member-next}
use vakya.Head.Chunked.{IsChunked}

-- Members behind the first.
folded-next :
    (ms : List Bytes) (s s' : Codings)
    → One s ⊎ Bad s
    → folded invalid_transfer_encoding coding_member ms s ≡ ok s'
    → ((ms ≡ []) × (s ≡ s')) ⊎ Bad s'
folded-next [] s s' before h = inl (refl, cc)
folded-next (m ∷ ms) s s' before h =
    let (next, first, later) = >>=-eq-ok (coding_member m s) _ h in
    let bad = member-next m s next before first in
    elim (folded-next ms next s' (inr bad) later) [
      | inl (nothing, same) ↦ inr (rw same at bad)
      | inr still ↦ inr still
    ]

value-next :
    (value : Bytes) (s s' : Codings)
    → One s ⊎ Bad s
    → for_each_list_member invalid_transfer_encoding coding_member value s ≡ ok s'
    → Bad s'
value-next value s s' before h =
    let handled = value-Handled invalid_transfer_encoding coding_member value s s' h in
    elim (folded-next (handled.first ∷ handled.others) s s' before handled.result) [
      | inl (nothing, same) ↦ absurd (cc)
      | inr bad ↦ bad
    ]

values-next :
    (values : List Bytes) (s s' : Codings)
    → One s ⊎ Bad s
    → for_each_value invalid_transfer_encoding coding_member values s ≡ ok s'
    → ((values ≡ []) × (s ≡ s')) ⊎ Bad s'
unfolding for_each_value
values-next [] s s' before h = inl (refl, cc)
values-next (v ∷ vs) s s' before h =
    let (next, first, later) =
      >>=-eq-ok (for_each_list_member invalid_transfer_encoding coding_member v s) _ h in
    let bad = value-next v s next before first in
    elim (values-next vs next s' (inr bad) later) [
      | inl (nothing, same) ↦ inr (rw same at bad)
      | inr still ↦ inr still
    ]

-- The only member of the only value of the field.
pub record OnlyChunked (values : List Bytes) : Type 0 where
  pub value : Bytes
  pub member : Bytes
  pub only_value : values ≡ value ∷ []
  pub only_member : members value ≡ some (member ∷ [])
  pub is_chunked : IsChunked member

first-value :
    (v : Bytes) (s' : Codings)
    → for_each_list_member invalid_transfer_encoding coding_member v no_codings ≡ ok s'
    → ((m : Bytes) × (members v ≡ some (m ∷ [])) × IsChunked m × One s') ⊎ Bad s'
first-value v s' h =
    let handled = value-Handled invalid_transfer_encoding coding_member v no_codings s' h in
    let (next, first, later) =
      >>=-eq-ok (coding_member handled.first no_codings) _ handled.result in
    elim (member-first handled.first next first) [
      | inr bad ↦ elim (folded-next handled.others next s' (inr bad) later) [
        | inl (nothing, same) ↦ inr (rw same at bad)
        | inr still ↦ inr still
      ]
      | inl (is_chunked, one) ↦ elim (folded-next handled.others next s' (inl one) later) [
        | inl (nothing, same) ↦ inl (
          handled.first,
          handled.listed ∙ ap (λ ms. some (handled.first ∷ ms)) nothing,
          is_chunked,
          rw same at one,
        )
        | inr bad ↦ inr bad
      ]
    ]

-- The framing that `parse_transfer_encoding` answers.
abbrev pub CodingFrom : Option TransferFraming → List Bytes → Type 0
CodingFrom none values = values ≡ []
CodingFrom (some chunked_framing) values = OnlyChunked values

coded-Bad : (s : Codings) (r : Option TransferFraming) → Bad s → ¬ (coded s ≡ ok r)
unfolding coded
coded-Bad s r (some_codings, bad) h =
    let counted : (s.codings == 0) ≡ false = ground arith in
    elim (Bool-cases (not (is_exactly s.chunked_at s.codings))) [
      | inl wrong ↦ let k = rw (counted, wrong) at h in cc
      | inr right ↦ let k = rw (counted, right, bad) at h in cc
    ]

coded-One :
    (s : Codings) (r : Option TransferFraming) → One s → coded s ≡ ok r → r ≡ some chunked_framing
unfolding coded
coded-One s r (one, at, good) h = let k = rw (one, at, good) at h in cc

coded-none : coded no_codings ≡ ok none
unfolding coded
coded-none = refl

loop-CodingFrom :
    (values : List Bytes) (s : Codings) (framing : Option TransferFraming)
    → for_each_value invalid_transfer_encoding coding_member values no_codings ≡ ok s
    → coded s ≡ ok framing
    → CodingFrom framing values
unfolding for_each_value
loop-CodingFrom [] s framing looped ended =
    let same : no_codings ≡ s = cc in
    let absent : ok none ≡ ok framing = sym coded-none ∙ ap coded same ∙ ended in
    let k : framing ≡ none = cc in rw k refl
loop-CodingFrom (v ∷ vs) s framing looped ended =
    let (next, first, later) =
      >>=-eq-ok (for_each_list_member invalid_transfer_encoding coding_member v no_codings) _
        looped in
    elim (first-value v next first) [
      | inr bad ↦ elim (values-next vs next s (inr bad) later) [
        | inl (nothing, same) ↦ absurd (coded-Bad s framing (rw same at bad) ended)
        | inr still ↦ absurd (coded-Bad s framing still ended)
      ]
      | inl (m, only, is_chunked, one) ↦ elim (values-next vs next s (inl one) later) [
        | inl (nothing, same) ↦ rw (coded-One s framing (rw same at one) ended) (record {
          value = v;
          member = m;
          only_value = ap (λ ms. v ∷ ms) nothing;
          only_member = only;
          is_chunked = is_chunked;
        })
        | inr bad ↦ absurd (coded-Bad s framing bad ended)
      ]
    ]

-- An accepted `Transfer-Encoding` is absent, or it has one value with one member, which is the
-- word `chunked` in any case between white space, and nothing else, so without parameters.
pub parse_transfer_encoding-CodingFrom :
    (values : List Bytes) (framing : Option TransferFraming)
    → parse_transfer_encoding values ≡ ok framing
    → CodingFrom framing values
unfolding parse_transfer_encoding
parse_transfer_encoding-CodingFrom values framing h =
    let (s, looped, ended) =
      >>=-eq-ok (for_each_value invalid_transfer_encoding coding_member values no_codings) _ h in
    loop-CodingFrom values s framing looped ended
