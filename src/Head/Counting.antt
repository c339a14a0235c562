-- ===== src/Head/Counting.antt =====
-- What the members of `Transfer-Encoding` do to the codings that are counted.
use vakya.Prelude.{
  ℕ, ◌+◌, ◌≤◌, ◌≡◌, refl, sym, ap, ◌∙◌, ◌⊎◌, inl, inr, true, false, not, ◌||◌, Option, none, some,
  [], ◌∷◌, arith, Bool-cases, Bytes, ok, ok_or, is_some, >>=-eq-ok,
}
use vakya.Syntax.{trim_ows}
use vakya.Chunk.{checked}
use vakya.Head.{invalid_transfer_encoding, is_nil, is_token}
use vakya.Head.Framing.{
  Codings, no_codings, split_coding, eq_ignore_ascii_case, chunked_token,
  validate_transfer_parameters, count_coding, coding_member,
}
use vakya.Head.Chunked.{IsChunked, parts-IsChunked}

-- One coding was read so far, and it was `chunked`.
abbrev pub One : Codings → Type 0
One s = (s.codings ≡ 1) × (s.chunked_at ≡ some 1) × (s.unsupported ≡ false)

-- Some coding was read that is not supported.
abbrev pub Bad : Codings → Type 0
Bad s = (1 ≤ s.codings) × (s.unsupported ≡ true)

-- A coding other than `chunked` is counted and remembered.
count-other :
    (coding parameters : Bytes) (s s' : Codings)
    → eq_ignore_ascii_case coding chunked_token ≡ false
    → count_coding coding parameters s ≡ ok s'
    → Bad s'
unfolding count_coding
count-other coding parameters s s' other h =
    let (n, counted, later) =
      >>=-eq-ok (ok_or (checked (s.codings + 1)) invalid_transfer_encoding) _ h in
    let same : ok (record s { codings = n; unsupported = true }) ≡ ok s' = rw other at later in
    let result : record s { codings = n; unsupported = true } ≡ s' = cc in
    let size : n ≡ s.codings + 1 = ground arith in rw (← result) (omega arith, refl)

count-first :
    (coding parameters : Bytes) (s' : Codings)
    → count_coding coding parameters no_codings ≡ ok s'
    → ((parameters ≡ []) × (eq_ignore_ascii_case coding chunked_token ≡ true) × One s') ⊎ Bad s'
unfolding count_coding
count-first coding [] s' h = elim (Bool-cases (eq_ignore_ascii_case coding chunked_token)) [
  | inr other ↦ inr (count-other coding [] no_codings s' other h)
  | inl same ↦
      let k : ok record { codings = 1; chunked_at = some 1; unsupported = false } ≡ ok s' =
        rw same at h in
      let result : record { codings = 1; chunked_at = some 1; unsupported = false } ≡ s' = cc in
      inl (refl, same, rw (← result) (refl, refl, refl))
]
count-first coding (p ∷ ps) s' h = elim (Bool-cases (eq_ignore_ascii_case coding chunked_token)) [
  | inr other ↦ inr (count-other coding (p ∷ ps) no_codings s' other h)
  | inl same ↦ absurd (let k = rw same at h in cc)
]

count-again :
    (coding parameters : Bytes) (s s' : Codings)
    → eq_ignore_ascii_case coding chunked_token ≡ true
    → count_coding coding parameters s ≡ ok s'
    → (s.chunked_at ≡ none) × (s'.unsupported ≡ s.unsupported) × (1 ≤ s'.codings)
unfolding count_coding
count-again coding parameters s s' same h =
    let (n, counted, later) =
      >>=-eq-ok (ok_or (checked (s.codings + 1)) invalid_transfer_encoding) _ h in
    let size : n ≡ s.codings + 1 = ground arith in
    elim (Bool-cases (is_some s.chunked_at || not (is_nil parameters))) [
      | inl twice ↦ absurd (let k = rw (same, twice) at later in cc)
      | inr once ↦
          let k : ok (record s { codings = n; chunked_at = some n }) ≡ ok s' =
            rw (same, once) at later in
          let result : record s { codings = n; chunked_at = some n } ≡ s' = cc in
          (absent s.chunked_at once, rw (← result) refl, rw (← result) (omega arith))
    ]
  where
    absent : (o : Option ℕ) → (is_some o || not (is_nil parameters)) ≡ false → o ≡ none
    absent none e = refl
    absent (some v) e = absurd (cc)

count-next :
    (coding parameters : Bytes) (s s' : Codings)
    → One s ⊎ Bad s
    → count_coding coding parameters s ≡ ok s'
    → Bad s'
count-next coding parameters s s' before h =
    elim (Bool-cases (eq_ignore_ascii_case coding chunked_token)) [
      | inr other ↦ count-other coding parameters s s' other h
      | inl same ↦
          let (unset, kept, counted) = count-again coding parameters s s' same h in
          by_state before unset kept counted
    ]
  where
    by_state :
        One s ⊎ Bad s
        → s.chunked_at ≡ none
        → s'.unsupported ≡ s.unsupported
        → 1 ≤ s'.codings
        → Bad s'
    by_state (inl (one, at, good)) unset kept counted = absurd (let k = sym unset ∙ at in cc)
    by_state (inr (some_codings, bad)) unset kept counted = (counted, kept ∙ bad)

-- The coding and the parameters of a member that was handled.
counted_member :
    (m : Bytes) (s s' : Codings)
    → coding_member m s ≡ ok s'
    → (coding : Bytes) × (parameters : Bytes) × (split_coding (trim_ows m)
        ≡ ok (coding, parameters))
      × (count_coding coding parameters s ≡ ok s')
unfolding coding_member
counted_member m s s' h =
    let ((coding, parameters), parts, later) = >>=-eq-ok (split_coding (trim_ows m)) _ h in
    elim (Bool-cases (is_token coding)) [
      | inr bad ↦ absurd (let k = rw bad at later in cc)
      | inl good ↦
          let (unit, valid, counted) =
            >>=-eq-ok (validate_transfer_parameters parameters) _ (rw good at later) in
          (coding, parameters, parts, counted)
    ]

pub member-first :
    (m : Bytes) (s' : Codings)
    → coding_member m no_codings ≡ ok s'
    → (IsChunked m × One s') ⊎ Bad s'
member-first m s' h =
    let (coding, parameters, parts, counted) = counted_member m no_codings s' h in
    elim (count-first coding parameters s' counted) [
      | inr bad ↦ inr bad
      | inl (nothing, same, one) ↦
          inl (parts-IsChunked m coding (parts ∙ ap (λ p. ok (coding, p)) nothing) same, one)
    ]

pub member-next : (m : Bytes) (s s' : Codings) → One s ⊎ Bad s → coding_member m s ≡ ok s' → Bad s'
member-next m s s' before h =
    let (coding, parameters, parts, counted) = counted_member m s s' h in
    count-next coding parameters s s' before counted
