-- ===== src/Head/Length.antt =====
-- What an accepted `Content-Length` says.
use vakya.Prelude.{
  ℕ, ◌+◌, ◌-◌, ◌*◌, ◌≤◌, ◌≡◌, refl, ◌∙◌, ◌≢◌, inl, inr, true, false, not, ◌&&◌, Option, none, some,
  List, [], ◌∷◌, arith, ◌==◌, if◌then◌else◌, ==_iff, Bool-cases, Option-cases, length, All, Bytes,
  u64_max, ok, err, >>=-eq-ok,
}
use vakya.Syntax.{is_digit, trim_ows}
use vakya.Chunk.{all}
use vakya.Head.{invalid_content_length, is_nil, for_each_list_member, for_each_value}
use vakya.Head.Framing.{
  fold_decimal, merge_length, length_value, length_member, parse_content_length, no_values, is_none,
}
use vakya.Head.Members.{members, folded, value-Handled}

-- The number that decimal digits stand for, behind those that stand for `acc`.
abbrev pub decimal_value : ℕ → Bytes → ℕ
decimal_value acc [] = acc
decimal_value acc (digit ∷ digits) = decimal_value (acc * 10 + (digit - b'0')) digits

-- `text` is decimal digits, at least one, for a number that fits 64 bits.
pub record DecimalText (text : Bytes) (n : ℕ) : Type 0 where
  pub some_digit : text ≢ []
  pub digits : all is_digit text ≡ true
  pub value : n ≡ decimal_value 0 text
  pub fits : n ≤ u64_max

fold_decimal-eq_some :
    (acc : ℕ) (digits : Bytes) (n : ℕ)
    → acc ≤ u64_max
    → fold_decimal acc digits ≡ some n
    → (n ≡ decimal_value acc digits) × (n ≤ u64_max)
unfolding fold_decimal
fold_decimal-eq_some acc [] n fits h = ground arith
fold_decimal-eq_some acc (d ∷ ds) n fits h =
    ground (arith, fold_decimal-eq_some (acc * 10 + (d - b'0')) ds n)

is_nil-false : (bs : Bytes) → is_nil bs ≡ false → bs ≢ []
is_nil-false [] h = absurd (cc)
is_nil-false (b ∷ bs) h = λ e. cc

length_value-DecimalText : (text : Bytes) (n : ℕ) → length_value text ≡ ok n → DecimalText text n
unfolding length_value
length_value-DecimalText text n h = elim (Bool-cases (is_nil text)) [
  | inl e ↦ absurd (let k = rw e at h in cc)
  | inr e ↦ elim (Bool-cases (all is_digit text)) [
    | inr bad ↦ absurd (let k = rw (e, bad) at h in cc)
    | inl digits ↦ elim (Option-cases (fold_decimal 0 text)) [
      | inl over ↦ absurd (let k = rw (e, digits, over) at h in cc)
      | inr (m, parsed) ↦
          let same : ok m ≡ ok n = rw (e, digits, parsed) at h in
          let (value, fits) =
            fold_decimal-eq_some 0 text n (omega arith) (parsed ∙ (let k = same in cc)) in
          record { some_digit = is_nil-false text e; digits = digits; value = value; fits = fits }
    ]
  ]
]

-- Every member of a value is the number `n` in decimal.
pub record Denotes (n : ℕ) (value : Bytes) : Type 0 where
  pub first : Bytes
  pub others : List Bytes
  pub listed : members value ≡ some (first ∷ others)
  pub each : All (λ m. DecimalText (trim_ows m) n) (first ∷ others)

-- The parsed length after a member of the length `n`.
abbrev Agrees : Option ℕ → ℕ → Type 0
Agrees none n = Unit
Agrees (some m) n = m ≡ n

merge-Agrees :
    (parsed : Option ℕ) (n : ℕ) (r : Option ℕ)
    → merge_length parsed n ≡ ok r
    → (r ≡ some n) × Agrees parsed n
unfolding merge_length
merge-Agrees none n r h = (cc, tt)
merge-Agrees (some m) n r h = elim (Bool-cases (m == n)) [
  | inl same ↦ (let k = rw same at h in cc, (==_iff m n).0 same)
  | inr bad ↦ absurd (let k = rw bad at h in cc)
]

member-Agrees :
    (m : Bytes) (parsed r : Option ℕ)
    → length_member m parsed ≡ ok r
    → (n : ℕ) × (r ≡ some n) × DecimalText (trim_ows m) n × Agrees parsed n
unfolding length_member
member-Agrees m parsed r h =
    let (n, value, merged) = >>=-eq-ok (length_value (trim_ows m)) _ h in
    let (result, agrees) = merge-Agrees parsed n r merged in
    (n, result, length_value-DecimalText (trim_ows m) n value, agrees)

folded-Agrees :
    (ms : List Bytes) (n : ℕ) (r : Option ℕ)
    → folded invalid_content_length length_member ms (some n) ≡ ok r
    → (r ≡ some n) × All (λ m. DecimalText (trim_ows m) n) ms
folded-Agrees [] n r h = (cc, tt)
folded-Agrees (m ∷ ms) n r h =
    let (next, first, later) = >>=-eq-ok (length_member m (some n)) _ h in
    let (k, same, text, agrees) = member-Agrees m (some n) next first in
    let (result, rest) = folded-Agrees ms n r (rw (same, ← agrees) at later) in
    (result, (rw agrees text, rest))

value-Denotes :
    (value : Bytes) (parsed r : Option ℕ)
    → for_each_list_member invalid_content_length length_member value parsed ≡ ok r
    → (n : ℕ) × (r ≡ some n) × Denotes n value × Agrees parsed n
value-Denotes value parsed r h =
    let handled = value-Handled invalid_content_length length_member value parsed r h in
    let (next, first, later) = >>=-eq-ok (length_member handled.first parsed) _ handled.result in
    let (n, same, text, agrees) = member-Agrees handled.first parsed next first in
    let (result, rest) = folded-Agrees handled.others n r (rw same at later) in
    (
      n,
      result,
      record {
        first = handled.first;
        others = handled.others;
        listed = handled.listed;
        each = (text, rest);
      },
      agrees,
    )

values-Denotes :
    (values : List Bytes) (n : ℕ) (r : Option ℕ)
    → for_each_value invalid_content_length length_member values (some n) ≡ ok r
    → (r ≡ some n) × All (Denotes n) values
unfolding for_each_value
values-Denotes [] n r h = (cc, tt)
values-Denotes (v ∷ vs) n r h =
    let (next, first, later) =
      >>=-eq-ok (for_each_list_member invalid_content_length length_member v (some n)) _ h in
    let (k, same, denotes, agrees) = value-Denotes v (some n) next first in
    let (result, rest) = values-Denotes vs n r (rw (same, ← agrees) at later) in
    (result, (rw agrees denotes, rest))

-- The length that `parse_content_length` answers.
abbrev pub LengthFrom : Option ℕ → List Bytes → Type 0
LengthFrom none values = values ≡ []
LengthFrom (some n) values = (values ≢ []) × All (Denotes n) values

checked_values :
    (values : List Bytes) (parsed r : Option ℕ)
    → (if not (no_values values) && is_none parsed then err invalid_content_length else ok parsed)
      ≡ ok r
    → parsed ≡ r
checked_values [] parsed r h = cc
checked_values (v ∷ vs) none r h = absurd (cc)
checked_values (v ∷ vs) (some n) r h = cc

-- An accepted `Content-Length` is honest: no length means that the field is absent, and a length
-- `n` means that it is there and every member of every value of it is decimal digits that stand
-- for `n`, which fits 64 bits.
pub parse_content_length-LengthFrom :
    (values : List Bytes) (length : Option ℕ)
    → parse_content_length values ≡ ok length
    → LengthFrom length values
unfolding parse_content_length for_each_value
parse_content_length-LengthFrom [] length h = let absent : length ≡ none = cc in rw absent refl
parse_content_length-LengthFrom (v ∷ vs) length h =
    let (parsed, looped, ended) =
      >>=-eq-ok (for_each_value invalid_content_length length_member (v ∷ vs) none) _ h in
    let same = checked_values (v ∷ vs) parsed length ended in
    let (next, first, later) =
      >>=-eq-ok (for_each_list_member invalid_content_length length_member v none) _ looped in
    let (n, is_n, denotes, tt) = value-Denotes v none next first in
    let (result, rest) = values-Denotes vs n parsed (rw is_n at later) in
    rw (← same, result) (λ e. cc, (denotes, rest))
