-- ===== src/Head/Decimal.antt =====
-- A number in decimal is accepted as a `Content-Length`, as one value with one member.
use vakya.Prelude.{
  ℕ, ◌+◌, ◌-◌, ◌*◌, ◌≤◌, ◌≡◌, refl, sym, ap, ◌∙◌, ◌≢◌, inl, inr, Bool, true, false, none, some, [],
  ◌∷◌, ◌++◌, append-nil, append_assoc, arith, Bool-cases, All, Bytes, u64_max, Result, ok,
}
use vakya.Syntax.{is_ows, is_digit}
use vakya.Syntax.Trim.{trim_ows-solid}
use vakya.Chunk.{all}
use vakya.Head.{
  HeadError, invalid_content_length, is_nil, scan_byte, goes_on, members_loop, for_each_list_member,
  for_each_value,
}
use vakya.Head.Framing.{
  fold_decimal, merge_length, length_value, length_member, parse_content_length,
}
use vakya.Head.Length.{decimal_value, DecimalText}

decimal_value_grows : (acc : ℕ) (digits : Bytes) → acc ≤ decimal_value acc digits
decimal_value_grows acc [] = omega arith
decimal_value_grows acc (d ∷ ds) = omega (arith, decimal_value_grows (acc * 10 + (d - b'0')) ds)

fold_decimal_fits :
    (acc : ℕ) (digits : Bytes)
    → decimal_value acc digits ≤ u64_max
    → fold_decimal acc digits ≡ some (decimal_value acc digits)
unfolding fold_decimal
fold_decimal_fits acc [] h = refl
fold_decimal_fits acc (d ∷ ds) h =
    let grows = decimal_value_grows (acc * 10 + (d - b'0')) ds in
    ground (arith, fold_decimal_fits (acc * 10 + (d - b'0')) ds)

digit-goes_on : (b : ℕ) → is_digit b ≡ true → scan_byte false false b ≡ goes_on false false
unfolding scan_byte
digit-goes_on b h = ground arith

all-cons :
    (p : ℕ → Bool) (b : ℕ) (bs : Bytes) → all p (b ∷ bs) ≡ true → (p b ≡ true) × (all p bs ≡ true)
all-cons p b bs h = elim (Bool-cases (p b)) [
  | inl holds ↦ (holds, rw holds at h)
  | inr fails ↦ absurd (let k = rw fails at h in cc)
]

module _ {S : Type 0} (error : HeadError) (handle : Bytes → S → Result HeadError S) where
  digits_loop :
      (bs member : Bytes) (s : S)
      → all is_digit bs ≡ true
      → is_nil (member ++ bs) ≡ false
      → members_loop error handle bs member false false s ≡ handle (member ++ bs) s
  unfolding members_loop
  digits_loop [] member s digits some_byte =
      rw (append-nil member) (rw (rw (append-nil member) at some_byte) refl)
  digits_loop (b ∷ bs) member s digits some_byte =
      let (first, others) = all-cons is_digit b bs digits in
      let same = append_assoc member (b ∷ []) bs in
      rw (members_loop, digit-goes_on b first)
        (digits_loop bs (member ++ (b ∷ [])) s others (rw same some_byte)
          ∙ ap (λ v. handle v s) same)

digits-solid : (bs : Bytes) → all is_digit bs ≡ true → All (λ b. is_ows b ≡ false) bs
digits-solid [] h = tt
digits-solid (b ∷ bs) h =
    let (first, others) = all-cons is_digit b bs h in (ground arith, digits-solid bs others)

nonempty : (bs : Bytes) → bs ≢ [] → is_nil bs ≡ false
nonempty [] h = absurd (h refl)
nonempty (b ∷ bs) h = refl

pub DecimalText-length_value :
    (text : Bytes) (n : ℕ) → DecimalText text n → length_value text ≡ ok n
unfolding length_value
DecimalText-length_value text n t =
    let folded : fold_decimal 0 text ≡ some n =
      fold_decimal_fits 0 text (omega (arith, t.fits, t.value)) ∙ ap some (sym t.value) in
    rw (nonempty text t.some_digit, t.digits, folded) refl

-- One value in decimal.
pub DecimalText-parse_content_length :
    (text : Bytes) (n : ℕ) → DecimalText text n → parse_content_length (text ∷ []) ≡ ok (some n)
unfolding parse_content_length for_each_value for_each_list_member length_member merge_length
DecimalText-parse_content_length text n t =
    rw
      (
        digits_loop invalid_content_length length_member text [] none t.digits
            (nonempty text t.some_digit),
        trim_ows-solid text (digits-solid text t.digits),
        DecimalText-length_value text n t,
      )
      refl
