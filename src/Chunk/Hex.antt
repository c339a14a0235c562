-- ===== src/Chunk/Hex.antt =====
-- Which number hexadecimal digits stand for.
use vakya.Prelude.{
  leb→le, ◌⊎◌, ltb, ◌-◌, ℕ, ◌+◌, ◌*◌, ◌≤◌, ◌<◌, ◌≡◌, refl, ◌∙◌, ◌↔◌, inl, inr, true, [], ◌∷◌, arith,
  leb, if◌then◌else◌, Bool-cases, All, Bytes, u64_max, ok, err,
}
use vakya.Chunk.{invalid_chunk_size, all, is_hexdigit, hex, fold_hex}

-- The hexadecimal digits by their codes, apart from the tests of the code: `0` to `9`, `A` to `F`
-- and `a` to `f`, and what each stands for.
abbrev pub IsHexDigit : ℕ → Type 0
IsHexDigit b = ((b'0' ≤ b) × (b ≤ b'9')) ⊎ ((b'A' ≤ b) × (b ≤ b'F')) ⊎ ((b'a' ≤ b) × (b ≤ b'f'))

abbrev pub digit_value : ℕ → ℕ
digit_value b =
    if ltb b b'A' then b - b'0' else if ltb b b'a' then 10 + (b - b'A') else 10 + (b - b'a')

abbrev pub IsHex : Bytes → Type 0
IsHex = All IsHexDigit

-- The number that hexadecimal digits stand for, behind those that stand for `acc`.
abbrev pub hex_value : ℕ → Bytes → ℕ
hex_value acc [] = acc
hex_value acc (digit ∷ digits) = hex_value (acc * 16 + digit_value digit) digits

hex-digit_value : (b : ℕ) → IsHexDigit b → hex b ≡ digit_value b
unfolding hex
hex-digit_value b h = ground arith

pub is_hexdigit_iff : (b : ℕ) → (is_hexdigit b ≡ true) ↔ IsHexDigit b
unfolding is_hexdigit
is_hexdigit_iff b = (λ h. ground arith, λ h. ground arith)

hex_value_grows : (acc : ℕ) (digits : Bytes) → acc ≤ hex_value acc digits
hex_value_grows acc [] = omega arith
hex_value_grows acc (d ∷ ds) = omega (arith, hex_value_grows (acc * 16 + digit_value d) ds)

fold_hex_nil : (acc : ℕ) → fold_hex acc [] ≡ ok acc
unfolding fold_hex
fold_hex_nil acc = refl

fold_hex_next :
    (acc d v : ℕ) (ds : Bytes)
    → hex d ≡ v
    → acc * 16 + v ≤ u64_max
    → fold_hex acc (d ∷ ds) ≡ fold_hex (acc * 16 + v) ds
unfolding fold_hex
fold_hex_next acc d v ds same fits =
    let within : acc * 16 + hex d ≤ u64_max = rw same fits in rw (← same) (ground arith)

fold_hex_stops :
    (acc d v : ℕ) (ds : Bytes)
    → hex d ≡ v
    → u64_max < acc * 16 + v
    → fold_hex acc (d ∷ ds) ≡ err invalid_chunk_size
unfolding fold_hex
fold_hex_stops acc d v ds same over =
    let past : u64_max < acc * 16 + hex d = rw same over in ground arith

pub fold_hex_fits :
    (acc : ℕ) (digits : Bytes)
    → IsHex digits
    → hex_value acc digits ≤ u64_max
    → fold_hex acc digits ≡ ok (hex_value acc digits)
fold_hex_fits acc [] all_hex h = fold_hex_nil acc
fold_hex_fits acc (d ∷ ds) (is_hex, all_hex) h =
    let v = digit_value d in
    let grows = hex_value_grows (acc * 16 + v) ds in
    fold_hex_next acc d v ds (hex-digit_value d is_hex) (omega (arith, grows, h))
    ∙ fold_hex_fits (acc * 16 + v) ds all_hex h

fold_hex_overflow :
    (acc : ℕ) (digits : Bytes)
    → IsHex digits
    → acc ≤ u64_max
    → u64_max < hex_value acc digits
    → fold_hex acc digits ≡ err invalid_chunk_size
fold_hex_overflow acc [] all_hex f h = absurd (omega arith)
fold_hex_overflow acc (d ∷ ds) (is_hex, all_hex) f h =
    let v = digit_value d in
    let same = hex-digit_value d is_hex in
    elim (Bool-cases (leb (acc * 16 + v) u64_max)) [
      | inl fits ↦
          fold_hex_next acc d v ds same (leb→le _ _ fits)
          ∙ fold_hex_overflow (acc * 16 + v) ds all_hex (leb→le _ _ fits) h
      | inr over ↦ fold_hex_stops acc d v ds same (ground (arith, over))
    ]

pub all_hexdigits_iff : (v : Bytes) → (all is_hexdigit v ≡ true) ↔ IsHex v
all_hexdigits_iff [] = (λ _. tt, λ _. refl)
all_hexdigits_iff (b ∷ bs) = (
  λ h. elim (Bool-cases (is_hexdigit b)) [
    | inl digit ↦ ((is_hexdigit_iff b).0 digit, (all_hexdigits_iff bs).0 (rw digit at h))
    | inr other ↦ absurd (let k = rw other at h in cc)
  ],
  λ h. rw ((is_hexdigit_iff b).1 h.0) ((all_hexdigits_iff bs).1 h.1),
)

pub fold_hex-eq-ok :
    (digits : Bytes) (n : ℕ)
    → IsHex digits
    → fold_hex 0 digits ≡ ok n
    → (n ≡ hex_value 0 digits) × (n ≤ u64_max)
fold_hex-eq-ok digits n all_hex h = elim (Bool-cases (leb (hex_value 0 digits) u64_max)) [
  | inl fits ↦ ground (arith, fold_hex_fits 0 digits all_hex)
  | inr over ↦ ground (arith, fold_hex_overflow 0 digits all_hex)
]
