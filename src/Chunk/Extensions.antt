-- ===== src/Chunk/Extensions.antt =====
-- The loop of `validate_extensions` ends on every input, within the fuel that it is given.
use vakya.Prelude.{
  ℕ, zero, suc, ◌≤◌, ◌<◌, ◌≡◌, refl, ap, inl, inr, true, [], ◌∷◌, arith, ◌==◌, Bool-cases, length,
  drop, length-drop, Bytes, Result, ok, err, Result-cases, >>=-eq-ok,
}
use vakya.Syntax.{trim_ows, token_len}
use vakya.Syntax.Trim.{length-trim_ows}
use vakya.Chunk.{
  DecodeError, first_is, extension_value, after_extension, after_name, after_semicolon,
  extension_round, extension_loop, validate_extensions,
}

after_extension-eq-ok : (v : Bytes) {rest : Bytes} → after_extension v ≡ ok rest → rest ≡ v
unfolding after_extension
after_extension-eq-ok [] h = ground arith
after_extension-eq-ok (b ∷ bs) h = ground arith

trim-drop-le : (n : ℕ) (v : Bytes) → length (trim_ows (drop n v)) ≤ length v
trim-drop-le n v = omega (arith, length-trim_ows (drop n v), length-drop n v)

after_name_shrinks : (v : Bytes) {rest : Bytes} → after_name v ≡ ok rest → length rest ≤ length v
unfolding after_name
after_name_shrinks v {rest} h = elim (Bool-cases (first_is b'=' v)) [
  | inr other ↦ omega (arith, ap length (after_extension-eq-ok v (rw other at h)))
  | inl equals ↦
      let input = trim_ows (drop 1 v) in
      let (value, e, later) = >>=-eq-ok (extension_value input) _ (rw equals at h) in
      omega (
        arith,
        ap length (after_extension-eq-ok (trim_ows (drop value input)) later),
        trim-drop-le value input,
        trim-drop-le 1 v,
      )
]

after_semicolon_shrinks :
    (v : Bytes) {rest : Bytes} → after_semicolon v ≡ ok rest → length rest ≤ length v
unfolding after_semicolon
after_semicolon_shrinks v {rest} h = elim (Bool-cases (token_len v == 0)) [
  | inl bad ↦ absurd (ground arith)
  | inr fine ↦
      let later : after_name (trim_ows (drop (token_len v) v)) ≡ ok rest = rw fine at h in
      omega (
        arith,
        after_name_shrinks (trim_ows (drop (token_len v) v)) later,
        trim-drop-le (token_len v) v,
      )
]

first_is-length : (b : ℕ) (v : Bytes) → first_is b v ≡ true → length (drop 1 v) < length v
first_is-length b [] h = absurd (cc)
first_is-length b (c ∷ cs) h = omega arith

-- A round that goes on leaves less than it was given.
extension_round_shrinks :
    (v : Bytes) {rest : Bytes} → extension_round v ≡ ok rest → length rest < length v
unfolding extension_round
extension_round_shrinks v {rest} h = elim (Bool-cases (first_is b';' (trim_ows v))) [
  | inr bad ↦ absurd (ground arith)
  | inl semicolon ↦
      let input = trim_ows v in
      let later : after_semicolon (trim_ows (drop 1 input)) ≡ ok rest = rw semicolon at h in
      omega (
        arith,
        after_semicolon_shrinks (trim_ows (drop 1 input)) later,
        length-trim_ows (drop 1 input),
        first_is-length b';' input semicolon,
        length-trim_ows v,
      )
]

-- The loop of `validate_extensions` without fuel: after `rounds` rounds it ends with that answer,
-- where nothing is left or where a round fails; each round before leaves less than it was given.
pub data Ends : (rounds : ℕ) → Bytes → Result DecodeError (Unit {0}) → Type 0 where
  nothing_left : Ends 0 [] (ok tt)
  refused :
      {b : ℕ} {bs : Bytes} {e : DecodeError}
      → extension_round (b ∷ bs) ≡ err e
      → Ends 1 (b ∷ bs) (err e)
  another :
      {b : ℕ} {bs rest : Bytes} {rounds : ℕ} {answer : Result DecodeError (Unit {0})}
      → extension_round (b ∷ bs) ≡ ok rest
      → length rest < length (b ∷ bs)
      → Ends rounds rest answer
      → Ends (suc rounds) (b ∷ bs) answer

extension_loop-Ends :
    (fuel : ℕ) (v : Bytes)
    → length v ≤ fuel
    → (rounds : ℕ) × (rounds ≤ length v) × Ends rounds v (extension_loop fuel v)
unfolding extension_loop
extension_loop-Ends fuel [] enough = (0, omega arith, nothing_left)
extension_loop-Ends zero (b ∷ bs) enough = absurd (omega arith)
extension_loop-Ends (suc fuel) (b ∷ bs) enough = elim (Result-cases (extension_round (b ∷ bs))) [
  | inr (e, bad) ↦ rw bad (1, omega arith, refused bad)
  | inl (rest, good) ↦
      let less = extension_round_shrinks (b ∷ bs) good in
      let (rounds, few, ends) = extension_loop-Ends fuel rest (omega arith) in
      rw good (suc rounds, omega arith, another good less ends)
]

-- `validate_extensions` ends on every input, after no more rounds than the input has bytes, and
-- each round that goes on leaves less than it was given; its answer is that of the loop without
-- fuel: it accepts where nothing is left, and fails with the error of the round that fails.
pub validate_extensions-Ends :
    (v : Bytes) → (rounds : ℕ) × (rounds ≤ length v) × Ends rounds v (validate_extensions v)
unfolding validate_extensions
validate_extensions-Ends v = extension_loop-Ends (length v) v (omega arith)

pub validate_extensions_nil : validate_extensions [] ≡ ok tt
unfolding validate_extensions
validate_extensions_nil = refl
