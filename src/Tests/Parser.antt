-- ===== src/Tests/Parser.antt =====
-- A parser of trailer blocks for the tests: it takes the empty block and no other.
use vakya.Prelude.{
  ℕ, ◌≤◌, ◌≡◌, refl, ap, inl, inr, ◌&&◌, [], ◌∷◌, arith, ◌==◌, if◌then◌else◌, Bool-cases, length,
  Bytes, Result, ok, err, ok-inj,
}
use vakya.Chunk.{DecodeError, invalid_trailer}
use vakya.Decode.Reach.{crlf}

abbrev pub no_fields : (max_trailers : ℕ) → Bytes → Result DecodeError (ℕ × Unit {0})
no_fields n [] = err invalid_trailer
no_fields n (a ∷ []) = err invalid_trailer
no_fields n (a ∷ b ∷ bs) = if a == b'\r' && b == b'\n' then ok (2, tt) else err invalid_trailer

pub no_fields-within :
    (n : ℕ) (block : Bytes) (k : ℕ) (fields : Unit {0})
    → no_fields n block ≡ ok (k, fields)
    → k ≤ length block
no_fields-within n [] k fields h = absurd (cc)
no_fields-within n (a ∷ []) k fields h = absurd (cc)
no_fields-within n (a ∷ b ∷ bs) k fields h = elim (Bool-cases (a == b'\r' && b == b'\n')) [
  | inr other ↦ absurd (let e = rw other at h in cc)
  | inl ends ↦
      let e : ◌≡◌ {A = Result DecodeError (ℕ × Unit {0})} (ok (2, tt)) (ok (k, fields)) =
        rw ends at h in
      let two : 2 ≡ k = ap (λ p. p.0) (ok-inj (2, tt) (k, fields) e) in omega arith
]

pub no_fields-empty : (n : ℕ) → no_fields n crlf ≡ ok (2, tt)
no_fields-empty n = refl
