-- ===== src/Body.antt =====
-- src/body/size_hint.rs: bounds on the payload bytes that a body has still to produce.
use vakya.Prelude.{
  ℕ, ◌≡◌, inl, inr, Option, none, some, arith, ltb, ◌==◌, if◌then◌else◌, Option-cases,
}

pub record SizeHint : Type 0 where
  pub lower : ℕ
  pub upper : Option ℕ

unfoldable pub unknown_size : SizeHint
unknown_size = record { lower = 0; upper = none }

unfoldable pub with_exact : ℕ → SizeHint
with_exact bytes = record { lower = bytes; upper = some bytes }

-- `upper.is_some_and(|upper| upper < lower)`; the error is a `LocalMessage`.
unfoldable pub with_bounds : (lower : ℕ) → (upper : Option ℕ) → Option SizeHint
with_bounds lower none = some (record { lower = lower; upper = none })
with_bounds lower (some upper) =
    if ltb upper lower then none else some (record { lower = lower; upper = some upper })

exact_of : (lower : ℕ) → (upper : Option ℕ) → Option ℕ
exact_of lower none = none
exact_of lower (some upper) = if upper == lower then some upper else none

unfoldable pub exact : SizeHint → Option ℕ
unfolding exact_of
exact size = exact_of size.lower size.upper

pub exact-eq_some :
    (size : SizeHint) (n : ℕ) → exact size ≡ some n → (size.lower ≡ n) × (size.upper ≡ some n)
unfolding exact exact_of
exact-eq_some size n h = elim (Option-cases size.upper) [
  | inl e ↦ absurd (cc)
  | inr (u, e) ↦ ground arith
]
