-- ===== src/Admission/Reserving.antt =====
-- What reservations keep.
use vakya.Prelude.{refl, Bool, true, false, none, some, arith}
use native.Mathlib.Numerals.{unary_clauses}
use vakya.Admission.{
  ready, reserved, queued, active, ready_for_waiter, closed, is_closed, is_ready, is_for_waiter,
  waiter_of, set_waiter,
}
use vakya.Admission.Sender.{refuses, try_reserve, occupied, enrol, poll_reserve, drop_reservation}
use vakya.Admission.World.{
  trying, polled, left, one_if, granted, Accounts, Accounted, Enabled, after_poll, act,
}
use vakya.Admission.Parts.{Keeps}

module _ {ℓ κ} {J : Type ℓ} {W : Type κ} where
  pub trying-Kept : Keeps {J = J} {W = W} trying
  unfolding Accounts Accounted one_if act Enabled try_reserve refuses granted is_closed is_ready
  trying-Kept true k ready n d p w r own enabled =
      (_, refl, (omega (arith, own), omega (arith, own), omega (arith, own)))
  trying-Kept true k (reserved o) n d p w r own enabled =
      (_, refl, (omega (arith, own), omega (arith, own), omega (arith, own)))
  trying-Kept true k (queued job o) n d p w r own enabled =
      (_, refl, (omega (arith, own), omega (arith, own), omega (arith, own)))
  trying-Kept true k (active o) n d p w r own enabled =
      (_, refl, (omega (arith, own), omega (arith, own), omega (arith, own)))
  trying-Kept true k ready_for_waiter n d p w r own enabled =
      (_, refl, (omega (arith, own), omega (arith, own), omega (arith, own)))
  trying-Kept true k closed n d p w r own enabled = (_, refl, tt)
  trying-Kept false k ready n d p w r own enabled =
      (_, refl, (omega (arith, own), omega (arith, own), omega (arith, own)))
  trying-Kept false k (reserved o) n d p w r own enabled =
      (_, refl, (omega (arith, own), omega (arith, own), omega (arith, own)))
  trying-Kept false k (queued job o) n d p w r own enabled =
      (_, refl, (omega (arith, own), omega (arith, own), omega (arith, own)))
  trying-Kept false k (active o) n d p w r own enabled =
      (_, refl, (omega (arith, own), omega (arith, own), omega (arith, own)))
  trying-Kept false k ready_for_waiter n d p w r own enabled =
      (_, refl, (omega (arith, own), omega (arith, own), omega (arith, own)))
  trying-Kept false k closed n d p w r own enabled = (_, refl, tt)

  pub polled-Kept :
      (registered : Bool) (waker : W) → Keeps {J = J} {W = W} (polled registered waker)
  unfolding Accounts Accounted one_if act Enabled poll_reserve refuses enrol occupied after_poll
      drop_reservation waiter_of set_waiter is_for_waiter is_closed is_ready
  polled-Kept true m true k ready n d p w r own enabled = (_, refl, omega (arith, own, enabled))
  polled-Kept true m true k (reserved none) n d p w r own enabled =
      (_, refl, omega (arith, own, enabled))
  polled-Kept true m true k (reserved (some o)) n d p w r own enabled =
      (_, refl, omega (arith, own, enabled))
  polled-Kept true m true k (queued job none) n d p w r own enabled =
      (_, refl, omega (arith, own, enabled))
  polled-Kept true m true k (queued job (some o)) n d p w r own enabled =
      (_, refl, omega (arith, own, enabled))
  polled-Kept true m true k (active none) n d p w r own enabled =
      (_, refl, omega (arith, own, enabled))
  polled-Kept true m true k (active (some o)) n d p w r own enabled =
      (_, refl, omega (arith, own, enabled))
  polled-Kept true m true k ready_for_waiter n d p w r own enabled =
      (_, refl, omega (arith, own, enabled))
  polled-Kept true m true k closed n d p w r own enabled = (_, refl, tt)
  polled-Kept true m false k ready n d p w r own enabled = absurd (omega (arith, own, enabled))
  polled-Kept true m false k (reserved none) n d p w r own enabled =
      (_, refl, omega (arith, own, enabled))
  polled-Kept true m false k (reserved (some o)) n d p w r own enabled =
      (_, refl, omega (arith, own, enabled))
  polled-Kept true m false k (queued job none) n d p w r own enabled =
      (_, refl, omega (arith, own, enabled))
  polled-Kept true m false k (queued job (some o)) n d p w r own enabled =
      (_, refl, omega (arith, own, enabled))
  polled-Kept true m false k (active none) n d p w r own enabled =
      (_, refl, omega (arith, own, enabled))
  polled-Kept true m false k (active (some o)) n d p w r own enabled =
      (_, refl, omega (arith, own, enabled))
  polled-Kept true m false k ready_for_waiter n d p w r own enabled =
      (_, refl, omega (arith, own, enabled))
  polled-Kept true m false k closed n d p w r own enabled = (_, refl, tt)
  polled-Kept false m true k ready n d p w r own enabled = (_, refl, omega (arith, own, enabled))
  polled-Kept false m true k (reserved none) n d p w r own enabled =
      (_, refl, omega (arith, own, enabled))
  polled-Kept false m true k (reserved (some o)) n d p w r own enabled =
      (_, refl, omega (arith, own, enabled))
  polled-Kept false m true k (queued job none) n d p w r own enabled =
      (_, refl, omega (arith, own, enabled))
  polled-Kept false m true k (queued job (some o)) n d p w r own enabled =
      (_, refl, omega (arith, own, enabled))
  polled-Kept false m true k (active none) n d p w r own enabled =
      (_, refl, omega (arith, own, enabled))
  polled-Kept false m true k (active (some o)) n d p w r own enabled =
      (_, refl, omega (arith, own, enabled))
  polled-Kept false m true k ready_for_waiter n d p w r own enabled =
      (_, refl, omega (arith, own, enabled))
  polled-Kept false m true k closed n d p w r own enabled = (_, refl, tt)
  polled-Kept false m false k ready n d p w r own enabled = (_, refl, omega (arith, own, enabled))
  polled-Kept false m false k (reserved none) n d p w r own enabled =
      (_, refl, omega (arith, own, enabled))
  polled-Kept false m false k (reserved (some o)) n d p w r own enabled =
      (_, refl, omega (arith, own, enabled))
  polled-Kept false m false k (queued job none) n d p w r own enabled =
      (_, refl, omega (arith, own, enabled))
  polled-Kept false m false k (queued job (some o)) n d p w r own enabled =
      (_, refl, omega (arith, own, enabled))
  polled-Kept false m false k (active none) n d p w r own enabled =
      (_, refl, omega (arith, own, enabled))
  polled-Kept false m false k (active (some o)) n d p w r own enabled =
      (_, refl, omega (arith, own, enabled))
  polled-Kept false m false k ready_for_waiter n d p w r own enabled =
      (_, refl, omega (arith, own, enabled))
  polled-Kept false m false k closed n d p w r own enabled = (_, refl, tt)

  pub left-Kept : (registered : Bool) → Keeps {J = J} {W = W} (left registered)
  unfolding Accounts Accounted one_if act Enabled drop_reservation set_waiter is_for_waiter
  left-Kept false s k a n d p w r own enabled = (_, refl, simp unary_clauses own)
  left-Kept true s k ready n d p w r own enabled = (_, refl, omega (arith, own, enabled))
  left-Kept true s k (reserved none) n d p w r own enabled = (_, refl, omega (arith, own, enabled))
  left-Kept true s k (reserved (some o)) n d p w r own enabled =
      (_, refl, omega (arith, own, enabled))
  left-Kept true s k (queued job none) n d p w r own enabled =
      (_, refl, omega (arith, own, enabled))
  left-Kept true s k (queued job (some o)) n d p w r own enabled =
      (_, refl, omega (arith, own, enabled))
  left-Kept true s k (active none) n d p w r own enabled = (_, refl, omega (arith, own, enabled))
  left-Kept true s k (active (some o)) n d p w r own enabled =
      (_, refl, omega (arith, own, enabled))
  left-Kept true s k ready_for_waiter n d p w r own enabled = (_, refl, omega (arith, own, enabled))
  left-Kept true s k closed n d p w r own enabled = (_, refl, tt)
