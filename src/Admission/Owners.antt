-- ===== src/Admission/Owners.antt =====
-- What every event of an admission keeps.
use vakya.Prelude.{
  ℕ, ◌≤◌, ◌≡◌, refl, inl, inr, Bool, true, false, not, ◌&&◌, ◌||◌, Option, none, some, arith, ◌==◌,
  Bool-cases,
}
use native.Mathlib.Numerals.{unary_clauses}
use vakya.Admission.{
  Admission, ready, reserved, queued, active, ready_for_waiter, closed, State, release, released,
  is_closed, is_busy, take_job,
}
use vakya.Admission.Sender.{refuses, send, clone_sender, drop_sender}
use vakya.Admission.Driver.{idle, next, settle_in, settle, drop_receiver}
use vakya.Admission.World.{
  World, Event, trying, cloned, dropped, settled, hung_up, stopped, gave_up, polled, left,
  submitted, asked, one_if, taken, Accounts, Accounted, Enabled, after_settle, act,
}
use vakya.Admission.Reserving.{trying-Kept, polled-Kept, left-Kept}
use vakya.Admission.Parts.{world, Kept, Keeps}

module _ {ℓ κ} {J : Type ℓ} {W : Type κ} where
  submitted-Kept : (job : J) → Keeps {J = J} {W = W} (submitted job)
  unfolding Accounts Accounted one_if act Enabled send refuses release released is_closed
  submitted-Kept job true k ready n d p w r own enabled = absurd (omega (arith, own, enabled))
  submitted-Kept job true k (reserved none) n d p w r own enabled =
      (_, refl, omega (arith, own, enabled))
  submitted-Kept job true k (reserved (some o)) n d p w r own enabled =
      (_, refl, omega (arith, own, enabled))
  submitted-Kept job true k (queued j o) n d p w r own enabled =
      absurd (omega (arith, own, enabled))
  submitted-Kept job true k (active none) n d p w r own enabled =
      (_, refl, omega (arith, own, enabled))
  submitted-Kept job true k (active (some o)) n d p w r own enabled =
      (_, refl, omega (arith, own, enabled))
  submitted-Kept job true k ready_for_waiter n d p w r own enabled =
      absurd (omega (arith, own, enabled))
  submitted-Kept job true k closed n d p w r own enabled = (_, refl, tt)
  submitted-Kept job false k ready n d p w r own enabled = absurd (omega (arith, own, enabled))
  submitted-Kept job false k (reserved o) n d p w r own enabled =
      (_, refl, omega (arith, own, enabled))
  submitted-Kept job false k (queued j o) n d p w r own enabled =
      absurd (omega (arith, own, enabled))
  submitted-Kept job false k (active o) n d p w r own enabled = absurd (omega (arith, own, enabled))
  submitted-Kept job false k ready_for_waiter n d p w r own enabled =
      absurd (omega (arith, own, enabled))
  submitted-Kept job false k closed n d p w r own enabled = (_, refl, tt)

  gave_up-Kept : Keeps {J = J} {W = W} gave_up
  unfolding Accounts Accounted one_if act Enabled release released
  gave_up-Kept s k ready n d p w r own enabled = absurd (omega (arith, own, enabled))
  gave_up-Kept s k (reserved none) n d p w r own enabled = (_, refl, omega (arith, own, enabled))
  gave_up-Kept s k (reserved (some o)) n d p w r own enabled =
      (_, refl, omega (arith, own, enabled))
  gave_up-Kept s k (queued j o) n d p w r own enabled = absurd (omega (arith, own, enabled))
  gave_up-Kept s k (active none) n d p w r own enabled = (_, refl, omega (arith, own, enabled))
  gave_up-Kept s k (active (some o)) n d p w r own enabled = (_, refl, omega (arith, own, enabled))
  gave_up-Kept s k ready_for_waiter n d p w r own enabled = absurd (omega (arith, own, enabled))
  gave_up-Kept s k closed n d p w r own enabled = (_, refl, tt)

  settled-Kept :
      (over stopping : Bool) (waker : Option W) (a : Admission J W) (senders : ℕ)
      (driver : Option W) (p w r : ℕ)
      → Accounts a p w r
      → 1 ≤ r
      → (w' : World J W) × (after_settle
            (world stopping waker a senders driver p w r)
            (settle_in over (world stopping waker a senders driver p w r).shared)
          ≡ some w')
        × Accounted w'
  unfolding Accounts Accounted one_if act Enabled settle_in after_settle release released
  settled-Kept true s k a n d p w r own enabled = (_, refl, simp unary_clauses own)
  settled-Kept false s k ready n d p w r own enabled = absurd (omega (arith, own, enabled))
  settled-Kept false s k (reserved none) n d p w r own enabled =
      (_, refl, omega (arith, own, enabled))
  settled-Kept false s k (reserved (some o)) n d p w r own enabled =
      (_, refl, omega (arith, own, enabled))
  settled-Kept false s k (queued j o) n d p w r own enabled = absurd (omega (arith, own, enabled))
  settled-Kept false s k (active none) n d p w r own enabled =
      (_, refl, omega (arith, own, enabled))
  settled-Kept false s k (active (some o)) n d p w r own enabled =
      (_, refl, omega (arith, own, enabled))
  settled-Kept false s k ready_for_waiter n d p w r own enabled =
      absurd (omega (arith, own, enabled))
  settled-Kept false s k closed n d p w r own enabled = (_, refl, tt)

  idle-same :
      (waker : W) (s : State J W)
      → ((idle waker s).0.admission ≡ s.admission) × (taken (idle waker s).1 ≡ 0)
  unfolding idle taken
  idle-same waker s =
      elim (Bool-cases
        (is_closed s.admission || s.stopping || (s.senders == 0 && not (is_busy s.admission)))) [
          | inl e ↦ rw e (refl, refl)
          | inr e ↦ rw e (refl, refl)
        ]

  asked-Kept : (waker : W) → Keeps {J = J} {W = W} (asked waker)
  unfolding Accounts Accounted one_if act Enabled next take_job taken is_closed
  asked-Kept m s k ready n d p w r own enabled =
      let (same, none_taken) = idle-same m (world s k ready n d p w r).shared in
      (_, refl, rw (same, none_taken) (omega (arith, own)))
  asked-Kept m s k (reserved o) n d p w r own enabled =
      let (same, none_taken) = idle-same m (world s k (reserved o) n d p w r).shared in
      (_, refl, rw (same, none_taken) (omega (arith, own)))
  asked-Kept m s k (active o) n d p w r own enabled =
      let (same, none_taken) = idle-same m (world s k (active o) n d p w r).shared in
      (_, refl, rw (same, none_taken) (omega (arith, own)))
  asked-Kept m s k ready_for_waiter n d p w r own enabled =
      let (same, none_taken) = idle-same m (world s k ready_for_waiter n d p w r).shared in
      (_, refl, rw (same, none_taken) (omega (arith, own)))
  asked-Kept m s k (queued j o) n d p w r own enabled = (_, refl, omega (arith, own))
  asked-Kept m s k closed n d p w r own enabled = (_, refl, tt)

  pub act-Accounted : (e : Event J W) (w : World J W) → Accounted w → Enabled e w → Kept e w
  unfolding Accounted act Accounts settle drop_receiver clone_sender drop_sender Enabled
  act-Accounted trying w own enabled =
      trying-Kept w.shared.stopping w.shared.admission_waker w.shared.admission w.shared.senders
        w.shared.driver w.permits w.waiting w.running own enabled
  act-Accounted (polled registered waker) w own enabled =
      polled-Kept registered waker w.shared.stopping w.shared.admission_waker w.shared.admission
        w.shared.senders w.shared.driver w.permits w.waiting w.running own enabled
  act-Accounted (left registered) w own enabled =
      left-Kept registered w.shared.stopping w.shared.admission_waker w.shared.admission
        w.shared.senders w.shared.driver w.permits w.waiting w.running own enabled
  act-Accounted (submitted job) w own enabled =
      submitted-Kept job w.shared.stopping w.shared.admission_waker w.shared.admission
        w.shared.senders w.shared.driver w.permits w.waiting w.running own enabled
  act-Accounted gave_up w own enabled =
      gave_up-Kept w.shared.stopping w.shared.admission_waker w.shared.admission w.shared.senders
        w.shared.driver w.permits w.waiting w.running own enabled
  act-Accounted settled w own enabled =
      settled-Kept (w.shared.stopping || w.shared.senders == 0) w.shared.stopping
        w.shared.admission_waker w.shared.admission w.shared.senders w.shared.driver w.permits
        w.waiting w.running own enabled
  act-Accounted (asked waker) w own enabled =
      asked-Kept waker w.shared.stopping w.shared.admission_waker w.shared.admission
        w.shared.senders w.shared.driver w.permits w.waiting w.running own enabled
  act-Accounted hung_up w own enabled = (_, refl, tt)
  act-Accounted stopped w own enabled = (_, refl, own)
  act-Accounted cloned w own enabled = (_, refl, own)
  act-Accounted dropped w own enabled = (_, refl, own)
