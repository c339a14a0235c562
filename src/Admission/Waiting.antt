-- ===== src/Admission/Waiting.antt =====
-- Reservations that wait.
use vakya.Prelude.{
  now, ℕ, ◌+◌, ◌≤◌, ◌≡◌, refl, ap, Bool, true, false, Option, none, some, arith, ok, err,
}
use vakya.Message.{request_admission, reservation_waiter}
use vakya.Admission.{
  Admission, ready, reserved, queued, active, ready_for_waiter, closed, State, busy_error,
  is_closed, is_ready, is_for_waiter, waiter_of, in_admission, release, released,
}
use vakya.Admission.Sender.{refuses, try_reserve, occupied, enrol, poll_reserve}
use vakya.Admission.World.{World, one_if, Accounts, Accounted}
use vakya.Admission.Parts.{world}
use vakya.Admission.Reach.{opening, Reaches, held, opening-Accounted, Reaches-Accounted}

module _ {ℓ κ} {J : Type ℓ} {W : Type κ} where
  abbrev pub Waits : State J W → W → Type (ℓ ⊔ κ)
  Waits s waker =
      (try_reserve s ≡ (s, err (busy_error request_admission)))
      × (poll_reserve false waker s ≡ some (s, now (err (busy_error reservation_waiter))))

  accounted-Waits :
      (k : Option W) (a : Admission J W) (n : ℕ) (d : Option W) (waker : W) (p w r : ℕ)
      → Accounts a p w r
      → is_closed a ≡ false
      → 1 ≤ w
      → Waits
          record { stopping = false; admission_waker = k; admission = a; senders = n; driver = d }
          waker
  unfolding Accounts one_if is_closed try_reserve poll_reserve refuses enrol occupied is_ready
      is_for_waiter waiter_of
  accounted-Waits k ready n d m p w r own unclosed one = absurd (omega (arith, own, one))
  accounted-Waits k (reserved none) n d m p w r own unclosed one = absurd (omega (arith, own, one))
  accounted-Waits k (reserved (some o)) n d m p w r own unclosed one = (refl, refl)
  accounted-Waits k (queued j none) n d m p w r own unclosed one = absurd (omega (arith, own, one))
  accounted-Waits k (queued j (some o)) n d m p w r own unclosed one = (refl, refl)
  accounted-Waits k (active none) n d m p w r own unclosed one = absurd (omega (arith, own, one))
  accounted-Waits k (active (some o)) n d m p w r own unclosed one = (refl, refl)
  accounted-Waits k ready_for_waiter n d m p w r own unclosed one = (refl, refl)
  accounted-Waits k closed n d m p w r own unclosed one = absurd (cc)

  -- In every run of a connection that goes on, while a reservation waits no other sender
  -- overtakes it: an attempt without waiting and a new reservation both fail as busy and leave
  -- the state as it is, also after the owner released the admission.
  pub Reaches-Waits :
      (stopping : Bool) (first : Option W) (w : World J W) (waker : W)
      → Reaches (opening stopping first) w
      → is_closed w.shared.admission ≡ false
      → w.shared.stopping ≡ false
      → 1 ≤ w.waiting
      → Waits w.shared waker
  unfolding Accounted
  Reaches-Waits stopping first w waker steps unclosed goes_on one =
      let own = Reaches-Accounted (opening-Accounted J stopping first) steps in
      let s = w.shared in
      let same : s ≡ record s { stopping = false } = ap (λ b. record s { stopping = b }) goes_on in
      rw same (
        accounted-Waits s.admission_waker s.admission s.senders s.driver waker w.permits w.waiting
          w.running own unclosed one)

  -- What a waiting reservation is sure of: a grant where there is no owner, and to be woken by the
  -- owner that releases the admission.
  abbrev pub HandsOver : World J W → W → Type (ℓ ⊔ κ)
  HandsOver w waker =
      (w.permits + held w.shared.admission + w.running ≡ 0
        → poll_reserve true waker w.shared
          ≡ some (in_admission w.shared (reserved none), now (ok tt)))
      × (1 ≤ w.permits + w.running
          → (woken : W) × (release w.shared
              ≡ some (
                record w.shared { admission = ready_for_waiter; driver = none },
                some woken,
                w.shared.driver,
              )))

  accounted-HandsOver :
      (k : Option W) (a : Admission J W) (n : ℕ) (d : Option W) (waker : W) (p w r : ℕ)
      → Accounts a p w r
      → is_closed a ≡ false
      → 1 ≤ w
      → HandsOver (world false k a n d p w r) waker
  unfolding Accounts one_if is_closed poll_reserve refuses is_ready is_for_waiter release released
      held
  accounted-HandsOver k ready n d m p w r own unclosed one = absurd (omega (arith, own, one))
  accounted-HandsOver k (reserved none) n d m p w r own unclosed one =
      absurd (omega (arith, own, one))
  accounted-HandsOver k (reserved (some o)) n d m p w r own unclosed one =
      (λ h. absurd (omega (arith, own, h)), λ h. (o, refl))
  accounted-HandsOver k (queued j o) n d m p w r own unclosed one =
      (λ h. absurd (omega (arith, own, h)), λ h. absurd (omega (arith, own, h)))
  accounted-HandsOver k (active none) n d m p w r own unclosed one =
      absurd (omega (arith, own, one))
  accounted-HandsOver k (active (some o)) n d m p w r own unclosed one =
      (λ h. absurd (omega (arith, own, h)), λ h. (o, refl))
  accounted-HandsOver k ready_for_waiter n d m p w r own unclosed one =
      (λ h. refl, λ h. absurd (omega (arith, own, h)))
  accounted-HandsOver k closed n d m p w r own unclosed one = absurd (cc)

  -- In every run of a connection that goes on, a registered reservation is not forgotten: where
  -- nobody owns the admission its next poll is granted, and where a permit or an exchange owns it
  -- the release wakes a reservation and keeps the admission for it.
  pub Reaches-HandsOver :
      (stopping : Bool) (first : Option W) (w : World J W) (waker : W)
      → Reaches (opening stopping first) w
      → is_closed w.shared.admission ≡ false
      → w.shared.stopping ≡ false
      → 1 ≤ w.waiting
      → HandsOver w waker
  unfolding Accounted
  Reaches-HandsOver stopping first w waker steps unclosed goes_on one =
      let own = Reaches-Accounted (opening-Accounted J stopping first) steps in
      let s = w.shared in
      let same : s ≡ record s { stopping = false } = ap (λ b. record s { stopping = b }) goes_on in
      rw (ap (λ t. record w { shared = t }) same) (
        accounted-HandsOver s.admission_waker s.admission s.senders s.driver waker w.permits
          w.waiting w.running own unclosed one)
