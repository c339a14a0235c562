-- ===== src/Admission/Closing.antt =====
-- A connection whose driver is gone.
use vakya.Prelude.{
  now, ℕ, ◌≡◌, refl, sym, ap, ◌∙◌, Bool, true, false, ◌||◌, Option, none, some, ◌==◌, err,
}
use vakya.Admission.{
  closed, State, closed_error, is_closed, is_for_waiter, set_waiter, release, released, take_job,
}
use vakya.Admission.Sender.{
  refuses, try_reserve, poll_reserve, drop_reservation, send, clone_sender, drop_sender,
}
use vakya.Admission.Driver.{idle, next, settle_in, settle, drop_receiver}
use vakya.Admission.World.{
  World, Event, trying, cloned, dropped, settled, hung_up, stopped, gave_up, polled, left,
  submitted, asked, granted, taken, after_poll, after_settle, act,
}
use vakya.Admission.Parts.{world}
use vakya.Admission.Reach.{Reaches, here, then_act, some-inj}

module _ {ℓ κ} {J : Type ℓ} {W : Type κ} where
  abbrev Stays : Option (World J W) → Type (ℓ ⊔ κ)
  Stays after = (w' : World J W) × (after ≡ some w') × (w'.shared.admission ≡ closed)

  settled-Stays :
      (over stopping : Bool) (k : Option W) (n : ℕ) (d : Option W) (p w r : ℕ)
      → Stays (
          after_settle
            (world stopping k closed n d p w r)
            (settle_in over (world stopping k closed n d p w r).shared))
  unfolding after_settle settle_in release released
  settled-Stays true stopping k n d p w r = (_, refl, refl)
  settled-Stays false stopping k n d p w r = (_, refl, refl)

  act-Stays :
      (e : Event J W) (stopping : Bool) (k : Option W) (n : ℕ) (d : Option W) (p w r : ℕ)
      → Stays (act e (world stopping k closed n d p w r))
  unfolding act try_reserve poll_reserve drop_reservation send release released settle next idle
      take_job drop_receiver clone_sender drop_sender refuses is_closed is_for_waiter set_waiter
      after_poll granted taken
  act-Stays trying stopping k n d p w r = (_, refl, refl)
  act-Stays cloned stopping k n d p w r = (_, refl, refl)
  act-Stays dropped stopping k n d p w r = (_, refl, refl)
  act-Stays settled stopping k n d p w r = settled-Stays (stopping || n == 0) stopping k n d p w r
  act-Stays hung_up stopping k n d p w r = (_, refl, refl)
  act-Stays stopped stopping k n d p w r = (_, refl, refl)
  act-Stays gave_up stopping k n d p w r = (_, refl, refl)
  act-Stays (polled true m) stopping k n d p w r = (_, refl, refl)
  act-Stays (polled false m) stopping k n d p w r = (_, refl, refl)
  act-Stays (left true) stopping k n d p w r = (_, refl, refl)
  act-Stays (left false) stopping k n d p w r = (_, refl, refl)
  act-Stays (submitted job) stopping k n d p w r = (_, refl, refl)
  act-Stays (asked m) stopping k n d p w r = (_, refl, refl)

  closed-Stays : (e : Event J W) (w : World J W) → w.shared.admission ≡ closed → Stays (act e w)
  closed-Stays e w shut =
      let s = w.shared in
      let same : s ≡ record s { admission = closed } = ap (λ a. record s { admission = a }) shut in
      rw (ap (λ t. record w { shared = t }) same)
        (act-Stays e s.stopping s.admission_waker s.senders s.driver w.permits w.waiting w.running)

  Reaches-closed :
      {v w : World J W} → v.shared.admission ≡ closed → Reaches v w → w.shared.admission ≡ closed
  Reaches-closed shut here = shut
  Reaches-closed shut (then_act {w} e w' steps enabled h) =
      let (u, same, stays) = closed-Stays e w (Reaches-closed shut steps) in
      rw (some-inj w' u (sym h ∙ same)) stays

  -- Every way to a permit fails as closed, and a permit that is left hands nothing over.
  abbrev pub Refuses : State J W → Type (ℓ ⊔ κ)
  Refuses s =
      (try_reserve s ≡ (s, err closed_error))
      × ((registered : Bool) (waker : W)
          → poll_reserve registered waker s ≡ some (s, now (err closed_error)))
      × ((job : J)
          → send job s ≡ some (record s { driver = none }, err closed_error, none, s.driver))

  closed-Refuses : (s : State J W) → s.admission ≡ closed → Refuses s
  unfolding try_reserve poll_reserve send refuses release released is_closed
  closed-Refuses s shut =
      let same : s ≡ record s { admission = closed } = ap (λ a. record s { admission = a }) shut in
      rw same (refl, λ registered waker. refl, λ job. refl)

  hung_up-closed : (u v : World J W) → act hung_up u ≡ some v → v.shared.admission ≡ closed
  unfolding act drop_receiver
  hung_up-closed u v h =
      ap (λ w. w.shared.admission)
        (sym (some-inj (record u { shared = (drop_receiver u.shared).0 }) v h))

  -- Once the driver of a connection is dropped, in whatever state that happens and whatever the
  -- senders, reservations and permits do after it, the admission is closed: every attempt and
  -- every poll for a permit fails as closed and leaves the state as it is, and a request that a
  -- permit sends is refused as closed, which only wakes a registered driver.
  pub Reaches-Refuses :
      (u v w : World J W)
      → act hung_up u ≡ some v
      → Reaches v w
      → (w.shared.admission ≡ closed) × Refuses w.shared
  Reaches-Refuses u v w gone steps =
      let still = Reaches-closed (hung_up-closed u v gone) steps in
      (still, closed-Refuses w.shared still)
