-- ===== src/Admission/World.antt =====
-- The senders, reservations and permits of one connection with its driver, and what they may do.
use vakya.Prelude.{
  Poll, now, pending, ℕ, ◌+◌, ◌-◌, ◌≤◌, ◌≡◌, Bool, true, false, not, Option, none, some, Result, ok,
  err, is_some,
}
use vakya.Message.{Error}
use vakya.Admission.{
  Admission, ready, reserved, queued, active, ready_for_waiter, closed, State, release,
}
use vakya.Admission.Sender.{
  try_reserve, poll_reserve, drop_reservation, send, clone_sender, drop_sender,
}
use vakya.Admission.Driver.{next, settle, drop_receiver}

-- The shared state with the numbers of live permits, of registered reservations and of exchanges
-- that the driver runs.
pub record World {ℓ κ} (J : Type ℓ) (W : Type κ) : Type (ℓ ⊔ κ) where
  pub shared : State J W
  pub permits : ℕ
  pub waiting : ℕ
  pub running : ℕ

pub data Event {ℓ κ} (J : Type ℓ) (W : Type κ) : Type (ℓ ⊔ κ) where
  trying cloned dropped settled hung_up stopped gave_up : Event J W
  polled : (registered : Bool) (waker : W) → Event J W
  left : (registered : Bool) → Event J W
  submitted : (job : J) → Event J W
  asked : (waker : W) → Event J W

-- One for a registered reservation, or for a condition that holds.
unfoldable pub one_if : Bool → ℕ
one_if true = 1
one_if false = 0

unfoldable pub granted : Result Error (Unit {0}) → ℕ
granted (ok u) = 1
granted (err e) = 0

unfoldable pub taken {ℓ} : {J : Type ℓ} → Poll (Option J) → ℕ
taken (now (some job)) = 1
taken (now none) = 0
taken pending = 0

module _ {ℓ κ} {J : Type ℓ} {W : Type κ} where
  -- The numbers of permits, reservations and exchanges that an admission accounts for; a closed
  -- one, which is when the driver is gone, does not account for any.
  unfoldable pub Accounts : Admission J W → (permits waiting running : ℕ) → Type 0
  unfolding one_if
  Accounts ready p w r = (p ≡ 0) × (w ≡ 0) × (r ≡ 0)
  Accounts (reserved waiter) p w r = (p ≡ 1) × (w ≡ one_if (is_some waiter)) × (r ≡ 0)
  Accounts (queued job waiter) p w r = (p ≡ 0) × (w ≡ one_if (is_some waiter)) × (r ≡ 0)
  Accounts (active waiter) p w r = (p ≡ 0) × (w ≡ one_if (is_some waiter)) × (r ≡ 1)
  Accounts ready_for_waiter p w r = (p ≡ 0) × (w ≡ 1) × (r ≡ 0)
  Accounts closed p w r = Unit

  unfoldable pub Accounted : World J W → Type 0
  unfolding Accounts
  Accounted w = Accounts w.shared.admission w.permits w.waiting w.running

  -- What an event needs: a permit, a registered reservation, a sender, an exchange.
  unfoldable pub Enabled : Event J W → World J W → Type 0
  unfolding one_if
  Enabled (polled registered waker) w = one_if registered ≤ w.waiting
  Enabled (left registered) w = one_if registered ≤ w.waiting
  Enabled (submitted job) w = 1 ≤ w.permits
  Enabled gave_up w = 1 ≤ w.permits
  Enabled settled w = 1 ≤ w.running
  Enabled dropped w = 1 ≤ w.shared.senders
  Enabled trying w = Unit
  Enabled cloned w = Unit
  Enabled hung_up w = Unit
  Enabled stopped w = Unit
  Enabled (asked waker) w = Unit

  -- After a poll: a grant is a permit, a failure drops the reservation with the future.
  unfoldable pub after_poll :
      World J W → (registered : Bool) → State J W → Poll (Result Error (Unit {0})) → World J W
  unfolding one_if drop_reservation
  after_poll w registered s pending = record w {
    shared = s;
    waiting = w.waiting + one_if (not registered);
  }
  after_poll w registered s (now (ok u)) = record w {
    shared = s;
    permits = w.permits + 1;
    waiting = w.waiting - one_if registered;
  }
  after_poll w registered s (now (err e)) = record w {
    shared = drop_reservation registered s;
    waiting = w.waiting - one_if registered;
  }

  -- After the driver settled an exchange.
  unfoldable pub after_settle :
      World J W → Option (Bool × State J W × Option W × Option W) → Option (World J W)
  unfolding one_if
  after_settle w none = none
  after_settle w (some result) =
      some record w { shared = result.1; running = w.running - one_if result.0 }

  -- An event; `none` is a panic.
  unfoldable pub act : Event J W → World J W → Option (World J W)
  unfolding taken after_settle try_reserve granted poll_reserve after_poll drop_reservation one_if
      send release settle next drop_receiver clone_sender drop_sender
  act trying w =
      let result = try_reserve w.shared in
      some record w { shared = result.0; permits = w.permits + granted result.1 }
  act (polled registered waker) w = elim (poll_reserve registered waker w.shared) [
    | none ↦ none
    | some result ↦ some (after_poll w registered result.0 result.1)
  ]
  act (left registered) w = some record w {
    shared = drop_reservation registered w.shared;
    waiting = w.waiting - one_if registered;
  }
  act (submitted job) w = elim (send job w.shared) [
    | none ↦ none
    | some result ↦ some record w { shared = result.0; permits = w.permits - 1 }
  ]
  act gave_up w = elim (release w.shared) [
    | none ↦ none
    | some result ↦ some record w { shared = result.0; permits = w.permits - 1 }
  ]
  act settled w = after_settle w (settle w.shared)
  act (asked waker) w =
      let result = next waker w.shared in
      some record w { shared = result.0; running = w.running + taken result.1 }
  act hung_up w = some record w { shared = (drop_receiver w.shared).0 }
  -- A request of a shutdown, which wakes and clears the waker that admission left.
  act stopped w =
      some record w { shared = record w.shared { stopping = true; admission_waker = none } }
  act cloned w = some record w { shared = clone_sender w.shared }
  act dropped w = some record w { shared = (drop_sender w.shared).0 }
