-- ===== src/Admission/Sender.antt =====
-- src/client/admission.rs: what a sender, a reservation and a permit do.
use vakya.Prelude.{
  Poll, now, pending, ◌+◌, ◌-◌, Bool, true, not, ◌&&◌, ◌||◌, Option, none, some, if◌then◌else◌,
  Result, ok, err, is_some,
}
use vakya.Message.{Error, request_admission, reservation_waiter}
use vakya.Admission.{
  Admission, ready, reserved, queued, active, ready_for_waiter, closed, State, closed_error,
  busy_error, is_closed, is_ready, is_for_waiter, waiter_of, set_waiter, in_admission, release,
}

module _ {ℓ κ} {J : Type ℓ} {W : Type κ} where
  -- `is_closed` of a sender.
  unfoldable pub refuses : State J W → Bool
  unfolding is_closed
  refuses s = is_closed s.admission || s.stopping

  unfoldable pub try_reserve : State J W → State J W × Result Error (Unit {0})
  unfolding refuses is_ready
  try_reserve s =
      if refuses s
      then (s, err closed_error)
      else if is_ready s.admission
      then (in_admission s (reserved none), ok tt)
      else (s, err (busy_error request_admission))

  -- `occupied`: no place for a waiter, or one that is taken.
  unfoldable pub occupied : Admission J W → Bool
  unfolding waiter_of
  occupied a = elim (waiter_of a) [ none ↦ true | some waiter ↦ is_some waiter ]

  -- The wait, once there is nothing to take: the state, and what the poll answers.
  unfoldable pub enrol :
      (registered : Bool) → W → State J W → Option (State J W × Poll (Result Error (Unit {0})))
  unfolding occupied waiter_of set_waiter
  enrol registered waker s =
      if not registered && occupied s.admission
      then some (s, now (err (busy_error reservation_waiter)))
      else if is_some (waiter_of s.admission)
      then some (
        record s { admission_waker = some waker; admission = set_waiter (some waker) s.admission },
        pending,
      )
      else none

  -- One poll of `reserve`. After it the reservation is registered where it is pending, and as
  -- before where it failed; a grant ends it.
  unfoldable pub poll_reserve :
      (registered : Bool) → W → State J W → Option (State J W × Poll (Result Error (Unit {0})))
  unfolding refuses is_ready is_for_waiter enrol
  poll_reserve registered waker s =
      if refuses s
      then some (s, now (err closed_error))
      else if registered && is_for_waiter s.admission
      then some (in_admission s (reserved none), now (ok tt))
      else if is_ready s.admission
      then if registered then none else some (in_admission s (reserved none), now (ok tt))
      else enrol registered waker s

  -- The drop of a `Reservation`.
  unfoldable pub drop_reservation : (registered : Bool) → State J W → State J W
  unfolding is_for_waiter set_waiter
  drop_reservation registered s =
      if registered
      then if is_for_waiter s.admission
        then in_admission s ready
        else in_admission s (set_waiter none s.admission)
      else s

  -- `RequestPermit::send`, with the waiter and the driver to wake. A permit that is refused is
  -- dropped, which releases the admission.
  unfoldable pub send :
      J → State J W → Option (State J W × Result Error (Unit {0}) × Option W × Option W)
  unfolding refuses release
  send job s =
      if refuses s
      then elim (release s) [
        | none ↦ none
        | some result ↦ some (result.0, err closed_error, result.1, result.2)
      ]
      else elim s.admission [
        | reserved waiter ↦
            some (record s { admission = queued job waiter; driver = none }, ok tt, none, s.driver)
        | ready ↦ none
        | queued other waiter ↦ none
        | active waiter ↦ none
        | ready_for_waiter ↦ none
        | closed ↦ none
      ]

  -- `Clone` and `Drop` of a sender; the drop wakes the driver.
  unfoldable pub clone_sender : State J W → State J W
  clone_sender s = record s { senders = s.senders + 1 }

  unfoldable pub drop_sender : State J W → State J W × Option W
  drop_sender s = (record s { senders = s.senders - 1; driver = none }, s.driver)
