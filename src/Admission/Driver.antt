-- ===== src/Admission/Driver.antt =====
-- src/client/admission.rs: what the driver of the connection does.
use vakya.Prelude.{
  Poll, now, pending, Bool, true, false, not, ◌&&◌, ◌||◌, Option, none, some, ◌==◌, if◌then◌else◌,
}
use vakya.Admission.{
  closed, State, is_closed, is_busy, take_job, in_admission, release, close_admission,
}

module _ {ℓ κ} {J : Type ℓ} {W : Type κ} where
  -- The part of `next` without a job to take.
  unfoldable pub idle : W → State J W → State J W × Poll (Option J)
  unfolding is_closed is_busy
  idle waker s =
      if is_closed s.admission || s.stopping || (s.senders == 0 && not (is_busy s.admission))
      then (s, now none)
      else (record s { admission_waker = some waker; driver = some waker }, pending)

  -- `Receiver::next`
  unfoldable pub next : W → State J W → State J W × Poll (Option J)
  unfolding take_job idle
  next waker s =
      let taken = take_job s.admission in
      elim taken.1 [
        | some job ↦ (in_admission s taken.0, now (some job))
        | none ↦ idle waker (in_admission s taken.0)
      ]

  -- `Receiver::release`, on whether the connection is over: whether the admission was released,
  -- and whom to wake.
  unfoldable pub settle_in :
      (over : Bool) → State J W → Option (Bool × State J W × Option W × Option W)
  unfolding release
  settle_in true s = some (false, s, none, none)
  settle_in false s = elim (release s) [
    | none ↦ none
    | some result ↦ some (true, result.0, result.1, result.2)
  ]

  unfoldable pub settle : State J W → Option (Bool × State J W × Option W × Option W)
  unfolding settle_in
  settle s = settle_in (s.stopping || s.senders == 0) s

  -- The drop of the `Receiver`: the queued job is dropped and the waiter is woken.
  unfoldable pub drop_receiver : State J W → State J W × Option W × Option J
  unfolding close_admission
  drop_receiver s =
      let left = close_admission s.admission in
      (record s { admission = closed; driver = none }, left.0, left.1)
