-- ===== src/Admission.antt =====
-- src/client/admission.rs: who may hand the next request to a client connection. Operations take
-- and return the state that the senders and the driver share; `none` is a panic.
pub mod Sender
pub mod Driver
pub mod World
pub mod Parts
pub mod Reserving
pub mod Owners
pub mod Reach
pub mod Waiting
pub mod Closing
use vakya.Prelude.{
  ℕ, zero, suc, ◌+◌, ◌-◌, ◌*◌, ◌/◌, ◌%◌, ◌^◌, ◌≤◌, ◌<◌, min, ◌≡◌, refl, sym, ap, ◌∙◌, ◌≢◌, ◌↔◌, ◌⊎◌,
  inl, inr, Bool, true, false, not, ◌&&◌, ◌||◌, Option, none, some, List, [], ◌∷◌, ◌++◌, map,
  append-nil, append_assoc, arith, ltb, leb, ◌==◌, if◌then◌else◌, ltb→lt, lt→ltb, leb→le, ==_iff,
  Bool-cases, Option-cases, length, get_elem?, take, drop, length-append, length-take, length-drop,
  take-append-drop, take-append_len, drop-append_len, drop-append_le, take-append_le, drop-nil,
  take-nil, drop-drop, take-add, take-take_le, All, All-append, Bytes, u64_max, Result, ok, err,
  ◌>>=◌, ◌>>◌, map_err, ok_or, is_some, Result-cases, >>=-eq-ok, ok-inj, map_err-eq-ok,
}
use vakya.Message.{
  plain_error, Error, ErrorKind, busy, BusyReason, request_admission, reservation_waiter,
  ErrorDetail, busy_reason,
}

pub data Admission {ℓ κ} (J : Type ℓ) (W : Type κ) : Type (ℓ ⊔ κ) where
  ready : Admission J W
  reserved : (waiter : Option W) → Admission J W
  queued : (job : J) (waiter : Option W) → Admission J W
  active : (waiter : Option W) → Admission J W
  ready_for_waiter : Admission J W
  closed : Admission J W

-- `State`, with the part of the connection's control that admission reads and writes.
pub record State {ℓ κ} (J : Type ℓ) (W : Type κ) : Type (ℓ ⊔ κ) where
  pub stopping : Bool
  pub admission_waker : Option W
  pub admission : Admission J W
  pub senders : ℕ
  pub driver : Option W

abbrev pub closed_error : Error
closed_error = plain_error vakya.Message.closed

abbrev pub busy_error : BusyReason → Error
busy_error reason = record { kind = busy; detail = some (busy_reason reason) }

module _ {ℓ κ} {J : Type ℓ} {W : Type κ} where
  unfoldable pub is_closed : Admission J W → Bool
  is_closed closed = true
  is_closed ready = false
  is_closed (reserved waiter) = false
  is_closed (queued job waiter) = false
  is_closed (active waiter) = false
  is_closed ready_for_waiter = false

  unfoldable pub is_busy : Admission J W → Bool
  is_busy (reserved waiter) = true
  is_busy (queued job waiter) = true
  is_busy (active waiter) = true
  is_busy ready = false
  is_busy ready_for_waiter = false
  is_busy closed = false

  -- `matches!(admission, Ready)`
  unfoldable pub is_ready : Admission J W → Bool
  is_ready ready = true
  is_ready (reserved waiter) = false
  is_ready (queued job waiter) = false
  is_ready (active waiter) = false
  is_ready ready_for_waiter = false
  is_ready closed = false

  -- `matches!(admission, ReadyForWaiter)`
  unfoldable pub is_for_waiter : Admission J W → Bool
  is_for_waiter ready_for_waiter = true
  is_for_waiter ready = false
  is_for_waiter (reserved waiter) = false
  is_for_waiter (queued job waiter) = false
  is_for_waiter (active waiter) = false
  is_for_waiter closed = false

  -- `waiter_mut`, read: the place of the waiter, where there is one.
  unfoldable pub waiter_of : Admission J W → Option (Option W)
  waiter_of (reserved waiter) = some waiter
  waiter_of (queued job waiter) = some waiter
  waiter_of (active waiter) = some waiter
  waiter_of ready = none
  waiter_of ready_for_waiter = none
  waiter_of closed = none

  -- `waiter_mut`, written.
  unfoldable pub set_waiter : Option W → Admission J W → Admission J W
  set_waiter waiter (reserved old) = reserved waiter
  set_waiter waiter (queued job old) = queued job waiter
  set_waiter waiter (active old) = active waiter
  set_waiter waiter ready = ready
  set_waiter waiter ready_for_waiter = ready_for_waiter
  set_waiter waiter closed = closed

  unfoldable pub take_job : Admission J W → Admission J W × Option J
  take_job (queued job waiter) = (active waiter, some job)
  take_job ready = (ready, none)
  take_job (reserved waiter) = (reserved waiter, none)
  take_job (active waiter) = (active waiter, none)
  take_job ready_for_waiter = (ready_for_waiter, none)
  take_job closed = (closed, none)

  abbrev pub in_admission : State J W → Admission J W → State J W
  in_admission s a = record s { admission = a }

  -- `Admission::close`: the waiter and the job that are left.
  unfoldable pub close_admission : Admission J W → Option W × Option J
  close_admission (reserved waiter) = (waiter, none)
  close_admission (active waiter) = (waiter, none)
  close_admission (queued job waiter) = (waiter, some job)
  close_admission ready = (none, none)
  close_admission ready_for_waiter = (none, none)
  close_admission closed = (none, none)

  -- The admission that a release leaves, and the waiter that it wakes.
  unfoldable pub released : Admission J W → Option (Admission J W × Option W)
  released (reserved (some waiter)) = some (ready_for_waiter, some waiter)
  released (reserved none) = some (ready, none)
  released (active (some waiter)) = some (ready_for_waiter, some waiter)
  released (active none) = some (ready, none)
  released closed = some (closed, none)
  released ready = none
  released (queued job waiter) = none
  released ready_for_waiter = none

  -- `release`, with the waiter and the driver to wake.
  unfoldable pub release : State J W → Option (State J W × Option W × Option W)
  unfolding released
  release s = elim (released s.admission) [
    | none ↦ none
    | some result ↦ some (record s { admission = result.0; driver = none }, result.1, s.driver)
  ]

  -- `channel`; the control is another component's.
  unfoldable pub channel : (stopping : Bool) → Option W → State J W
  channel stopping admission_waker = record {
    stopping = stopping;
    admission_waker = admission_waker;
    admission = ready;
    senders = 1;
    driver = none;
  }
