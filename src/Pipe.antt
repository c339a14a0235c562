-- ===== src/Pipe.antt =====
-- src/body/pipe.rs: the rendezvous of one item between a producer and a consumer. A waker stands
-- for the task that it wakes. Operations take and return the shared state; `none` is a panic.
pub mod Futures
pub mod World
pub mod Spec
pub mod Parts
pub mod Offering
pub mod Producing
pub mod Consuming
pub mod Refine
use vakya.Prelude.{
  ℕ, zero, suc, ◌+◌, ◌-◌, ◌*◌, ◌/◌, ◌%◌, ◌^◌, ◌≤◌, ◌<◌, min, ◌≡◌, refl, sym, ap, ◌∙◌, ◌≢◌, ◌↔◌, ◌⊎◌,
  inl, inr, Bool, true, false, not, ◌&&◌, ◌||◌, Option, none, some, List, [], ◌∷◌, ◌++◌, map,
  append-nil, append_assoc, arith, ltb, leb, ◌==◌, if◌then◌else◌, ltb→lt, lt→ltb, leb→le, ==_iff,
  Bool-cases, Option-cases, length, get_elem?, take, drop, length-append, length-take, length-drop,
  take-append-drop, take-append_len, drop-append_len, drop-append_le, take-append_le, drop-nil,
  take-nil, drop-drop, take-add, take-take_le, All, All-append, Bytes, u64_max, Result, ok, err,
  ◌>>=◌, ◌>>◌, map_err, ok_or, is_some, Result-cases, >>=-eq-ok, ok-inj, map_err-eq-ok,
}

pub data State {ℓ κ} (T : Type ℓ) (E : Type κ) : Type (ℓ ⊔ κ) where
  idle demanded closed disconnected : State T E
  offered : T → State T E
  failed : E → State T E
  abandoned : Option T → State T E

-- `Shared`, less the policy, which no operation reads.
pub record Shared {ℓ κ ι} (T : Type ℓ) (E : Type κ) (W : Type ι) : Type (ℓ ⊔ κ ⊔ ι) where
  pub state : State T E
  pub producer_waker : Option W
  pub consumer_waker : Option W

pub data EndpointLifecycle : Type 0 where
  active complete : EndpointLifecycle

module _ {ℓ κ} {T : Type ℓ} {E : Type κ} where
  -- `is_abandoned`
  unfoldable pub is_abandoned : State T E → Bool
  is_abandoned (abandoned item) = true
  is_abandoned idle = false
  is_abandoned demanded = false
  is_abandoned (offered item) = false
  is_abandoned closed = false
  is_abandoned disconnected = false
  is_abandoned (failed e) = false

  -- The state that the drop of a consumer leaves, where it is not a terminal one.
  unfoldable pub abandon : State T E → Option (State T E)
  abandon (offered item) = some (abandoned (some item))
  abandon (abandoned item) = some (abandoned item)
  abandon idle = some (abandoned none)
  abandon demanded = some (abandoned none)
  abandon closed = none
  abandon disconnected = none
  abandon (failed e) = none

module _ {ℓ κ ι} {T : Type ℓ} {E : Type κ} {W : Type ι} where
  -- `channel_with_policy`
  unfoldable pub channel : Shared T E W
  channel = record { state = idle; producer_waker = none; consumer_waker = none }

  -- `Producer::finish` by its lifecycle: the state, and the consumer to wake.
  unfoldable pub finish_in :
      (terminal : State T E) → Shared T E W → State T E → Option (Shared T E W × Option W)
  finish_in terminal s idle =
      some (record s { state = terminal; consumer_waker = none }, s.consumer_waker)
  finish_in terminal s demanded =
      some (record s { state = terminal; consumer_waker = none }, s.consumer_waker)
  finish_in terminal s (abandoned item) = some (s, none)
  finish_in terminal s (offered item) = none
  finish_in terminal s closed = some (s, none)
  finish_in terminal s disconnected = some (s, none)
  finish_in terminal s (failed e) = some (s, none)

  unfoldable pub finish :
      EndpointLifecycle
      → (terminal : State T E) → Shared T E W
      → Option (EndpointLifecycle × Shared T E W × Option W)
  unfolding finish_in
  finish complete terminal s = some (complete, s, none)
  finish active terminal s = elim (finish_in terminal s s.state) [
    | none ↦ none
    | some result ↦ some (complete, result.0, result.1)
  ]

  -- The drop of a `Producer`.
  unfoldable pub drop_producer : EndpointLifecycle → Shared T E W → Option (Shared T E W × Option W)
  unfolding finish
  drop_producer complete s = some (s, none)
  drop_producer active s = elim (finish active disconnected s) [
    | none ↦ none
    | some result ↦ some (result.1, result.2)
  ]

  -- `close` and `fail`, which end with the drop of a producer that is complete.
  unfoldable pub end_with :
      EndpointLifecycle → (terminal : State T E) → Shared T E W → Option (Shared T E W × Option W)
  unfolding finish drop_producer
  end_with lifecycle terminal s = elim (finish lifecycle terminal s) [
    | none ↦ none
    | some result ↦ elim (drop_producer result.0 result.1) [
      | none ↦ none
      | some dropped ↦ some (dropped.0, result.2)
    ]
  ]

  -- The drop of a `Consumer`, with the producer to wake.
  unfoldable pub drop_consumer : EndpointLifecycle → Shared T E W → Shared T E W × Option W
  unfolding abandon
  drop_consumer complete s = (s, none)
  drop_consumer active s = elim (abandon s.state) [
    | none ↦ (s, none)
    | some left ↦ (record s { state = left; producer_waker = none }, s.producer_waker)
  ]
