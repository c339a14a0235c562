-- ===== src/Pipe/Futures.antt =====
-- src/body/pipe.rs: the futures of the two ends, `Demand`, `Offer`, `Take` and `Abandoned`.
use vakya.Prelude.{Poll, now, pending, Option, none, some, if◌then◌else◌, Result, ok, err}
use vakya.Pipe.{
  State, idle, demanded, closed, disconnected, offered, failed, abandoned, Shared,
  EndpointLifecycle, complete, is_abandoned,
}

pub data DemandError : Type 0 where
  demand_abandoned demand_closed : DemandError

pub data OfferLifecycle {ℓ} (T : Type ℓ) : Type ℓ where
  waiting : T → OfferLifecycle T
  submitted : OfferLifecycle T

pub data OfferError {ℓ} (T : Type ℓ) : Type ℓ where
  offer_abandoned offer_closed : T → OfferError T

pub data TakeError {ℓ} (E : Type ℓ) : Type ℓ where
  take_failed : E → TakeError E
  take_disconnected : TakeError E

module _ {ℓ κ ι} {T : Type ℓ} {E : Type κ} {W : Type ι} where
  -- `Demand::poll`
  unfoldable pub demand_in :
      W → Shared T E W → State T E → Shared T E W × Poll (Result DemandError (Unit {0}))
  demand_in waker s demanded = (s, now (ok tt))
  demand_in waker s idle = (record s { producer_waker = some waker }, pending)
  demand_in waker s (abandoned item) = (s, now (err demand_abandoned))
  demand_in waker s closed = (s, now (err demand_closed))
  demand_in waker s disconnected = (s, now (err demand_closed))
  demand_in waker s (failed e) = (s, now (err demand_closed))
  demand_in waker s (offered item) = (s, now (ok tt))

  unfoldable pub poll_demand :
      W → Shared T E W → Shared T E W × Poll (Result DemandError (Unit {0}))
  unfolding demand_in
  poll_demand waker s = demand_in waker s s.state

  -- The drop of a `Demand` or an `Abandoned`.
  unfoldable pub forget_producer : Shared T E W → Shared T E W
  forget_producer s = record s { producer_waker = none }

  -- `Offer::poll` with an item that was not submitted yet, with the consumer to wake.
  unfoldable pub submit_in :
      T
      → W
      → Shared T E W
      → State T E
      → Option (Shared T E W × Poll (Result (OfferError T) (Unit {0})) × Option W)
  submit_in item waker s idle = some (
    record s { state = offered item; producer_waker = some waker; consumer_waker = none },
    pending,
    s.consumer_waker,
  )
  submit_in item waker s demanded = some (
    record s { state = offered item; producer_waker = some waker; consumer_waker = none },
    pending,
    s.consumer_waker,
  )
  submit_in item waker s (abandoned other) = some (s, now (err (offer_abandoned item)), none)
  submit_in item waker s closed = some (s, now (err (offer_closed item)), none)
  submit_in item waker s disconnected = some (s, now (err (offer_closed item)), none)
  submit_in item waker s (failed e) = some (s, now (err (offer_closed item)), none)
  submit_in item waker s (offered other) = none

  -- `Offer::poll` with an item that was submitted.
  unfoldable pub wait_in :
      W
      → Shared T E W
      → State T E
      → Option (Shared T E W × Poll (Result (OfferError T) (Unit {0})) × Option W)
  wait_in waker s (offered item) = some (record s { producer_waker = some waker }, pending, none)
  wait_in waker s idle = some (s, now (ok tt), none)
  wait_in waker s demanded = some (s, now (ok tt), none)
  wait_in waker s (abandoned (some item)) =
      some (record s { state = abandoned none }, now (err (offer_abandoned item)), none)
  wait_in waker s (abandoned none) = some (s, now (ok tt), none)
  wait_in waker s closed = none
  wait_in waker s disconnected = none
  wait_in waker s (failed e) = none

  -- `Offer::poll`, after which the item is submitted.
  unfoldable pub poll_offer :
      OfferLifecycle T
      → W
      → Shared T E W
      → Option (Shared T E W × Poll (Result (OfferError T) (Unit {0})) × Option W)
  unfolding submit_in wait_in
  poll_offer (waiting item) waker s = submit_in item waker s s.state
  poll_offer submitted waker s = wait_in waker s s.state

  -- The drop of an `Offer` that was submitted: the state, the item that is dropped with it, and
  -- the consumer to wake.
  unfoldable pub withdraw_in : Shared T E W → State T E → Shared T E W × Option T × Option W
  withdraw_in s (offered item) =
      (record s { state = idle; consumer_waker = none }, some item, s.consumer_waker)
  withdraw_in s (abandoned item) = (record s { state = abandoned none }, item, none)
  withdraw_in s idle = (s, none, none)
  withdraw_in s demanded = (s, none, none)
  withdraw_in s closed = (s, none, none)
  withdraw_in s disconnected = (s, none, none)
  withdraw_in s (failed e) = (s, none, none)

  unfoldable pub drop_offer : OfferLifecycle T → Shared T E W → Shared T E W × Option T × Option W
  unfolding forget_producer withdraw_in
  drop_offer (waiting item) s = (forget_producer s, some item, none)
  drop_offer submitted s = withdraw_in (forget_producer s) s.state

  -- `Take::poll`, with the lifecycle of the consumer after it and the producer to wake.
  unfoldable pub take_in :
      EndpointLifecycle
      → W
      → Shared T E W
      → State T E
      → Option
          (EndpointLifecycle × Shared T E W × Poll (Result (TakeError E) (Option T)) × Option W)
  take_in l waker s idle = some (
    l,
    record s { state = demanded; consumer_waker = some waker; producer_waker = none },
    pending,
    s.producer_waker,
  )
  take_in l waker s demanded = some (
    l,
    record s { state = demanded; consumer_waker = some waker; producer_waker = none },
    pending,
    s.producer_waker,
  )
  take_in l waker s (offered item) =
      some (
        l,
        record s { state = idle; producer_waker = none },
        now (ok (some item)),
        s.producer_waker,
      )
  take_in l waker s closed = some (complete, s, now (ok none), none)
  take_in l waker s (failed e) =
      some (complete, record s { state = closed }, now (err (take_failed e)), none)
  take_in l waker s disconnected =
      some (complete, record s { state = closed }, now (err take_disconnected), none)
  take_in l waker s (abandoned item) = none

  unfoldable pub poll_take :
      EndpointLifecycle
      → W
      → Shared T E W
      → Option
          (EndpointLifecycle × Shared T E W × Poll (Result (TakeError E) (Option T)) × Option W)
  unfolding take_in
  poll_take l waker s = take_in l waker s s.state

  -- The drop of a `Take`.
  unfoldable pub forget_consumer : Shared T E W → Shared T E W
  forget_consumer s = record s { consumer_waker = none }

  -- `Abandoned::poll`
  unfoldable pub poll_abandoned : W → Shared T E W → Shared T E W × Poll (Unit {0})
  unfolding is_abandoned
  poll_abandoned waker s =
      if is_abandoned s.state
      then (s, now tt)
      else (record s { producer_waker = some waker }, pending)
