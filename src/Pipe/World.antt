-- ===== src/Pipe/World.antt =====
-- The two ends of one pipe with the futures that borrow them, and what they may do. A future that
-- is ready is dropped at once, as `.await` does.
use vakya.Prelude.{
  Bool, true, false, Option, none, some, List, [], ◌∷◌, ◌++◌, if◌then◌else◌, Result, ok, err, Poll,
  pending, now,
}
use vakya.Pipe.{
  closed, failed, Shared, channel, EndpointLifecycle, active, end_with, drop_producer,
  drop_consumer,
}
use vakya.Pipe.Futures.{
  OfferLifecycle, waiting, submitted, OfferError, offer_abandoned, offer_closed, TakeError,
  poll_demand, forget_producer, poll_offer, drop_offer, poll_take, forget_consumer, poll_abandoned,
}

-- The producer, by the future that borrows it. The item of a submitted offer is the one that it
-- was made with.
pub data Phase {ℓ} (T : Type ℓ) : Type ℓ where
  free demanding watching released : Phase T
  waits sent : T → Phase T

-- The consumer.
pub data Reader : Type 0 where
  resting taking gone : Reader

-- With the items that were offered, how each offer ended, `true` for an item that was handed
-- over, and the items that the consumer was given.
pub record World {ℓ κ ι} (T : Type ℓ) (E : Type κ) (W : Type ι) : Type (ℓ ⊔ κ ⊔ ι) where
  pub shared : Shared T E W
  pub phase : Phase T
  pub reader : Reader
  pub lifecycle : EndpointLifecycle
  pub offers : List T
  pub fates : List (T × Bool)
  pub taken : List T

pub data Event {ℓ κ ι} (T : Type ℓ) (E : Type κ) (W : Type ι) : Type (ℓ ⊔ κ ⊔ ι) where
  demand watch drop_future close quit drop_take leave : Event T E W
  offer : T → Event T E W
  fail : E → Event T E W
  poll_producer poll_consumer : W → Event T E W

module _ {ℓ} {T : Type ℓ} where
  unfoldable pub given_back : OfferError T → T
  given_back (offer_abandoned item) = item
  given_back (offer_closed item) = item

  -- How an offer that is dropped ended, by the item that is dropped with it.
  unfoldable pub fate_of : T → Option T → T × Bool
  fate_of item none = (item, true)
  fate_of item (some dropped) = (dropped, false)

  abbrev pub is_free : Phase T → Bool
  is_free free = true
  is_free demanding = false
  is_free watching = false
  is_free released = false
  is_free (waits item) = false
  is_free (sent item) = false

module _ {ℓ κ} {T : Type ℓ} {E : Type κ} where
  -- The items that the consumer has after a poll of a `Take`.
  unfoldable pub recorded : List T → Result (TakeError E) (Option T) → List T
  recorded taken (ok (some item)) = taken ++ item ∷ []
  recorded taken (ok none) = taken
  recorded taken (err e) = taken

module _ {ℓ κ ι} {T : Type ℓ} {E : Type κ} {W : Type ι} where
  -- The end of an offer of `item`: how it ended, by what the code gives back.
  unfoldable pub settled : World T E W → Shared T E W → T × Bool → World T E W
  settled w s fate = record w { shared = s; phase = free; fates = w.fates ++ fate ∷ [] }

  -- After a poll of an offer of `item`; it is ready with `submitted`.
  unfoldable pub after_offer :
      World T E W → T → Shared T E W → Poll (Result (OfferError T) (Unit {0})) → World T E W
  unfolding settled given_back drop_offer
  after_offer w item s pending = record w { shared = s; phase = sent item }
  after_offer w item s (now (ok u)) = settled w (drop_offer submitted s).0 (item, true)
  after_offer w item s (now (err e)) = settled w (drop_offer submitted s).0 (given_back e, false)

  unfoldable pub polled_offer : World T E W → T → OfferLifecycle T → W → Option (World T E W)
  unfolding after_offer poll_offer
  polled_offer w item l waker = elim (poll_offer l waker w.shared) [
    | none ↦ none
    | some result ↦ some (after_offer w item result.0 result.1)
  ]

  -- After a poll of a demand or a watch.
  unfoldable pub after_wait {α} : {A : Type α} → World T E W → Shared T E W → Poll A → World T E W
  unfolding forget_producer
  after_wait w s pending = record w { shared = s }
  after_wait w s (now a) = record w { shared = forget_producer s; phase = free }

  unfoldable pub producer_polled : World T E W → W → Phase T → Option (World T E W)
  unfolding after_wait poll_demand poll_abandoned polled_offer
  producer_polled w waker free = some w
  producer_polled w waker released = some w
  producer_polled w waker demanding =
      let result = poll_demand waker w.shared in some (after_wait w result.0 result.1)
  producer_polled w waker watching =
      let result = poll_abandoned waker w.shared in some (after_wait w result.0 result.1)
  producer_polled w waker (waits item) = polled_offer w item (waiting item) waker
  producer_polled w waker (sent item) = polled_offer w item submitted waker

  unfoldable pub offer_dropped : World T E W → T → OfferLifecycle T → World T E W
  unfolding settled fate_of drop_offer
  offer_dropped w item l =
      let result = drop_offer l w.shared in settled w result.0 (fate_of item result.1)

  unfoldable pub future_dropped : World T E W → Phase T → World T E W
  unfolding forget_producer offer_dropped
  future_dropped w free = w
  future_dropped w released = w
  future_dropped w demanding = record w { shared = forget_producer w.shared; phase = free }
  future_dropped w watching = record w { shared = forget_producer w.shared; phase = free }
  future_dropped w (waits item) = offer_dropped w item (waiting item)
  future_dropped w (sent item) = offer_dropped w item submitted

  unfoldable pub released_with :
      World T E W → Option (Shared T E W × Option W) → Option (World T E W)
  released_with w none = none
  released_with w (some result) = some record w { shared = result.0; phase = released }

  unfoldable pub after_take :
      World T E W
      → EndpointLifecycle
      → Shared T E W
      → Poll (Result (TakeError E) (Option T))
      → World T E W
  unfolding forget_consumer recorded
  after_take w l s pending = record w { shared = s; lifecycle = l; reader = taking }
  after_take w l s (now r) = record w {
    shared = forget_consumer s;
    lifecycle = l;
    reader = resting;
    taken = recorded w.taken r;
  }

  unfoldable pub consumer_polled : World T E W → W → Option (World T E W)
  unfolding after_take poll_take
  consumer_polled w waker = elim (poll_take w.lifecycle waker w.shared) [
    | none ↦ none
    | some result ↦ some (after_take w result.0 result.1 result.2)
  ]

  abbrev pub if_free : World T E W → Option (World T E W) → Option (World T E W)
  if_free w next = if is_free w.phase then next else some w

  unfoldable pub reader_drops : World T E W → Reader → World T E W
  unfolding forget_consumer
  reader_drops w resting = w
  reader_drops w taking = record w { shared = forget_consumer w.shared; reader = resting }
  reader_drops w gone = w

  unfoldable pub reader_leaves : World T E W → Reader → World T E W
  unfolding drop_consumer
  reader_leaves w resting = record w {
    shared = (drop_consumer w.lifecycle w.shared).0;
    reader = gone;
  }
  reader_leaves w taking = w
  reader_leaves w gone = w

  unfoldable pub reader_polls : World T E W → W → Reader → Option (World T E W)
  unfolding consumer_polled
  reader_polls w waker resting = consumer_polled w waker
  reader_polls w waker taking = consumer_polled w waker
  reader_polls w waker gone = some w

  -- An event; one that the ends do not allow changes nothing, and `none` is a panic.
  unfoldable pub act : Event T E W → World T E W → Option (World T E W)
  unfolding producer_polled future_dropped released_with end_with drop_producer reader_drops
      reader_leaves reader_polls
  act demand w = if_free w (some record w { phase = demanding })
  act watch w = if_free w (some record w { phase = watching })
  act (offer item) w =
      if_free w (some record w { phase = waits item; offers = w.offers ++ item ∷ [] })
  act (poll_producer waker) w = producer_polled w waker w.phase
  act drop_future w = some (future_dropped w w.phase)
  act close w = if_free w (released_with w (end_with active closed w.shared))
  act (fail e) w = if_free w (released_with w (end_with active (failed e) w.shared))
  act quit w = if_free w (released_with w (drop_producer active w.shared))
  act (poll_consumer waker) w = reader_polls w waker w.reader
  act drop_take w = some (reader_drops w w.reader)
  act leave w = some (reader_leaves w w.reader)

  abbrev pub opening : World T E W
  opening = record {
    shared = channel;
    phase = free;
    reader = resting;
    lifecycle = active;
    offers = [];
    fates = [];
    taken = [];
  }
