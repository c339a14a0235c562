-- ===== src/Pipe/Refine.antt =====
-- The code of a pipe is the rendezvous.
use vakya.Prelude.{◌≡◌, refl, sym, ◌∙◌, Option, some}
use vakya.Pipe.{channel}
use vakya.Pipe.World.{
  World, Event, demand, watch, drop_future, close, quit, drop_take, leave, offer, fail,
  poll_producer, poll_consumer, act, opening,
}
use vakya.Pipe.Offering.{drop_future-Kept, poll_producer-Kept}
use vakya.Pipe.Producing.{demand-Kept, watch-Kept, offer-Kept, close-Kept, fail-Kept, quit-Kept}
use vakya.Pipe.Consuming.{poll_consumer-Kept, drop_take-Kept, leave-Kept}
use vakya.Pipe.Spec.{Step-Holds, Holds}
use vakya.Pipe.Parts.{view, IsSound, Kept}

module _ {ℓ κ ι} {T : Type ℓ} {E : Type κ} {W : Type ι} where
  -- Every event of a sound pipe goes through without a panic, keeps it sound, and is a step of the
  -- rendezvous that it stands for, or none.
  pub act-Steps : (e : Event T E W) (w : World T E W) → IsSound w → Kept e w
  unfolding IsSound
  act-Steps demand w own =
      demand-Kept w.shared.state w.shared.producer_waker w.shared.consumer_waker w.phase w.reader
        w.lifecycle w.offers w.fates w.taken own
  act-Steps watch w own =
      watch-Kept w.shared.state w.shared.producer_waker w.shared.consumer_waker w.phase w.reader
        w.lifecycle w.offers w.fates w.taken own
  act-Steps (offer x) w own =
      offer-Kept x w.shared.state w.shared.producer_waker w.shared.consumer_waker w.phase w.reader
        w.lifecycle w.offers w.fates w.taken own
  act-Steps drop_future w own =
      drop_future-Kept w.shared.state w.shared.producer_waker w.shared.consumer_waker w.phase
        w.reader w.lifecycle w.offers w.fates w.taken own
  act-Steps close w own =
      close-Kept w.shared.state w.shared.producer_waker w.shared.consumer_waker w.phase w.reader
        w.lifecycle w.offers w.fates w.taken own
  act-Steps (fail e) w own =
      fail-Kept e w.shared.state w.shared.producer_waker w.shared.consumer_waker w.phase w.reader
        w.lifecycle w.offers w.fates w.taken own
  act-Steps quit w own =
      quit-Kept w.shared.state w.shared.producer_waker w.shared.consumer_waker w.phase w.reader
        w.lifecycle w.offers w.fates w.taken own
  act-Steps (poll_producer m) w own =
      poll_producer-Kept m w.shared.state w.shared.producer_waker w.shared.consumer_waker w.phase
        w.reader w.lifecycle w.offers w.fates w.taken own
  act-Steps (poll_consumer m) w own =
      poll_consumer-Kept m w.shared.state w.shared.producer_waker w.shared.consumer_waker w.phase
        w.reader w.lifecycle w.offers w.fates w.taken own
  act-Steps drop_take w own =
      drop_take-Kept w.shared.state w.shared.producer_waker w.shared.consumer_waker w.phase w.reader
        w.lifecycle w.offers w.fates w.taken own
  act-Steps leave w own =
      leave-Kept w.shared.state w.shared.producer_waker w.shared.consumer_waker w.phase w.reader
        w.lifecycle w.offers w.fates w.taken own

pub data Reaches {ℓ κ ι} {T : Type ℓ} {E : Type κ} {W : Type ι} (first : World T E W)
    : World T E W → Type (ℓ ⊔ κ ⊔ ι) where
  here : Reaches first first
  then_act :
      {w : World T E W} (e : Event T E W) (w' : World T E W)
      → Reaches first w
      → act e w ≡ some w'
      → Reaches first w'

module _ {ℓ κ ι} {T : Type ℓ} {E : Type κ} {W : Type ι} where
  some-inj : (a b : World T E W) → ◌≡◌ {A = Option (World T E W)} (some a) (some b) → a ≡ b
  some-inj a b h = cc

  reached : {w : World T E W} → Reaches opening w → IsSound w × Holds (view w)
  unfolding IsSound channel
  reached here = ((λ h. cc, λ h. cc, refl), record { once = refl; handed = refl })
  reached (then_act {w} e w' steps h) =
      let (sound, holding) = reached steps in
      let (v, same, kept, step) = act-Steps e w sound in
      let is_same : w' ≡ v = some-inj w' v (sym h ∙ same) in
      rw is_same (kept, Step-Holds step holding)

  -- In every run of a pipe from its start, each event goes through without a panic; every offer
  -- ended once, in the order in which they were made, but for the one that is still there; and the
  -- consumer was given, in that order, the items of the offers that ended as handed over, with the
  -- one of now if it was taken already: none is lost, given twice, or given back as well.
  pub Reaches-Handed :
      (w : World T E W)
      → Reaches opening w
      → ((e : Event T E W) → (w' : World T E W) × (act e w ≡ some w')) × Holds (view w)
  Reaches-Handed w steps =
      let (sound, holding) = reached steps in
      (λ e. let (w', same, kept, step) = act-Steps e w sound in (w', same), holding)
