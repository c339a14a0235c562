-- ===== src/Pipe/Offering.antt =====
-- What the offers of a producer keep.
use vakya.Prelude.{refl, none, some}
use vakya.Pipe.{idle, demanded, closed, disconnected, offered, failed, abandoned, is_abandoned}
use vakya.Pipe.Futures.{
  poll_demand, forget_producer, poll_offer, drop_offer, poll_abandoned, demand_in, submit_in,
  wait_in, withdraw_in,
}
use vakya.Pipe.World.{
  free, demanding, watching, released, waits, sent, drop_future, poll_producer, settled, given_back,
  after_offer, polled_offer, after_wait, producer_polled, fate_of, offer_dropped, future_dropped,
  act,
}
use vakya.Pipe.Spec.{stay, settle}
use vakya.Pipe.Parts.{IsSound, Keeps, Fits-move, same-sent}

module _ {ℓ κ ι} {T : Type ℓ} {E : Type κ} {W : Type ι} where
  pub drop_future-Kept : Keeps {T = T} {E = E} {W = W} drop_future
  unfolding IsSound act future_dropped offer_dropped settled fate_of drop_offer forget_producer
      withdraw_in
  drop_future-Kept s pw cw free r l o f t own = (_, refl, own, stay)
  drop_future-Kept s pw cw released r l o f t own = (_, refl, own, stay)
  drop_future-Kept s pw cw demanding r l o f t own =
      (_, refl, Fits-move s demanding _ r l (λ x h. cc) (λ h. cc) (λ h. cc) own, stay)
  drop_future-Kept s pw cw watching r l o f t own =
      (_, refl, Fits-move s watching _ r l (λ x h. cc) (λ h. cc) (λ h. cc) own, stay)
  drop_future-Kept s pw cw (waits x) r l o f t own =
      (_, refl, Fits-move s (waits x) _ r l (λ x h. cc) (λ h. cc) (λ h. cc) own, settle x refl)
  drop_future-Kept idle pw cw (sent x) r l o f t own =
      (_, refl, (λ h. cc, own.1, own.2), settle x refl)
  drop_future-Kept demanded pw cw (sent x) r l o f t own =
      (_, refl, (λ h. cc, own.1, own.2), settle x refl)
  drop_future-Kept (offered y) pw cw (sent x) r l o f t own =
      (_, refl, (λ h. cc, own.1, own.2), rw (same-sent own.0) (settle x refl))
  drop_future-Kept (abandoned none) pw cw (sent x) r l o f t own = (_, refl, own, settle x refl)
  drop_future-Kept (abandoned (some y)) pw cw (sent x) r l o f t own =
      (_, refl, (own.1, tt), rw (same-sent own.0) (settle x refl))
  drop_future-Kept closed pw cw (sent x) r l o f t own = absurd (cc)
  drop_future-Kept disconnected pw cw (sent x) r l o f t own = absurd (cc)
  drop_future-Kept (failed e) pw cw (sent x) r l o f t own = absurd (cc)

  pub poll_producer-Kept : (waker : W) → Keeps {T = T} {E = E} {W = W} (poll_producer waker)
  unfolding IsSound act producer_polled after_wait poll_demand poll_abandoned polled_offer
      after_offer given_back settled poll_offer drop_offer withdraw_in demand_in submit_in wait_in
      forget_producer is_abandoned
  poll_producer-Kept m s pw cw free r l o f t own = (_, refl, own, stay)
  poll_producer-Kept m s pw cw released r l o f t own = (_, refl, own, stay)
  poll_producer-Kept m idle pw cw demanding r l o f t own = (_, refl, own, stay)
  poll_producer-Kept m demanded pw cw demanding r l o f t own =
      (_, refl, (λ h. cc, own.1, own.2), stay)
  poll_producer-Kept m (abandoned none) pw cw demanding r l o f t own = (_, refl, own, stay)
  poll_producer-Kept m (offered y) pw cw demanding r l o f t own = absurd (cc)
  poll_producer-Kept m (abandoned (some y)) pw cw demanding r l o f t own = absurd (cc)
  poll_producer-Kept m closed pw cw demanding r l o f t own = absurd (cc)
  poll_producer-Kept m disconnected pw cw demanding r l o f t own = absurd (cc)
  poll_producer-Kept m (failed e) pw cw demanding r l o f t own = absurd (cc)
  poll_producer-Kept m idle pw cw watching r l o f t own = (_, refl, own, stay)
  poll_producer-Kept m demanded pw cw watching r l o f t own = (_, refl, own, stay)
  poll_producer-Kept m (abandoned none) pw cw watching r l o f t own = (_, refl, own, stay)
  poll_producer-Kept m (offered y) pw cw watching r l o f t own = absurd (cc)
  poll_producer-Kept m (abandoned (some y)) pw cw watching r l o f t own = absurd (cc)
  poll_producer-Kept m closed pw cw watching r l o f t own = absurd (cc)
  poll_producer-Kept m disconnected pw cw watching r l o f t own = absurd (cc)
  poll_producer-Kept m (failed e) pw cw watching r l o f t own = absurd (cc)
  poll_producer-Kept m idle pw cw (waits x) r l o f t own = (_, refl, (refl, own.1, own.2), stay)
  poll_producer-Kept m demanded pw cw (waits x) r l o f t own =
      (_, refl, (refl, own.1, own.2), stay)
  poll_producer-Kept m (abandoned none) pw cw (waits x) r l o f t own =
      (_, refl, own, settle x refl)
  poll_producer-Kept m (offered y) pw cw (waits x) r l o f t own = absurd (cc)
  poll_producer-Kept m (abandoned (some y)) pw cw (waits x) r l o f t own = absurd (cc)
  poll_producer-Kept m closed pw cw (waits x) r l o f t own = absurd (cc)
  poll_producer-Kept m disconnected pw cw (waits x) r l o f t own = absurd (cc)
  poll_producer-Kept m (failed e) pw cw (waits x) r l o f t own = absurd (cc)
  poll_producer-Kept m (offered y) pw cw (sent x) r l o f t own = (_, refl, own, stay)
  poll_producer-Kept m idle pw cw (sent x) r l o f t own =
      (_, refl, (λ h. cc, own.1, own.2), settle x refl)
  poll_producer-Kept m demanded pw cw (sent x) r l o f t own =
      (_, refl, (λ h. cc, own.1, own.2), settle x refl)
  poll_producer-Kept m (abandoned none) pw cw (sent x) r l o f t own = (_, refl, own, settle x refl)
  poll_producer-Kept m (abandoned (some y)) pw cw (sent x) r l o f t own =
      (_, refl, (own.1, tt), rw (same-sent own.0) (settle x refl))
  poll_producer-Kept m closed pw cw (sent x) r l o f t own = absurd (cc)
  poll_producer-Kept m disconnected pw cw (sent x) r l o f t own = absurd (cc)
  poll_producer-Kept m (failed e) pw cw (sent x) r l o f t own = absurd (cc)
