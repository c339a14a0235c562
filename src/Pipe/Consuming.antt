-- ===== src/Pipe/Consuming.antt =====
-- What a consumer keeps.
use vakya.Prelude.{refl, none, some}
use vakya.Pipe.{
  idle, demanded, closed, disconnected, offered, failed, abandoned, active, complete, drop_consumer,
  abandon,
}
use vakya.Pipe.Futures.{poll_take, forget_consumer, take_in}
use vakya.Pipe.World.{
  free, demanding, watching, released, waits, sent, resting, taking, gone, drop_take, leave,
  poll_consumer, recorded, after_take, consumer_polled, reader_drops, reader_leaves, reader_polls,
  act,
}
use vakya.Pipe.Spec.{stay, hand}
use vakya.Pipe.Parts.{IsSound, Keeps, same-sent}

module _ {ℓ κ ι} {T : Type ℓ} {E : Type κ} {W : Type ι} where
  pub poll_consumer-Kept : (waker : W) → Keeps {T = T} {E = E} {W = W} (poll_consumer waker)
  unfolding IsSound act reader_polls consumer_polled after_take recorded poll_take take_in
      forget_consumer
  poll_consumer-Kept m s pw cw p gone l o f t own = (_, refl, own, stay)
  poll_consumer-Kept m idle pw cw p resting l o f t own = (_, refl, (own.0, (λ h. cc), own.2), stay)
  poll_consumer-Kept m demanded pw cw p resting l o f t own =
      (_, refl, (own.0, (λ h. cc), own.2), stay)
  poll_consumer-Kept m (offered y) pw cw free resting l o f t own = absurd (cc)
  poll_consumer-Kept m (offered y) pw cw demanding resting l o f t own = absurd (cc)
  poll_consumer-Kept m (offered y) pw cw watching resting l o f t own = absurd (cc)
  poll_consumer-Kept m (offered y) pw cw released resting l o f t own = absurd (cc)
  poll_consumer-Kept m (offered y) pw cw (waits x) resting l o f t own = absurd (cc)
  poll_consumer-Kept m (offered y) pw cw (sent x) resting l o f t own =
      (_, refl, ((λ h. cc), (λ h. cc), own.2), rw (same-sent own.0) (hand x refl refl))
  poll_consumer-Kept m closed pw cw p resting l o f t own = (_, refl, own, stay)
  poll_consumer-Kept m disconnected pw cw p resting l o f t own = (_, refl, own, stay)
  poll_consumer-Kept m (failed e) pw cw p resting l o f t own = (_, refl, own, stay)
  poll_consumer-Kept m (abandoned none) pw cw p resting l o f t own = absurd (cc)
  poll_consumer-Kept m (abandoned (some y)) pw cw p resting l o f t own = absurd (cc)
  poll_consumer-Kept m idle pw cw p taking l o f t own = (_, refl, (own.0, (λ h. cc), own.2), stay)
  poll_consumer-Kept m demanded pw cw p taking l o f t own =
      (_, refl, (own.0, (λ h. cc), own.2), stay)
  poll_consumer-Kept m (offered y) pw cw free taking l o f t own = absurd (cc)
  poll_consumer-Kept m (offered y) pw cw demanding taking l o f t own = absurd (cc)
  poll_consumer-Kept m (offered y) pw cw watching taking l o f t own = absurd (cc)
  poll_consumer-Kept m (offered y) pw cw released taking l o f t own = absurd (cc)
  poll_consumer-Kept m (offered y) pw cw (waits x) taking l o f t own = absurd (cc)
  poll_consumer-Kept m (offered y) pw cw (sent x) taking l o f t own =
      (_, refl, ((λ h. cc), (λ h. cc), own.2), rw (same-sent own.0) (hand x refl refl))
  poll_consumer-Kept m closed pw cw p taking l o f t own = (_, refl, own, stay)
  poll_consumer-Kept m disconnected pw cw p taking l o f t own = (_, refl, own, stay)
  poll_consumer-Kept m (failed e) pw cw p taking l o f t own = (_, refl, own, stay)
  poll_consumer-Kept m (abandoned none) pw cw p taking l o f t own = absurd (cc)
  poll_consumer-Kept m (abandoned (some y)) pw cw p taking l o f t own = absurd (cc)

  pub drop_take-Kept : Keeps {T = T} {E = E} {W = W} drop_take
  unfolding IsSound act reader_drops forget_consumer
  drop_take-Kept s pw cw p gone l o f t own = (_, refl, own, stay)
  drop_take-Kept s pw cw p resting l o f t own = (_, refl, own, stay)
  drop_take-Kept idle pw cw p taking l o f t own = (_, refl, (own.0, (λ h. cc), own.2), stay)
  drop_take-Kept demanded pw cw p taking l o f t own = (_, refl, (own.0, (λ h. cc), own.2), stay)
  drop_take-Kept (offered y) pw cw p taking l o f t own = (_, refl, (own.0, (λ h. cc), own.2), stay)
  drop_take-Kept closed pw cw p taking l o f t own = (_, refl, own, stay)
  drop_take-Kept disconnected pw cw p taking l o f t own = (_, refl, own, stay)
  drop_take-Kept (failed e) pw cw p taking l o f t own = (_, refl, own, stay)
  drop_take-Kept (abandoned none) pw cw p taking l o f t own = absurd (cc)
  drop_take-Kept (abandoned (some y)) pw cw p taking l o f t own = absurd (cc)

  pub leave-Kept : Keeps {T = T} {E = E} {W = W} leave
  unfolding IsSound act reader_leaves drop_consumer abandon
  leave-Kept s pw cw p gone l o f t own = (_, refl, own, stay)
  leave-Kept s pw cw p taking l o f t own = (_, refl, own, stay)
  leave-Kept idle pw cw p resting active o f t own = (_, refl, (refl, tt), stay)
  leave-Kept demanded pw cw p resting active o f t own = (_, refl, (refl, tt), stay)
  leave-Kept (offered y) pw cw p resting active o f t own = (_, refl, (own.0, refl), stay)
  leave-Kept idle pw cw p resting complete o f t own = absurd (cc)
  leave-Kept demanded pw cw p resting complete o f t own = absurd (cc)
  leave-Kept (offered y) pw cw p resting complete o f t own = absurd (cc)
  leave-Kept closed pw cw p resting active o f t own = (_, refl, own, stay)
  leave-Kept closed pw cw p resting complete o f t own = (_, refl, own, stay)
  leave-Kept disconnected pw cw p resting active o f t own = (_, refl, own, stay)
  leave-Kept disconnected pw cw p resting complete o f t own = (_, refl, own, stay)
  leave-Kept (failed e) pw cw p resting active o f t own = (_, refl, own, stay)
  leave-Kept (failed e) pw cw p resting complete o f t own = (_, refl, own, stay)
  leave-Kept (abandoned none) pw cw p resting l o f t own = absurd (cc)
  leave-Kept (abandoned (some y)) pw cw p resting l o f t own = absurd (cc)
