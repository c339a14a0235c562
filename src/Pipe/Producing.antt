-- ===== src/Pipe/Producing.antt =====
-- What a producer keeps.
use vakya.Prelude.{refl, none, some}
use vakya.Pipe.{
  idle, demanded, closed, disconnected, offered, failed, abandoned, end_with, drop_producer, finish,
  finish_in,
}
use vakya.Pipe.World.{
  free, demanding, watching, released, waits, sent, demand, watch, close, quit, offer, fail,
  released_with, act,
}
use vakya.Pipe.Spec.{stay, begin}
use vakya.Pipe.Parts.{IsSound, Keeps, Fits-move}

module _ {ℓ κ ι} {T : Type ℓ} {E : Type κ} {W : Type ι} where
  pub demand-Kept : Keeps {T = T} {E = E} {W = W} demand
  unfolding IsSound act
  demand-Kept s pw cw free r l o f t own =
      (_, refl, Fits-move s free _ r l (λ x h. cc) (λ h. cc) (λ h. cc) own, stay)
  demand-Kept s pw cw demanding r l o f t own = (_, refl, own, stay)
  demand-Kept s pw cw watching r l o f t own = (_, refl, own, stay)
  demand-Kept s pw cw released r l o f t own = (_, refl, own, stay)
  demand-Kept s pw cw (waits x) r l o f t own = (_, refl, own, stay)
  demand-Kept s pw cw (sent x) r l o f t own = (_, refl, own, stay)

  pub watch-Kept : Keeps {T = T} {E = E} {W = W} watch
  unfolding IsSound act
  watch-Kept s pw cw free r l o f t own =
      (_, refl, Fits-move s free _ r l (λ x h. cc) (λ h. cc) (λ h. cc) own, stay)
  watch-Kept s pw cw demanding r l o f t own = (_, refl, own, stay)
  watch-Kept s pw cw watching r l o f t own = (_, refl, own, stay)
  watch-Kept s pw cw released r l o f t own = (_, refl, own, stay)
  watch-Kept s pw cw (waits x) r l o f t own = (_, refl, own, stay)
  watch-Kept s pw cw (sent x) r l o f t own = (_, refl, own, stay)

  pub offer-Kept : (y : T) → Keeps {T = T} {E = E} {W = W} (offer y)
  unfolding IsSound act
  offer-Kept y s pw cw free r l o f t own =
      (_, refl, Fits-move s free _ r l (λ x h. cc) (λ h. cc) (λ h. cc) own, begin y refl refl)
  offer-Kept y s pw cw demanding r l o f t own = (_, refl, own, stay)
  offer-Kept y s pw cw watching r l o f t own = (_, refl, own, stay)
  offer-Kept y s pw cw released r l o f t own = (_, refl, own, stay)
  offer-Kept y s pw cw (waits x) r l o f t own = (_, refl, own, stay)
  offer-Kept y s pw cw (sent x) r l o f t own = (_, refl, own, stay)

  pub close-Kept : Keeps {T = T} {E = E} {W = W} close
  unfolding IsSound act released_with end_with finish finish_in drop_producer
  close-Kept idle pw cw free r l o f t own = (_, refl, refl, stay)
  close-Kept demanded pw cw free r l o f t own = (_, refl, refl, stay)
  close-Kept (abandoned none) pw cw free r l o f t own = (_, refl, own, stay)
  close-Kept (offered y) pw cw free r l o f t own = absurd (cc)
  close-Kept (abandoned (some y)) pw cw free r l o f t own = absurd (cc)
  close-Kept closed pw cw free r l o f t own = absurd (cc)
  close-Kept disconnected pw cw free r l o f t own = absurd (cc)
  close-Kept (failed d) pw cw free r l o f t own = absurd (cc)
  close-Kept s pw cw demanding r l o f t own = (_, refl, own, stay)
  close-Kept s pw cw watching r l o f t own = (_, refl, own, stay)
  close-Kept s pw cw released r l o f t own = (_, refl, own, stay)
  close-Kept s pw cw (waits x) r l o f t own = (_, refl, own, stay)
  close-Kept s pw cw (sent x) r l o f t own = (_, refl, own, stay)

  pub fail-Kept : (e : E) → Keeps {T = T} {E = E} {W = W} (fail e)
  unfolding IsSound act released_with end_with finish finish_in drop_producer
  fail-Kept e idle pw cw free r l o f t own = (_, refl, refl, stay)
  fail-Kept e demanded pw cw free r l o f t own = (_, refl, refl, stay)
  fail-Kept e (abandoned none) pw cw free r l o f t own = (_, refl, own, stay)
  fail-Kept e (offered y) pw cw free r l o f t own = absurd (cc)
  fail-Kept e (abandoned (some y)) pw cw free r l o f t own = absurd (cc)
  fail-Kept e closed pw cw free r l o f t own = absurd (cc)
  fail-Kept e disconnected pw cw free r l o f t own = absurd (cc)
  fail-Kept e (failed d) pw cw free r l o f t own = absurd (cc)
  fail-Kept e s pw cw demanding r l o f t own = (_, refl, own, stay)
  fail-Kept e s pw cw watching r l o f t own = (_, refl, own, stay)
  fail-Kept e s pw cw released r l o f t own = (_, refl, own, stay)
  fail-Kept e s pw cw (waits x) r l o f t own = (_, refl, own, stay)
  fail-Kept e s pw cw (sent x) r l o f t own = (_, refl, own, stay)

  pub quit-Kept : Keeps {T = T} {E = E} {W = W} quit
  unfolding IsSound act released_with end_with finish finish_in drop_producer
  quit-Kept idle pw cw free r l o f t own = (_, refl, refl, stay)
  quit-Kept demanded pw cw free r l o f t own = (_, refl, refl, stay)
  quit-Kept (abandoned none) pw cw free r l o f t own = (_, refl, own, stay)
  quit-Kept (offered y) pw cw free r l o f t own = absurd (cc)
  quit-Kept (abandoned (some y)) pw cw free r l o f t own = absurd (cc)
  quit-Kept closed pw cw free r l o f t own = absurd (cc)
  quit-Kept disconnected pw cw free r l o f t own = absurd (cc)
  quit-Kept (failed d) pw cw free r l o f t own = absurd (cc)
  quit-Kept s pw cw demanding r l o f t own = (_, refl, own, stay)
  quit-Kept s pw cw watching r l o f t own = (_, refl, own, stay)
  quit-Kept s pw cw released r l o f t own = (_, refl, own, stay)
  quit-Kept s pw cw (waits x) r l o f t own = (_, refl, own, stay)
  quit-Kept s pw cw (sent x) r l o f t own = (_, refl, own, stay)
