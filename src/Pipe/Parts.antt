-- ===== src/Pipe/Parts.antt =====
-- What a pipe keeps, and that its code is the rendezvous.
use vakya.Prelude.{◌≡◌, ◌≢◌, Bool, true, false, not, ◌&&◌, Option, none, some, List}
use vakya.Pipe.{
  State, idle, demanded, closed, disconnected, offered, failed, abandoned, EndpointLifecycle,
  active,
}
use vakya.Pipe.World.{
  Phase, free, demanding, watching, released, waits, sent, Reader, gone, World, Event, act,
}
use vakya.Pipe.Spec.{Rendezvous, Step}

module _ {ℓ} {T : Type ℓ} where
  abbrev pub current_of : Phase T → Option T
  current_of free = none
  current_of demanding = none
  current_of watching = none
  current_of released = none
  current_of (waits x) = some x
  current_of (sent x) = some x

  abbrev pub is_sent : Phase T → Bool
  is_sent free = false
  is_sent demanding = false
  is_sent watching = false
  is_sent released = false
  is_sent (waits x) = false
  is_sent (sent x) = true

  pub same-sent : {x y : T} → sent x ≡ sent y → y ≡ x
  same-sent h = cc

module _ {ℓ κ} {T : Type ℓ} {E : Type κ} where
  -- Whether the state has an item.
  abbrev pub holds : State T E → Bool
  holds (offered x) = true
  holds (abandoned (some x)) = true
  holds (abandoned none) = false
  holds idle = false
  holds demanded = false
  holds closed = false
  holds disconnected = false
  holds (failed e) = false

  -- The state fits the ends: an item in it is that of the submitted offer, a terminal state comes
  -- with the end of the producer, and an abandoned one with that of the consumer.
  abbrev pub Fits : State T E → Phase T → Reader → EndpointLifecycle → Type ℓ
  Fits idle p r l = (p ≢ released) × (r ≢ gone) × (l ≡ active)
  Fits demanded p r l = (p ≢ released) × (r ≢ gone) × (l ≡ active)
  Fits (offered x) p r l = (p ≡ sent x) × (r ≢ gone) × (l ≡ active)
  Fits closed p r l = p ≡ released
  Fits disconnected p r l = p ≡ released
  Fits (failed e) p r l = p ≡ released
  Fits (abandoned none) p r l = (r ≡ gone) × Unit {ℓ}
  Fits (abandoned (some x)) p r l = (p ≡ sent x) × (r ≡ gone)

  -- A producer that has no submitted offer may go on to anything but its end.
  pub Fits-move :
      (s : State T E) (p q : Phase T) (r : Reader) (l : EndpointLifecycle)
      → ((x : T) → p ≢ sent x)
      → p ≢ released
      → q ≢ released
      → Fits s p r l
      → Fits s q r l
  Fits-move idle p q r l unsent live on own = (on, own.1, own.2)
  Fits-move demanded p q r l unsent live on own = (on, own.1, own.2)
  Fits-move (offered x) p q r l unsent live on own = absurd (unsent x own.0)
  Fits-move closed p q r l unsent live on own = absurd (live own)
  Fits-move disconnected p q r l unsent live on own = absurd (live own)
  Fits-move (failed e) p q r l unsent live on own = absurd (live own)
  Fits-move (abandoned none) p q r l unsent live on own = own
  Fits-move (abandoned (some x)) p q r l unsent live on own = absurd (unsent x own.0)

module _ {ℓ κ ι} {T : Type ℓ} {E : Type κ} {W : Type ι} where
  -- The rendezvous that a pipe stands for.
  abbrev pub view : World T E W → Rendezvous T
  view w = record {
    current = current_of w.phase;
    passed = is_sent w.phase && not (holds w.shared.state);
    offers = w.offers;
    fates = w.fates;
    taken = w.taken;
  }

  unfoldable pub IsSound : World T E W → Type ℓ
  IsSound w = Fits w.shared.state w.phase w.reader w.lifecycle

  -- The event goes through, the ends fit after it, and it is a step of the rendezvous or none.
  abbrev pub Kept : Event T E W → World T E W → Type (ℓ ⊔ κ ⊔ ι)
  Kept e w = (w' : World T E W) × (act e w ≡ some w') × IsSound w' × Step (view w) (view w')

  abbrev pub world :
      State T E
      → Option W
      → Option W
      → Phase T
      → Reader
      → EndpointLifecycle
      → List T
      → List (T × Bool)
      → List T
      → World T E W
  world s pw cw p r l o f t = record {
    shared = record { state = s; producer_waker = pw; consumer_waker = cw };
    phase = p;
    reader = r;
    lifecycle = l;
    offers = o;
    fates = f;
    taken = t;
  }

  abbrev pub Keeps : Event T E W → Type (ℓ ⊔ κ ⊔ ι)
  Keeps e =
      (s : State T E) (pw cw : Option W) (p : Phase T) (r : Reader) (l : EndpointLifecycle)
      (o : List T) (f : List (T × Bool)) (t : List T)
      → Fits s p r l
      → Kept e (world s pw cw p r l o f t)
