-- ===== src/Admission/Parts.antt =====
-- What an event of an admission has to keep, on the parts of a world.
use vakya.Prelude.{ℕ, ◌≡◌, Bool, Option, some}
use vakya.Admission.{Admission}
use vakya.Admission.World.{World, Event, Accounts, Accounted, Enabled, act}

module _ {ℓ κ} {J : Type ℓ} {W : Type κ} where
  abbrev pub Kept : Event J W → World J W → Type (ℓ ⊔ κ)
  Kept e w = (w' : World J W) × (act e w ≡ some w') × Accounted w'

  abbrev pub world : Bool → Option W → Admission J W → ℕ → Option W → (p w r : ℕ) → World J W
  world stopping waker a senders driver p w r = record {
    shared = record {
      stopping = stopping;
      admission_waker = waker;
      admission = a;
      senders = senders;
      driver = driver;
    };
    permits = p;
    waiting = w;
    running = r;
  }

  -- What an event has to keep, on the parts of a world.
  abbrev pub Keeps : Event J W → Type (ℓ ⊔ κ)
  Keeps e =
      (stopping : Bool) (waker : Option W) (a : Admission J W) (senders : ℕ) (driver : Option W)
      (p w r : ℕ)
      → Accounts a p w r
      → Enabled e (world stopping waker a senders driver p w r)
      → Kept e (world stopping waker a senders driver p w r)
