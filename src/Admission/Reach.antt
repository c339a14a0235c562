-- ===== src/Admission/Reach.antt =====
-- Runs of the events of an admission.
use vakya.Prelude.{
  ℕ, ◌+◌, ◌≤◌, ◌≡◌, refl, sym, ◌∙◌, Bool, true, false, Option, some, arith, is_some,
}
use vakya.Admission.{
  Admission, ready, reserved, queued, active, ready_for_waiter, closed, is_closed, channel,
}
use vakya.Admission.World.{World, Event, one_if, Accounts, Accounted, Enabled, act}
use vakya.Admission.Owners.{act-Accounted}

-- A new connection, before anything happened.
abbrev pub opening {ℓ κ} : {J : Type ℓ} {W : Type κ} → Bool → Option W → World J W
opening stopping waker = record {
  shared = channel stopping waker;
  permits = 0;
  waiting = 0;
  running = 0;
}

pub data Reaches {ℓ κ} {J : Type ℓ} {W : Type κ} (first : World J W)
    : World J W → Type (ℓ ⊔ κ) where
  here : Reaches first first
  then_act :
      {w : World J W} (e : Event J W) (w' : World J W)
      → Reaches first w
      → Enabled e w
      → act e w ≡ some w'
      → Reaches first w'

-- A request that was handed over and that the driver did not take yet.
unfoldable pub held {ℓ κ} : {J : Type ℓ} {W : Type κ} → Admission J W → ℕ
held (queued job waiter) = 1
held ready = 0
held (reserved waiter) = 0
held (active waiter) = 0
held ready_for_waiter = 0
held closed = 0

one_if-le : (b : Bool) → one_if b ≤ 1
unfolding one_if
one_if-le true = omega arith
one_if-le false = omega arith

pub opening-Accounted {ℓ κ} :
    (J : Type ℓ) {W : Type κ} (stopping : Bool) (waker : Option W)
    → Accounted (opening {J = J} stopping waker)
unfolding Accounted Accounts channel
opening-Accounted J stopping waker = (refl, refl, refl)

module _ {ℓ κ} {J : Type ℓ} {W : Type κ} where
  pub some-inj : (a b : World J W) → ◌≡◌ {A = Option (World J W)} (some a) (some b) → a ≡ b
  some-inj a b h = cc

  pub Reaches-Accounted : {first w : World J W} → Accounted first → Reaches first w → Accounted w
  Reaches-Accounted own here = own
  Reaches-Accounted own (then_act {w} e w' steps enabled h) =
      let (v, same, kept) = act-Accounted e w (Reaches-Accounted own steps) enabled in
      rw (some-inj w' v (sym h ∙ same)) kept

  abbrev pub OneOwner : World J W → Type 0
  OneOwner w = (w.permits + held w.shared.admission + w.running ≤ 1) × (w.waiting ≤ 1)

  accounted-OneOwner :
      (a : Admission J W) (p w r : ℕ)
      → Accounts a p w r
      → is_closed a ≡ false
      → (p + held a + r ≤ 1) × (w ≤ 1)
  unfolding Accounts is_closed held
  accounted-OneOwner ready p w r own unclosed = omega (arith, own)
  accounted-OneOwner (reserved o) p w r own unclosed = omega (arith, own, one_if-le (is_some o))
  accounted-OneOwner (queued j o) p w r own unclosed = omega (arith, own, one_if-le (is_some o))
  accounted-OneOwner (active o) p w r own unclosed = omega (arith, own, one_if-le (is_some o))
  accounted-OneOwner ready_for_waiter p w r own unclosed = omega (arith, own)
  accounted-OneOwner closed p w r own unclosed = absurd (cc)

  -- In every run of a connection from its start, each event that its senders, reservations,
  -- permits and driver may cause goes through without a panic; and while the driver is there, at
  -- most one of a permit, a request that was handed over and a running exchange exists, and at
  -- most one reservation waits.
  pub Reaches-OneOwner :
      (stopping : Bool) (waker : Option W) (w : World J W)
      → Reaches (opening stopping waker) w
      → ((e : Event J W) → Enabled e w → (w' : World J W) × (act e w ≡ some w'))
        × (is_closed w.shared.admission ≡ false → OneOwner w)
  unfolding Accounted
  Reaches-OneOwner stopping waker w steps =
      let own = Reaches-Accounted (opening-Accounted J stopping waker) steps in
      (
        λ e enabled. let (w', same, kept) = act-Accounted e w own enabled in (w', same),
        accounted-OneOwner w.shared.admission w.permits w.waiting w.running own,
      )
