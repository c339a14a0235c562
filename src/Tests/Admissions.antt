-- ===== src/Tests/Admissions.antt =====
-- Admission: a permit, a reservation that waits for it, and a newcomer.
use vakya.Prelude.{ℕ, ◌≡◌, refl, false, none, some, arith}
use vakya.Admission.{
  reserved, closed, channel, set_waiter, is_closed, is_ready, is_for_waiter, waiter_of,
  ready_for_waiter, release, released,
}
use vakya.Admission.Sender.{refuses, try_reserve, occupied, enrol, poll_reserve}
use vakya.Admission.Driver.{drop_receiver}
use vakya.Admission.World.{
  World, Event, hung_up, trying, polled, gave_up, one_if, granted, Enabled, act, after_poll,
}
use vakya.Admission.Reach.{Reaches, here, then_act, opening, OneOwner, Reaches-OneOwner}
use vakya.Admission.Waiting.{Waits, Reaches-Waits, HandsOver, Reaches-HandsOver}
use vakya.Admission.Closing.{Refuses, Reaches-Refuses}

-- Requests and wakers by numbers.
abbrev start : World ℕ ℕ
start = opening false none

abbrev one_permit : World ℕ ℕ
one_permit = record start {
  shared = record start.shared { admission = reserved none };
  permits = 1;
}

abbrev one_waits : World ℕ ℕ
one_waits = record one_permit {
  shared = record one_permit.shared { admission_waker = some 7; admission = reserved (some 7) };
  waiting = 1;
}

abbrev handed_over : World ℕ ℕ
handed_over = record one_waits {
  shared = record one_waits.shared { admission = ready_for_waiter };
  permits = 0;
}

steps : Reaches start handed_over
unfolding act Enabled one_if granted after_poll channel try_reserve poll_reserve refuses enrol
    occupied is_closed is_ready is_for_waiter waiter_of set_waiter release released
steps =
    then_act gave_up handed_over
      (then_act (polled false 7) one_waits (then_act trying one_permit here tt refl) (omega arith)
        refl)
      (omega arith) refl

Reaches-OneOwner_example :
    ((e : Event ℕ ℕ) → Enabled e handed_over → (w' : World ℕ ℕ) × (act e handed_over ≡ some w'))
    × (is_closed handed_over.shared.admission ≡ false → OneOwner handed_over)
Reaches-OneOwner_example = Reaches-OneOwner false none handed_over steps

Reaches-Waits_example : Waits handed_over.shared 9
unfolding is_closed channel
Reaches-Waits_example = Reaches-Waits false none handed_over 9 steps refl refl (omega arith)

Reaches-HandsOver_example : HandsOver handed_over 7
unfolding is_closed channel
Reaches-HandsOver_example = Reaches-HandsOver false none handed_over 7 steps refl refl (omega arith)

abbrev gone : World ℕ ℕ
gone = record one_waits { shared = record one_waits.shared { admission = closed; driver = none } }

hangs_up : act hung_up one_waits ≡ some gone
unfolding act drop_receiver channel
hangs_up = refl

abbrev gave_back : World ℕ ℕ
gave_back = record gone { permits = 0 }

after_gone : Reaches gone gave_back
unfolding act Enabled release released channel
after_gone = then_act gave_up gave_back here (omega arith) refl

Reaches-Refuses_example : (gave_back.shared.admission ≡ closed) × Refuses gave_back.shared
Reaches-Refuses_example = Reaches-Refuses one_waits gone gave_back hangs_up after_gone
