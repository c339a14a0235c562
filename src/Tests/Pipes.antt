-- ===== src/Tests/Pipes.antt =====
-- Pipes: an item that is offered and taken.
use vakya.Prelude.{ℕ, ◌≡◌, refl, none, some, [], ◌∷◌}
use vakya.Pipe.{idle, offered, channel}
use vakya.Pipe.Futures.{poll_offer, submit_in, poll_take, take_in, forget_consumer}
use vakya.Pipe.World.{
  waits, sent, resting, World, Event, offer, poll_producer, poll_consumer, act, opening,
  after_offer, after_take, recorded, producer_polled, polled_offer, reader_polls, consumer_polled,
}
use vakya.Pipe.Parts.{view, IsSound, Kept}
use vakya.Pipe.Spec.{Holds}
use vakya.Pipe.Refine.{act-Steps, Reaches, here, then_act, Reaches-Handed}

-- Items, errors and wakers by numbers.
abbrev made : World ℕ ℕ ℕ
made = record opening { phase = waits 5; offers = 5 ∷ [] }

abbrev sent_one : World ℕ ℕ ℕ
sent_one = record made {
  shared = record made.shared { state = offered 5; producer_waker = some 1 };
  phase = sent 5;
}

abbrev got : World ℕ ℕ ℕ
got = record sent_one {
  shared = record sent_one.shared { state = idle; producer_waker = none };
  reader = resting;
  taken = 5 ∷ [];
}

run : Reaches opening got
unfolding act channel producer_polled polled_offer poll_offer submit_in after_offer reader_polls
    consumer_polled poll_take take_in after_take recorded forget_consumer
run =
    then_act (poll_consumer 2) got
      (then_act (poll_producer 1) sent_one (then_act (offer 5) made here refl) refl) refl

Reaches-Handed_example :
    ((e : Event ℕ ℕ ℕ) → (w' : World ℕ ℕ ℕ) × (act e got ≡ some w')) × Holds (view got)
Reaches-Handed_example = Reaches-Handed got run

got-IsSound : IsSound got
unfolding IsSound channel
got-IsSound = (λ h. cc, λ h. cc, refl)

act-Steps_example : Kept (poll_producer 1) got
act-Steps_example = act-Steps (poll_producer 1) got got-IsSound
