-- ===== src/Client/Receipts.antt =====
-- The receipts that the requests of a client connection get.
use vakya.Prelude.{
  length_eq_zero, ◌≡◌, refl, ap, ◌≢◌, inl, inr, Bool, true, Option, none, some, List, [], ◌∷◌, ◌++◌,
  arith, leb, if◌then◌else◌, Bool-cases, length, All, Result, ok, err,
}
use vakya.Message.{Error}
use vakya.Exchange.{Outcome, reuse, closing, handoff}
use vakya.Io.Recv.{RecvBuffer, bytes}
use vakya.Client.Settle.{message_policy, application_closure, shutdown, SettledExchange}
use vakya.Client.Run.{
  ExchangeOutcome, kept, closed_for, upgraded_to, ConnectionOutcome, JobRound, Ran, retire, keep,
  exchanged, job_ended, run_inner, last_receipt, run,
}

-- An exchange whose request may be told that the connection is reusable.
abbrev pub Reusable : JobRound → Type 0
Reusable job =
    (s : SettledExchange) × (job.settled ≡ ok s)
    × (s.outcome ≡ reuse)
    × (bytes s.buffer ≡ [])
    × (job.released ≡ true)

abbrev pub told_kept : List JobRound → List (Result Error ExchangeOutcome)
told_kept [] = []
told_kept (job ∷ jobs) = ok kept ∷ told_kept jobs

-- The receipt that is still held: of the first of the requests that are left.
abbrev Holds : List JobRound → Option ExchangeOutcome → Type 0
Holds [] terminal = terminal ≡ none
Holds (job ∷ jobs) terminal = (o : ExchangeOutcome) × (o ≢ kept) × (terminal ≡ some o)

abbrev Told : List JobRound → Ran → Type 0
Told jobs t =
    (front : List JobRound) × (rest : List JobRound) × (jobs ≡ front ++ rest)
    × All Reusable front
    × (t.receipts ≡ told_kept front)
    × Holds rest t.terminal

-- The receipt for a request, if the connection ends with that result.
abbrev pub LastTold :
    List JobRound
    → (final : Result Error ConnectionOutcome) → List (Result Error ExchangeOutcome)
    → Type 0
LastTold [] final receipts = receipts ≡ []
LastTold (job ∷ jobs) (err e) receipts = receipts ≡ err e ∷ []
LastTold (job ∷ jobs) (ok connection) receipts =
    (o : ExchangeOutcome) × (o ≢ kept) × (receipts ≡ ok o ∷ [])

module _ (recovering : Bool) (closes : Result Error (Unit {0})) where
  keep-Told :
      (job : JobRound) (jobs : List JobRound) (s : SettledExchange) (rest : RecvBuffer → Ran)
      → job.settled ≡ ok s
      → s.outcome ≡ reuse
      → ((b : RecvBuffer) → Told jobs (rest b))
      → Told (job ∷ jobs) (keep recovering closes job s rest)
  unfolding keep retire
  keep-Told job jobs s rest at outcome good = elim (Bool-cases (leb 1 (length (bytes s.buffer)))) [
    | inl some_left ↦
        simp some_left
          ([], job ∷ jobs, refl, tt, refl, (closed_for message_policy, (λ h. cc), refl))
    | inr none_left ↦ elim (Bool-cases job.released) [
      | inl open_again ↦
          let (front, left, splits, all, receipts, held) = good s.buffer in
          simp (none_left, open_again)
            (
              job ∷ front,
              left,
              ap (λ js. job ∷ js) splits,
              ((s, at, outcome, length_eq_zero (bytes s.buffer) (ground arith), open_again), all),
              ap (λ rs. ok kept ∷ rs) receipts,
              held,
            )
      | inr shut ↦
          simp (none_left, shut)
            (
              [],
              job ∷ jobs,
              refl,
              tt,
              refl,
              (
                closed_for (if job.stopping then shutdown else application_closure),
                (λ h. cc),
                refl,
              ),
            )
    ]
  ]

  exchanged-Told :
      (job : JobRound) (jobs : List JobRound) (s : SettledExchange) (o : Outcome)
      (rest : RecvBuffer → Ran)
      → job.settled ≡ ok s
      → s.outcome ≡ o
      → ((b : RecvBuffer) → Told jobs (rest b))
      → Told (job ∷ jobs) (exchanged recovering closes job s o rest)
  unfolding exchanged retire
  exchanged-Told job jobs s (handoff kind) rest at outcome good =
      ([], job ∷ jobs, refl, tt, refl, (upgraded_to kind, (λ h. cc), refl))
  exchanged-Told job jobs s closing rest at outcome good =
      ([], job ∷ jobs, refl, tt, refl, (closed_for s.close_reason, (λ h. cc), refl))
  exchanged-Told job jobs s reuse rest at outcome good = keep-Told job jobs s rest at outcome good

  ended-Told :
      (job : JobRound) (jobs : List JobRound) (settled : Result Error SettledExchange)
      (rest : RecvBuffer → Ran)
      → job.settled ≡ settled
      → ((b : RecvBuffer) → Told jobs (rest b))
      → Told (job ∷ jobs) (job_ended recovering closes job settled rest)
  unfolding job_ended
  ended-Told job jobs (err e) rest at good =
      ([], job ∷ jobs, refl, tt, refl, (closed_for message_policy, (λ h. cc), refl))
  ended-Told job jobs (ok s) rest at good = exchanged-Told job jobs s s.outcome rest at refl good

  inner-Told :
      (jobs : List JobRound) (b : RecvBuffer) → Told jobs (run_inner recovering closes jobs b)
  unfolding run_inner retire
  inner-Told [] b = ([], [], refl, tt, refl, refl)
  inner-Told (job ∷ jobs) b =
      ended-Told job jobs job.settled (run_inner recovering closes jobs) refl (inner-Told jobs)

  last-LastTold :
      (rest : List JobRound) (terminal : Option ExchangeOutcome)
      (final : Result Error ConnectionOutcome)
      → Holds rest terminal
      → LastTold rest final (last_receipt terminal final)
  unfolding last_receipt
  last-LastTold [] terminal final held = rw held refl
  last-LastTold (job ∷ jobs) terminal (err e) (o, other, at) = rw at refl
  last-LastTold (job ∷ jobs) terminal (ok connection) (o, other, at) = rw at (o, other, refl)

  -- Every request that a client connection takes up gets one receipt, in order. The ones in front
  -- are told that the connection is reusable, and for each of them the exchange settled for reuse,
  -- no input was left behind the response, and admission was reopened. Where the connection ends
  -- before the requests do, the next one is the last that is taken up: it is told the error of the
  -- connection, or else an outcome that is not reuse.
  pub run-Told :
      (jobs : List JobRound) (b : RecvBuffer) (final : Result Error ConnectionOutcome)
      → (front : List JobRound) × (rest : List JobRound) × (last : List
          (Result Error ExchangeOutcome))
        × (jobs ≡ front ++ rest)
        × All Reusable front
        × (run recovering closes jobs b final ≡ told_kept front ++ last)
        × LastTold rest final last
  unfolding run
  run-Told jobs b final =
      let (front, rest, splits, all, receipts, held) = inner-Told jobs b in
      let terminal = (run_inner recovering closes jobs b).terminal in
      (
        front,
        rest,
        last_receipt terminal final,
        splits,
        all,
        ap (λ rs. rs ++ last_receipt terminal final) receipts,
        last-LastTold rest terminal final held,
      )
