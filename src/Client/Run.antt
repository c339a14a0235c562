-- ===== src/Client/Run.antt =====
-- src/proto/h1/client.rs: `run`, the exchanges of a connection one after the other, and the receipts
-- of src/client/completion.rs that it publishes.
use vakya.Prelude.{
  Bool, true, false, ◌&&◌, Option, none, some, List, [], ◌∷◌, ◌++◌, leb, if◌then◌else◌, length,
  Bytes, Result, ok, err, ◌>>=◌,
}
use vakya.Message.{plain_error, Error, UpgradeKind, invalid_message}
use vakya.Exchange.{Outcome, reuse, closing, handoff}
use vakya.Io.Recv.{RecvBuffer, bytes}
use vakya.Client.Settle.{
  CloseReason, message_policy, application_closure, body_abandonment, upload_abort, shutdown,
  SettledExchange,
}

pub data ExchangeOutcome : Type 0 where
  kept : ExchangeOutcome
  closed_for : CloseReason → ExchangeOutcome
  upgraded_to : UpgradeKind → ExchangeOutcome

-- `ConnectionOutcome`, with the input that goes with the transport.
pub data ConnectionOutcome : Type 0 where
  upgrade_claimed : UpgradeKind → ConnectionOutcome
  upgraded_with : (read_ahead : Bytes) → UpgradeKind → ConnectionOutcome
  recovered : (read_ahead : Bytes) → ConnectionOutcome
  closed_down : ConnectionOutcome

-- An accepted request: how its exchange settles, whether the upgrade was claimed, whether the
-- release reopens admission, and whether the connection is stopping then.
pub record JobRound : Type 0 where
  pub settled : Result Error SettledExchange
  pub claimed : Bool
  pub released : Bool
  pub stopping : Bool

-- `run_inner` at its end: its result, the receipt that it still holds, and those it published.
pub record Ran : Type 0 where
  pub result : Result Error ConnectionOutcome
  pub terminal : Option ExchangeOutcome
  pub receipts : List (Result Error ExchangeOutcome)

abbrev pub published : Result Error ExchangeOutcome → Ran → Ran
published receipt t = record t { receipts = receipt ∷ t.receipts }

abbrev pub ran : Result Error ConnectionOutcome → Option ExchangeOutcome → Ran
ran result terminal = record { result = result; terminal = terminal; receipts = [] }

-- Whether the transport may be recovered after an exchange that closes the connection.
unfoldable pub can_recover : CloseReason → Bool
can_recover body_abandonment = false
can_recover upload_abort = false
can_recover message_policy = true
can_recover application_closure = true
can_recover shutdown = true

-- `recovering` is set by `run_without_shutdown`; `closes` is what the shutdown of the writer gives.
module _ (recovering : Bool) (closes : Result Error (Unit {0})) where
  -- From the end of the loop on.
  unfoldable pub retire : (may_recover : Bool) → Option ExchangeOutcome → RecvBuffer → Ran
  unfolding bytes
  retire may_recover terminal b =
      ran
        (if recovering && may_recover
          then ok (recovered (bytes b))
          else closes >>= λ u. ok closed_down)
        terminal

  -- An exchange after which the connection is reused.
  unfoldable pub keep : JobRound → SettledExchange → (RecvBuffer → Ran) → Ran
  unfolding retire bytes
  keep job s rest =
      let left = rest s.buffer in
      if leb 1 (length (bytes s.buffer))
      then ran (err (plain_error invalid_message)) (some (closed_for message_policy))
      else if job.released
      then published (ok kept) left
      else retire true (some (closed_for (if job.stopping then shutdown else application_closure)))
          s.buffer

  unfoldable pub exchanged : JobRound → SettledExchange → Outcome → (RecvBuffer → Ran) → Ran
  unfolding keep retire can_recover bytes
  exchanged job s (handoff kind) rest =
      ran (ok (if job.claimed then upgrade_claimed kind else upgraded_with (bytes s.buffer) kind))
        (some (upgraded_to kind))
  exchanged job s closing rest =
      retire (can_recover s.close_reason) (some (closed_for s.close_reason)) s.buffer
  exchanged job s reuse rest = keep job s rest

  unfoldable pub job_ended : JobRound → Result Error SettledExchange → (RecvBuffer → Ran) → Ran
  unfolding exchanged
  job_ended job (err e) rest = ran (err e) (some (closed_for message_policy))
  job_ended job (ok s) rest = exchanged job s s.outcome rest

  -- The loop of `run_inner` over the requests that are accepted until admission closes.
  unfoldable pub run_inner : List JobRound → RecvBuffer → Ran
  unfolding job_ended retire
  run_inner [] b = retire true none b
  run_inner (job ∷ jobs) b = job_ended job job.settled (run_inner jobs)

-- The receipt that `run` publishes last, with the final result of the connection.
unfoldable pub last_receipt :
    Option ExchangeOutcome → Result Error ConnectionOutcome → List (Result Error ExchangeOutcome)
last_receipt none result = []
last_receipt (some outcome) (ok connection) = ok outcome ∷ []
last_receipt (some outcome) (err e) = err e ∷ []

-- `final` is the result after the shutdown control of the connection.
unfoldable pub run :
    (recovering : Bool)
    → (closes : Result Error (Unit {0})) → List JobRound
    → RecvBuffer
    → (final : Result Error ConnectionOutcome) → List (Result Error ExchangeOutcome)
unfolding run_inner last_receipt
run recovering closes jobs b final =
    let t = run_inner recovering closes jobs b in t.receipts ++ last_receipt t.terminal final
