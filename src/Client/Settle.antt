-- ===== src/Client/Settle.antt =====
-- src/proto/h1/client.rs: how an exchange is settled, from the ends of its two directions.
use vakya.Prelude.{Bool, true, false, not, ◌&&◌, ◌||◌, if◌then◌else◌, Result, ok, err, ◌>>=◌}
use vakya.Message.{Error}
use vakya.Exchange.{ActivityEnd, finished, retired, Outcome, finish}
use vakya.Io.Recv.{RecvBuffer}
use vakya.BodyIo.Rounds.{is_canceled}
use vakya.Client.Response.{BodyEnd, whole, cut, ReceivedResponse}

-- `CloseReason` of src/client/completion.rs
pub data CloseReason : Type 0 where
  message_policy application_closure body_abandonment upload_abort shutdown : CloseReason

pub record SettledExchange : Type 0 where
  pub buffer : RecvBuffer
  pub outcome : Outcome
  pub close_reason : CloseReason

abbrev pub settled_as : RecvBuffer → CloseReason → Outcome → SettledExchange
settled_as b reason outcome = record { buffer = b; outcome = outcome; close_reason = reason }

-- How the upload ended, for the policy.
unfoldable pub request_end :
    Result Error (Unit {0}) → (upload_aborted : Bool) → Result Error ActivityEnd
request_end (err e) upload_aborted =
    if not (is_canceled e) || not upload_aborted then err e else ok retired
request_end (ok u) true = ok retired
request_end (ok u) false = ok finished

-- A response whose body the application abandoned.
unfoldable pub cut_short : Result Error (Unit {0}) → ReceivedResponse → Result Error SettledExchange
unfolding finish
cut_short (err e) r =
    if not (is_canceled e)
    then err e
    else finish r.policy retired retired >>= λ o. ok (settled_as r.buffer body_abandonment o)
cut_short (ok u) r =
    finish r.policy retired retired >>= λ o. ok (settled_as r.buffer body_abandonment o)

unfoldable pub settled_by :
    Result Error (Unit {0})
    → ReceivedResponse
    → BodyEnd
    → (upload_aborted : Bool) → Result Error SettledExchange
unfolding request_end cut_short finish
settled_by sent r cut upload_aborted = cut_short sent r
settled_by sent r whole upload_aborted = request_end sent upload_aborted >>= λ ended.
    finish r.policy ended finished >>= λ o.
    ok (settled_as r.buffer (if upload_aborted then upload_abort else message_policy) o)

unfoldable pub finish_exchange :
    Result Error (Unit {0})
    → Result Error ReceivedResponse
    → (upload_aborted : Bool) → Result Error SettledExchange
unfolding settled_by
finish_exchange (err s) (err e) upload_aborted =
    if not (is_canceled s) && is_canceled e then err s else err e
finish_exchange (ok u) (err e) upload_aborted = err e
finish_exchange sent (ok r) upload_aborted = settled_by sent r r.end upload_aborted

-- Which direction `exchange_inner` sees end first.
pub data First : Type 0 where
  received_first sent_first : First

abbrev pub ends_early : Result Error ReceivedResponse → Bool
ends_early (err e) = true
ends_early (ok r) = elim r.end [ cut ↦ true | whole ↦ false ]

abbrev pub fails_upload : Result Error (Unit {0}) → (aborted : Bool) → Bool
fails_upload (err e) aborted = not (is_canceled e) || not aborted
fails_upload (ok u) aborted = false

-- Whether `exchange_inner` cancels the other direction then.
unfoldable pub cancels_peer :
    First → Result Error (Unit {0}) → Result Error ReceivedResponse → (aborted : Bool) → Bool
cancels_peer received_first sent received aborted = ends_early received
cancels_peer sent_first sent received aborted = fails_upload sent aborted
