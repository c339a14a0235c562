-- ===== src/Tests/Clients.antt =====
-- Clients: a response, how its exchange is settled, and a connection.
use vakya.Prelude.{
  ◌≡◌, refl, true, false, none, some, List, [], ◌∷◌, ◌++◌, All, Bytes, Result, ok, err,
}
use vakya.Message.{plain_error, Error, UpgradeKind, close, reusable}
use vakya.Http.{http_11}
use vakya.Head.{HeadError}
use vakya.Head.Response.{ResponseHead, ValidatedResponseHead}
use vakya.Head.Scan.{default}
use vakya.Exchange.{ExchangePolicy, finished, reuse, closing, new_policy, final}
use vakya.Io.Recv.{bytes}
use vakya.BodyIo.Rounds.{Round}
use vakya.Client.Heads.{HeadRound, seen, HeadState}
use vakya.Client.Response.{
  whole, ReceivedResponse, responded, ResponseRounds, ResponseReceived, receive,
}
use vakya.Client.Responds.{Whole, receive-Whole}
use vakya.Client.Settle.{SettledExchange, message_policy, finish_exchange}
use vakya.Client.Grants.{Grants, finish_exchange-Grants}
use vakya.Client.Origin.{Originates, finish_exchange-Originates}
use vakya.Client.Run.{JobRound, closed_down, ExchangeOutcome, run}
use vakya.Client.Receipts.{Reusable, told_kept, LastTold, run-Told}
use vakya.Tests.Parser.{no_fields, no_fields-within}
use vakya.Tests.Heads.{plain_http, validated}
use vakya.Tests.Exchanges.{policy, settled}
use vakya.Tests.Bodies.{limits}
use vakya.Tests.Transport.{as_error, buffer, buffer-IsSound, round}

-- A parser of heads that takes any input for a response without fields, so that the end of the
-- connection ends its body.
abbrev response : ResponseHead plain_http
response = record { version = http_11; status = 200; headers = λ name. [] }

abbrev parse_response : Bytes → Result HeadError (ResponseHead plain_http)
parse_response input = ok response

-- "H\n\nabcG"
abbrev input : Bytes
input = b'H' ∷ b'\n' ∷ b'\n' ∷ b'a' ∷ b'b' ∷ b'c' ∷ b'G' ∷ []

abbrev reading : Round
reading = record round { answer = record { report = ok 7; appended = input } }

abbrev head_round : HeadRound
head_round = record { expired = false; reading = reading; observed = seen }

-- A round in which the input is at its end.
abbrev ended : Round
ended = record round { answer = record { report = ok 0; appended = [] } }

abbrev rounds : ResponseRounds
rounds = record {
  no_deadline = none;
  heads = head_round ∷ head_round ∷ [];
  seen = true;
  body = round ∷ ended ∷ round ∷ [];
}

abbrev opened : HeadState
opened = record {
  buffer = buffer;
  scan = default;
  policy = new_policy plain_http validated 2;
  continue_allowed = false;
}

abbrev got : ResponseReceived plain_http Unit
got = receive plain_http as_error false 64 parse_response no_fields limits rounds opened

abbrev answered : ReceivedResponse
answered = record {
  end = whole;
  buffer = buffer;
  policy = record policy { persistence = close; informational = 0 };
}

got_answered : got.ended ≡ some (responded answered)
unfolding receive vakya.Head.Scan.answer vakya.Head.Scan.find_end vakya.Head.Scan.scan_loop
    vakya.Head.Scan.ends_head vakya.Head.Scan.next_line new_policy vakya.Exchange.received_head
    vakya.Exchange.received_valid vakya.Exchange.received_plain vakya.Head.Response.validate
    vakya.Head.Options.connection_options vakya.Head.for_each_value
    vakya.Head.Response.response_upgrade vakya.Head.Response.response_body
    vakya.Head.Response.bodiless vakya.Head.Response.settle vakya.Head.Options.persistence_of
    vakya.Head.Request.framing_of vakya.Head.Framing.parse_content_length
    vakya.Head.Framing.parse_transfer_encoding vakya.Head.Framing.coded vakya.Decode.decode_to_eof
got_answered = refl

receive-Whole_example :
    Whole plain_http as_error false 64 parse_response no_fields limits no_fields-within
      (bytes buffer)
      opened.policy
      got
      answered
receive-Whole_example =
    receive-Whole plain_http as_error false 64 parse_response no_fields limits no_fields-within
      rounds opened answered buffer-IsSound got_answered refl

abbrev received : ReceivedResponse
received = record { end = whole; buffer = buffer; policy = policy }

abbrev settlement : SettledExchange
settlement = record { buffer = buffer; outcome = reuse; close_reason = message_policy }

settles : finish_exchange (ok tt) (ok received) false ≡ ok settlement
unfolding finish_exchange
settles = refl

finish_exchange-Grants_example : Grants (ok tt) received false none reusable reuse
finish_exchange-Grants_example =
    finish_exchange-Grants plain_http validated 2 (ok tt) received false settlement settled settles

abbrev canceled : Error
canceled = plain_error vakya.Message.canceled

abbrev broke : Error
broke = plain_error vakya.Message.io

upload_broke : finish_exchange (err broke) (err canceled) false ≡ err broke
unfolding finish_exchange
upload_broke = refl

finish_exchange-Originates_example : Originates (err broke) (err canceled) broke
finish_exchange-Originates_example =
    finish_exchange-Originates (err broke) (err canceled) false broke upload_broke

-- A request that is followed by another, and one after which the connection closes.
abbrev jobs : List JobRound
jobs =
    record { settled = ok settlement; claimed = false; released = true; stopping = false }
    ∷ record { settled = ok settlement; claimed = false; released = false; stopping = true }
    ∷ []

run-Told_example :
    (front : List JobRound) × (rest : List JobRound) × (last : List (Result Error ExchangeOutcome))
    × (jobs ≡ front ++ rest)
    × All Reusable front
    × (run false (ok tt) jobs buffer (ok closed_down) ≡ told_kept front ++ last)
    × LastTold rest (ok closed_down) last
run-Told_example = run-Told false (ok tt) jobs buffer (ok closed_down)
