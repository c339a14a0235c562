-- ===== src/Client/Response.antt =====
-- src/proto/h1/client.rs: `receive`, which reads a response, its heads and then its body.
use vakya.Prelude.{
  ℕ, Bool, true, false, not, Option, none, some, List, [], ◌++◌, ◌==◌, length, Bytes, Result, ok,
  err,
}
use vakya.Message.{plain_error, Error, BodyMode, empty, fixed, chunked, until_eof}
use vakya.Http.{Http}
use vakya.Head.{HeadError}
use vakya.Head.Response.{ResponseHead, ValidatedResponseHead}
use vakya.Exchange.{ExchangePolicy}
use vakya.Chunk.{DecodeError}
use vakya.Decode.Input.{DecodeLimits, with_limits}
use vakya.Io.{IoError}
use vakya.Io.Recv.{RecvBuffer}
use vakya.BodyIo.Transmit.{Frame}
use vakya.BodyIo.Rounds.{Round, ReceiveEnd, completed, abandoned_end, panicked, failed, Received}
use vakya.BodyIo.Receive.{receive_body}
use vakya.Client.Heads.{HeadRound, HeadState, HeadsReceived, head_loop}

-- The `ReceiveEnd` of a response that was received, which is not a failure.
pub data BodyEnd : Type 0 where
  whole cut : BodyEnd

pub record ReceivedResponse : Type 0 where
  pub end : BodyEnd
  pub buffer : RecvBuffer
  pub policy : ExchangePolicy

pub data ResponseEnd : Type 0 where
  responded : ReceivedResponse → ResponseEnd
  refused : Error → ResponseEnd
  broken : ResponseEnd

-- What happens while a response is received: a deadline that could not be made, the rounds of the
-- heads, whether the application saw the final head, and the rounds of the body.
pub record ResponseRounds : Type 0 where
  pub no_deadline : Option Error
  pub heads : List HeadRound
  pub seen : Bool
  pub body : List Round

-- A response, pending without an end; with the head that was delivered with the body, the input
-- that was taken for heads, the frames that the application took, and what arrived.
pub record ResponseReceived (http : Http) (H : Type 0) : Type 0 where
  pub ended : Option ResponseEnd
  pub final_head : Option (ValidatedResponseHead http)
  pub taken : List Bytes
  pub delivered : List (Frame H)
  pub arrived : Bytes

-- Whether `incoming` makes a producer for a body of that framing.
unfoldable pub has_producer : BodyMode → Bool
has_producer empty = false
has_producer (fixed length) = not (length == 0)
has_producer chunked = true
has_producer until_eof = true

module _ (http : Http) (error_of : IoError → Error) (by_lease : Bool) (max_bytes : ℕ)
    (parse_response : Bytes → Result HeadError (ResponseHead http)) {H : Type 0}
    (parse_trailers : ℕ → Bytes → Result DecodeError (ℕ × H)) (limits : DecodeLimits) where
  abbrev pub response_stopped : HeadsReceived http → ResponseEnd → ResponseReceived http H
  response_stopped t how = record {
    ended = some how;
    final_head = none;
    taken = t.taken;
    delivered = [];
    arrived = t.arrived;
  }

  -- The end of the body.
  unfoldable pub response_end : ExchangePolicy → RecvBuffer → Option ReceiveEnd → Option ResponseEnd
  response_end policy b none = none
  response_end policy b (some (failed e)) = some (refused e)
  response_end policy b (some panicked) = some broken
  response_end policy b (some completed) =
      some (responded (record { end = whole; buffer = b; policy = policy }))
  response_end policy b (some abandoned_end) =
      some (responded (record { end = cut; buffer = b; policy = policy }))

  abbrev pub with_body :
      HeadsReceived http → ValidatedResponseHead http → Received H → ResponseReceived http H
  with_body t v body = record {
    ended = response_end t.state.policy body.buffer body.ended;
    final_head = some v;
    taken = t.taken;
    delivered = body.delivered;
    arrived = t.arrived ++ body.arrived;
  }

  -- A body that needs no producer is complete with its head.
  abbrev pub without_body : RecvBuffer → Received H
  without_body b = record { ended = some completed; buffer = b; delivered = []; arrived = [] }

  unfoldable pub receive_content :
      List Round
      → HeadsReceived http
      → ValidatedResponseHead http
      → (has_body : Bool) → ResponseReceived http H
  unfolding response_end receive_body with_limits
  receive_content rounds t v false = with_body t v (without_body t.state.buffer)
  receive_content rounds t v true = with_body t v (
      receive_body error_of by_lease parse_trailers rounds t.state.buffer
        (with_limits v.body limits))

  unfoldable pub offer_final :
      List Round
      → HeadsReceived http
      → ValidatedResponseHead http
      → (seen : Bool) → ResponseReceived http H
  unfolding receive_content has_producer
  offer_final rounds t v false = response_stopped t (refused (plain_error vakya.Message.canceled))
  offer_final rounds t v true = receive_content rounds t v (has_producer v.body)

  -- After the loop on the heads.
  unfoldable pub heads_ended :
      ResponseRounds
      → HeadsReceived http
      → Option (Result Error (ValidatedResponseHead http))
      → ResponseReceived http H
  unfolding offer_final
  heads_ended rounds t none = record {
    ended = none;
    final_head = none;
    taken = t.taken;
    delivered = [];
    arrived = t.arrived;
  }
  heads_ended rounds t (some (err e)) = response_stopped t (refused e)
  heads_ended rounds t (some (ok v)) = offer_final rounds.body t v rounds.seen

  unfoldable pub receive_until : ResponseRounds → Option Error → HeadState → ResponseReceived http H
  unfolding heads_ended head_loop
  receive_until rounds (some e) s = record {
    ended = some (refused e);
    final_head = none;
    taken = [];
    delivered = [];
    arrived = [];
  }
  receive_until rounds none s =
      let t = head_loop http error_of by_lease max_bytes parse_response rounds.heads s in
      heads_ended rounds t t.ended

  unfoldable pub receive : ResponseRounds → HeadState → ResponseReceived http H
  unfolding receive_until
  receive rounds s = receive_until rounds rounds.no_deadline s
