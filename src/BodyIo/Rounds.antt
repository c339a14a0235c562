-- ===== src/BodyIo/Rounds.antt =====
-- src/proto/h1/body_io.rs: what the loop of `receive_body_configured` goes by, round by round, and
-- how it ends. src/body/incoming.rs: `charge_drain`.
use vakya.Prelude.{
  ℕ, ◌-◌, Bool, true, false, not, ◌&&◌, Option, none, some, min, u64_max, ◌+◌, List, [], ◌∷◌, ◌++◌,
  ltb, if◌then◌else◌, Bytes, Result, ok, err,
}
use vakya.Message.{
  plain_error, Error, ErrorKind, invalid_message, internal, timeout, LimitKind, chunk_line_bytes,
  chunk_extension_bytes, trailer_bytes, trailer_count, trailer_map_capacity, drain_payload,
  drain_wire, TimeoutPhase, head, body_progress, ErrorDetail, incoming_limit, timeout_phase,
}
use vakya.Chunk.{DecodeError, DecodeLimit}
use vakya.Decode.Input.{BodyDecoder}
use vakya.Io.{IoError}
use vakya.Io.Recv.{RecvBuffer, ReadAnswer}
use vakya.BodyIo.Transmit.{Frame}

-- `From<DecodeError> for Error`
unfoldable pub limit_kind : DecodeLimit → LimitKind
limit_kind vakya.Chunk.chunk_line_bytes = chunk_line_bytes
limit_kind vakya.Chunk.chunk_extension_bytes = chunk_extension_bytes
limit_kind vakya.Chunk.trailer_bytes = trailer_bytes
limit_kind vakya.Chunk.trailers = trailer_count
limit_kind vakya.Chunk.trailer_map = trailer_map_capacity

unfoldable pub decode_error : DecodeError → Error
unfolding limit_kind
decode_error (vakya.Chunk.limit l) = record {
  kind = vakya.Message.limit;
  detail = some (incoming_limit (limit_kind l));
}
decode_error vakya.Chunk.unexpected_eof = plain_error invalid_message
decode_error vakya.Chunk.invalid_chunk_size = plain_error invalid_message
decode_error vakya.Chunk.invalid_chunk_extension = plain_error invalid_message
decode_error vakya.Chunk.invalid_chunk_terminator = plain_error invalid_message
decode_error vakya.Chunk.invalid_trailer = plain_error invalid_message
decode_error vakya.Chunk.forbidden_trailer = plain_error invalid_message

-- `charge_drain` of src/body/incoming.rs: the budget for the wire and for the payload, once the
-- consumer has set one.
unfoldable pub charge_drain :
    Option (ℕ × ℕ) → (wire_bytes payload_bytes : ℕ) → Result LimitKind (Option (ℕ × ℕ))
charge_drain none wire_bytes payload_bytes = ok none
charge_drain (some (wire_left, payload_left)) wire_bytes payload_bytes =
    if ltb payload_left payload_bytes
    then err drain_payload
    else if ltb wire_left wire_bytes
    then err drain_wire
    else ok (some (wire_left - wire_bytes, payload_left - payload_bytes))

abbrev pub is_canceled : Error → Bool
is_canceled e = elim e.kind [ vakya.Message.canceled ↦ true | _ ↦ false ]

-- What the wait for demand gives, and the wait for an offered frame; `interrupted` where the
-- token asks for cancellation first.
pub data Demanded : Type 0 where
  wanted unwanted interrupted : Demanded

pub data Offered : Type 0 where
  accepted refused closed canceled : Offered

-- One round of the loop, by what the consumer and the transport do in it: whether the data of a
-- lease was dropped, the payload limit and the
-- wire allowance of a drain that was set, the deadline that could not be made, what the
-- read gives, whether its deadline elapsed, and whether the consumer is gone after it.
pub record Round : Type 0 where
  pub demanded : Demanded
  pub lease_dropped : Bool
  pub drain_set : Option (ℕ × ℕ)
  pub no_deadline : Option Error
  pub cancel_read : Bool
  pub answer : ReadAnswer
  pub lease : Result IoError (Option Bytes)
  pub elapsed : Bool
  pub abandoned : Bool
  pub offered : Offered

-- `ReceiveEnd`, or a panic.
pub data ReceiveEnd : Type 0 where
  completed abandoned_end panicked : ReceiveEnd
  failed : Error → ReceiveEnd

-- A reception; it is pending without an end. `arrived` is what the reads appended, and
-- `delivered` are the frames that the consumer took.
pub record Received (H : Type 0) : Type 0 where
  pub ended : Option ReceiveEnd
  pub buffer : RecvBuffer
  pub delivered : List (Frame H)
  pub arrived : Bytes

-- The state of the loop.
pub record Receiving : Type 0 where
  pub buffer : RecvBuffer
  pub decoder : BodyDecoder
  pub budget : Option (ℕ × ℕ)
  pub eof : Bool

abbrev pub stopped : {H : Type 0} → RecvBuffer → ReceiveEnd → Received H
stopped b how = record { ended = some how; buffer = b; delivered = []; arrived = [] }

abbrev pub with_frame : {H : Type 0} → Frame H → Received H → Received H
with_frame frame t = record t { delivered = frame ∷ t.delivered }

abbrev pub with_arrived : {H : Type 0} → Bytes → Received H → Received H
with_arrived input t = record t { arrived = input ++ t.arrived }

-- The data that holds a lease is dropped.
unfoldable pub drop_lease : Bool → RecvBuffer → RecvBuffer
drop_lease dropped b = record b {
  permit = elim b.permit [ none ↦ none | some held ↦ some (held && not dropped) ];
}

-- `drain_budget` of src/body/incoming.rs
unfoldable pub drain_budget : (payload_bytes wire_allowance : ℕ) → ℕ × ℕ
drain_budget payload_bytes wire_allowance =
    (min (payload_bytes + wire_allowance) u64_max, payload_bytes)

-- The budget after the drains that the consumer set in the meantime.
unfoldable pub set_budget : Option (ℕ × ℕ) → Option (ℕ × ℕ) → Option (ℕ × ℕ)
unfolding drain_budget
set_budget none budget = budget
set_budget (some (payload_bytes, wire_allowance)) budget =
    some (drain_budget payload_bytes wire_allowance)
