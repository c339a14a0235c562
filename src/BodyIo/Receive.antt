-- ===== src/BodyIo/Receive.antt =====
-- src/proto/h1/body_io.rs: `receive_body_configured`, which decodes a body and hands it over.
use vakya.Prelude.{
  ℕ, ◌-◌, Bool, true, false, Option, none, some, List, [], ◌∷◌, if◌then◌else◌, length, drop, Bytes,
  Result, ok, err,
}
use vakya.Message.{
  plain_error, Error, ErrorKind, invalid_message, internal, timeout, LimitKind, chunk_line_bytes,
  chunk_extension_bytes, trailer_bytes, trailer_count, trailer_map_capacity, drain_payload,
  drain_wire, TimeoutPhase, head, body_progress, ErrorDetail, incoming_limit, timeout_phase,
}
use vakya.Chunk.{DecodeError}
use vakya.Decode.Input.{BodyDecoder, is_complete}
use vakya.Decode.{DecodeOutcome, need_more, payload, trailer_fields, end, decode}
use vakya.Io.{IoError, operation_canceled}
use vakya.Io.Recv.{
  IncomingData, data_bytes, RecvBuffer, bytes, consume, take_payload, ReadStatus, received, at_eof,
  read, read_managed,
}
use vakya.BodyIo.Transmit.{Frame, data_of, trailers_of}
use vakya.BodyIo.Rounds.{
  is_canceled, decode_error, charge_drain, Demanded, Offered, Round, Received, Receiving, stopped,
  with_frame, with_arrived, drop_lease, set_budget, wanted, unwanted, interrupted, accepted,
  refused, closed, canceled, completed, abandoned_end, panicked, failed,
}

module _ (error_of : IoError → Error) (by_lease : Bool) where
  -- The policies `Portable` and `Tcp` of src/io/transport.rs.
  unfoldable pub policy_read : Round → RecvBuffer → RecvBuffer × Result Error ReadStatus
  unfolding read read_managed
  policy_read r b =
      if by_lease
      then read_managed error_of r.cancel_read r.answer r.lease b
      else read error_of r.cancel_read r.answer b

  -- The result of `read_until`, by whether the deadline elapsed.
  unfoldable pub timed : (elapsed : Bool) → Result Error ReadStatus → Result Error ReadStatus
  timed false result = result
  timed true (ok status) = err record { kind = timeout; detail = some (timeout_phase head) }
  timed true (err e) =
      if is_canceled e
      then err record { kind = timeout; detail = some (timeout_phase head) }
      else err e

  -- `read_until` of src/io/transport.rs
  unfoldable pub read_until : Round → RecvBuffer → RecvBuffer × Result Error ReadStatus
  unfolding policy_read timed
  read_until r b = let result = policy_read r b in (result.0, timed r.elapsed result.1)

  abbrev pub is_head_timeout : Option ErrorDetail → Bool
  is_head_timeout (some (timeout_phase head)) = true
  is_head_timeout _ = false

  -- The phase of a timeout, for a body.
  unfoldable pub in_body : Result Error ReadStatus → Result Error ReadStatus
  in_body (ok status) = ok status
  in_body (err e) =
      if is_head_timeout e.detail
      then err (record e { detail = some (timeout_phase body_progress) })
      else err e

  -- The read of `read_or_abandoned`, once the deadline is made.
  unfoldable pub read_by : Option Error → Round → RecvBuffer → RecvBuffer × Result Error ReadStatus
  unfolding read_until in_body
  read_by (some e) r b = (b, err e)
  read_by none r b = let result = read_until r b in (result.0, in_body result.1)

  unfoldable pub read_or_abandoned : Round → RecvBuffer → RecvBuffer × Result Error ReadStatus
  unfolding read_by
  read_or_abandoned r b = read_by r.no_deadline r b

  module _ {H : Type 0} (parse_trailers : ℕ → Bytes → Result DecodeError (ℕ × H)) where
    -- The state after a read that went well.
    unfoldable pub after_read :
        Receiving → RecvBuffer → Result Error ReadStatus → (Receiving → Received H) → Received H
    after_read s b (err e) rest = stopped b (failed e)
    after_read s b (ok at_eof) rest = rest (record s { buffer = b; eof = true })
    after_read s b (ok (received n)) rest = rest (record s { buffer = b })

    -- After the read, by whether the consumer is gone.
    unfoldable pub unless_abandoned :
        (abandoned : Bool)
        → Receiving
        → RecvBuffer
        → Result Error ReadStatus
        → (Receiving → Received H)
        → Received H
    unfolding after_read
    unless_abandoned true s b result rest = stopped b abandoned_end
    unless_abandoned false s b result rest = after_read s b result rest

    unfoldable pub read_more :
        Round → Receiving → RecvBuffer → (Receiving → Received H) → Received H
    unfolding read_or_abandoned unless_abandoned bytes
    read_more r s b rest =
        let result = read_or_abandoned r b in
        with_arrived (drop (length (bytes b)) (bytes result.0))
          (unless_abandoned r.abandoned s result.0 result.1 rest)

    unfoldable pub offer_frame :
        Receiving → RecvBuffer → Frame H → Offered → (Receiving → Received H) → Received H
    offer_frame s b frame accepted rest = with_frame frame (rest (record s { buffer = b }))
    offer_frame s b frame refused rest = stopped b abandoned_end
    offer_frame s b frame closed rest = stopped b (failed (plain_error vakya.Message.closed))
    offer_frame s b frame canceled rest = stopped b (failed (error_of operation_canceled))

    -- After `consume`.
    abbrev pub consumed_then :
        RecvBuffer × Result Error (Unit {0}) → (RecvBuffer → Received H) → Received H
    consumed_then (b, err e) rest = stopped b (failed e)
    consumed_then (b, ok u) rest = rest b

    unfoldable pub payload_taken :
        Receiving
        → RecvBuffer
        → Offered
        → Option (RecvBuffer × Result Error IncomingData)
        → (Receiving → Received H)
        → Received H
    unfolding offer_frame data_bytes
    payload_taken s b offered none rest = stopped b panicked
    payload_taken s b offered (some (left, err e)) rest = stopped left (failed e)
    payload_taken s b offered (some (left, ok taken)) rest =
        offer_frame s left (data_of (data_bytes taken)) offered rest

    -- The outcome of a decode that was charged.
    unfoldable pub act_on :
        Round → Receiving → DecodeOutcome H → (Receiving → Received H) → Received H
    unfolding read_more offer_frame payload_taken consume take_payload
    act_on r s (need_more count) rest =
        consumed_then (consume count s.buffer) (λ b. read_more r s b rest)
    act_on r s (payload start stop count) rest =
        payload_taken s s.buffer r.offered (take_payload start stop count s.buffer) rest
    act_on r s (trailer_fields fields count) rest =
        consumed_then (consume count s.buffer)
          (λ b. offer_frame s b (trailers_of fields) r.offered rest)
    act_on r s (end count) rest = consumed_then (consume count s.buffer) (λ b. stopped b completed)

    abbrev pub consumed_by : DecodeOutcome H → ℕ
    consumed_by (need_more count) = count
    consumed_by (payload start stop count) = count
    consumed_by (trailer_fields fields count) = count
    consumed_by (end count) = count

    abbrev pub payload_len : DecodeOutcome H → ℕ
    payload_len (payload start stop count) = stop - start
    payload_len (need_more count) = 0
    payload_len (trailer_fields fields count) = 0
    payload_len (end count) = 0

    -- After `charge_drain`.
    unfoldable pub charged :
        Round
        → Receiving
        → DecodeOutcome H
        → Result LimitKind (Option (ℕ × ℕ))
        → (Receiving → Received H)
        → Received H
    unfolding act_on
    charged r s outcome (err l) rest =
        stopped s.buffer
          (failed record { kind = vakya.Message.limit; detail = some (incoming_limit l) })
    charged r s outcome (ok budget) rest = act_on r (record s { budget = budget }) outcome rest

    -- After `decode`.
    unfoldable pub decoded :
        Round
        → Receiving
        → BodyDecoder × Result DecodeError (DecodeOutcome H)
        → (Receiving → Received H)
        → Received H
    unfolding charged charge_drain set_budget decode_error
    decoded r s (d, err e) rest = stopped s.buffer (failed (decode_error e))
    decoded r s (d, ok outcome) rest =
        charged r (record s { decoder = d }) outcome
          (charge_drain (set_budget r.drain_set s.budget) (consumed_by outcome)
            (payload_len outcome))
          rest

    -- One round, from the check for the end of the body on.
    unfoldable pub demanded_then :
        Round → Receiving → Demanded → (Receiving → Received H) → Received H
    unfolding decoded decode bytes
    demanded_then r s wanted rest =
        decoded r s (decode parse_trailers s.decoder (bytes s.buffer) s.eof) rest
    demanded_then r s unwanted rest = stopped s.buffer abandoned_end
    demanded_then r s interrupted rest = stopped s.buffer (failed (error_of operation_canceled))

    unfoldable pub receive_round : Round → Receiving → (Receiving → Received H) → Received H
    unfolding demanded_then drop_lease is_complete
    receive_round r s rest =
        if is_complete s.decoder.state
        then stopped s.buffer completed
        else demanded_then r (record s { buffer = drop_lease r.lease_dropped s.buffer }) r.demanded
            rest

    unfoldable pub receive_loop : List Round → Receiving → Received H
    unfolding receive_round
    receive_loop [] s = record { ended = none; buffer = s.buffer; delivered = []; arrived = [] }
    receive_loop (r ∷ rounds) s = receive_round r s (receive_loop rounds)

    unfoldable pub receive_body : List Round → RecvBuffer → BodyDecoder → Received H
    unfolding receive_loop
    receive_body rounds b d =
        receive_loop rounds (record { buffer = b; decoder = d; budget = none; eof = false })
