-- ===== src/BodyIo/Acting.antt =====
-- What one answer of the decoder does for a reception.
use vakya.Prelude.{ℕ, ◌-◌, ◌≤◌, ◌≡◌, refl, Bool, [], ◌++◌, length, take, drop, Bytes, Result, ok}
use vakya.Message.{Error}
use vakya.Chunk.{DecodeError}
use vakya.Decode.Input.{DecoderState, done}
use vakya.Decode.{DecodeOutcome, need_more, payload, trailer_fields, end}
use vakya.Decode.Bounds.{InRange}
use vakya.Decode.Grammar.{Rest, consumed_of, payload_of}
use vakya.Decode.Terminal.{Settled}
use vakya.Io.{IoError}
use vakya.Io.Recv.{data_bytes, RecvBuffer, bytes, consume, take_payload}
use vakya.Io.Retained.{IsSound, consume-drops}
use vakya.Io.Payload.{take_payload-Takes}
use vakya.BodyIo.Transmit.{data_of, trailers_of}
use vakya.BodyIo.Receive.{offer_frame, consumed_then, payload_taken, act_on}
use vakya.BodyIo.Rounds.{Round, Received, Receiving, Offered}
use vakya.BodyIo.Arrives.{Arrives, completed-Arrives, front-Arrives, weaker-Arrives}
use vakya.BodyIo.Handover.{Promises, more-Arrives, offered-Arrives}

module _ (error_of : IoError → Error) (by_lease : Bool) where
  module _ {H : Type 0} (parse_trailers : ℕ → Bytes → Result DecodeError (ℕ × H)) (n : ℕ) where
    -- From the answer of one call of the decoder on; `before` is what the rest of the body looks
    -- like in front of the call.
    module _ (before : Bytes → Bytes → Type 0) where
      consumed-Arrives :
          (s : Receiving) (count : ℕ) (go_on : RecvBuffer → Received H)
          → IsSound s.buffer
          → count ≤ length (bytes s.buffer)
          → ((wire body : Bytes)
              → Rest parse_trailers n s.decoder.state wire body
              → before (take count (bytes s.buffer) ++ wire) body)
          → ((b : RecvBuffer)
              → IsSound b
              → Arrives (Rest parse_trailers n s.decoder.state) (bytes b) (go_on b))
          → Arrives before
              (bytes s.buffer)
              (consumed_then error_of by_lease parse_trailers (consume count s.buffer) go_on)
      consumed-Arrives s count go_on sound within called good =
          let (b, answer, left, kept) = consume-drops count s.buffer sound within in
          rw answer (
            front-Arrives (bytes s.buffer) count (go_on b)
              (rw left at (weaker-Arrives (bytes b) (go_on b) called (good b kept))))

      taken-Arrives :
          (s : Receiving) (start stop count : ℕ) (offered : Offered) (rest : Receiving → Received H)
          → IsSound s.buffer
          → s.decoder.limits.max_trailers ≡ n
          → Promises error_of by_lease parse_trailers n rest
          → (start ≤ stop) × (stop ≤ count) × (count ≤ length (bytes s.buffer))
          → ((wire body : Bytes)
              → Rest parse_trailers n s.decoder.state wire body
              → before
                  (take count (bytes s.buffer) ++ wire)
                  (take (stop - start) (drop start (bytes s.buffer)) ++ body))
          → Arrives before (bytes s.buffer) (
              payload_taken error_of by_lease parse_trailers s s.buffer offered
                (take_payload start stop count s.buffer)
                rest)
      unfolding payload_taken
      taken-Arrives s start stop count offered rest sound limits good (ordered, inside, within)
            called =
          let (b, taken, answer, same, left, kept) =
            take_payload-Takes s.buffer start stop count sound ordered inside within in
          let t =
            offer_frame error_of by_lease parse_trailers s b (data_of (data_bytes taken)) offered
              rest in
          rw answer (
            front-Arrives (bytes s.buffer) count t (
              rw left at (
                weaker-Arrives
                  {Related = λ wire body. before (take count (bytes s.buffer) ++ wire) body}
                  (bytes b) t (λ wire body (tail, split, h). rw (split, same) (called wire tail h))
                  (offered-Arrives error_of by_lease parse_trailers n s b
                    (data_of (data_bytes taken)) offered rest kept limits good))))

      pub act-Arrives :
          (r : Round) (s : Receiving) (eof : Bool) (outcome : DecodeOutcome H)
          (rest : Receiving → Received H)
          → IsSound s.buffer
          → s.decoder.limits.max_trailers ≡ n
          → Promises error_of by_lease parse_trailers n rest
          → InRange (length (bytes s.buffer)) (ok outcome)
          → Settled eof (s.decoder, ok outcome)
          → ((wire body : Bytes)
              → Rest parse_trailers n s.decoder.state wire body
              → before
                  (take (consumed_of outcome) (bytes s.buffer) ++ wire)
                  (payload_of outcome (bytes s.buffer) ++ body))
          → Arrives before
              (bytes s.buffer)
              (act_on error_of by_lease parse_trailers r s outcome rest)
      unfolding act_on
      act-Arrives r s eof (need_more count) rest sound limits good within settled called =
          consumed-Arrives s count _ sound within called
            (λ b kept. more-Arrives error_of by_lease parse_trailers n r s b rest kept limits good)
      act-Arrives r s eof (payload start stop count) rest sound limits good within settled called =
          taken-Arrives s start stop count r.offered rest sound limits good within called
      act-Arrives r s eof (trailer_fields fields count) rest sound limits good within settled
            called =
          consumed-Arrives s count _ sound within called (λ b kept.
            weaker-Arrives (bytes b) _ (λ wire body (tail, split, h). rw split h)
              (offered-Arrives error_of by_lease parse_trailers n s b (trailers_of fields) r.offered
                rest kept limits good))
      act-Arrives r s eof (end count) rest sound limits good within (none_consumed, settled)
            called =
          consumed-Arrives s count _ sound within called
            (λ b kept. completed-Arrives b (over s.decoder.state settled) kept)
        where
          over : (state : DecoderState) → state ≡ done → Rest parse_trailers n state [] []
          over state same = rw same (refl, refl)
