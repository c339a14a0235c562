-- ===== src/BodyIo/Ending.antt =====
-- A reception ends: every round takes input off, asks for more or ends it.
use vakya.Prelude.{
  ℕ, suc, ◌+◌, ◌*◌, ◌≤◌, ◌≡◌, refl, ap, inl, inr, Bool, Option, none, List, [], ◌∷◌, arith,
  Bool-cases, length, length-drop, Bytes, Result, ok, err,
}
use vakya.Message.{Error, BodyMode, LimitKind}
use vakya.Chunk.{DecodeError}
use vakya.Decode.Input.{BodyDecoder, DecodeLimits, is_complete, initial_state, with_limits}
use vakya.Decode.{DecodeOutcome, need_more, payload, trailer_fields, end, decode}
use vakya.Decode.Bounds.{InRange, Answers, decode-Answers}
use vakya.Decode.Terminal.{Settled, decode-Settled}
use vakya.Io.{IoError}
use vakya.Io.Recv.{data_bytes, RecvBuffer, bytes, consume, take_payload}
use vakya.Io.Retained.{IsSound, consume-drops}
use vakya.Io.Payload.{take_payload-Takes}
use vakya.BodyIo.Transmit.{data_of, trailers_of}
use vakya.BodyIo.Receive.{
  read_more, consumed_then, payload_taken, act_on, charged, decoded, demanded_then, receive_round,
  receive_loop, receive_body,
}
use vakya.BodyIo.Rounds.{
  Round, Received, Receiving, drop_lease, set_budget, charge_drain, Demanded, wanted, unwanted,
  interrupted, Offered,
}
use vakya.BodyIo.Arrives.{drop_lease-IsSound, drop_lease-bytes}
use vakya.Decode.Progress.{Busy, Moves, decode-Moves, initial-Busy}
use vakya.BodyIo.Work.{
  open_input, body_left, body_left-le, work, Bounded, more-Bounded, Promises, answered-Bounded,
  offered-Bounded,
}

module _ (error_of : IoError → Error) (by_lease : Bool) {H : Type 0}
    (parse_trailers : ℕ → Bytes → Result DecodeError (ℕ × H))
    (parses_within : (n : ℕ) (block : Bytes) (k : ℕ) (fields : H)
      → parse_trailers n block ≡ ok (k, fields)
      → k ≤ length block)
    (k : ℕ) where
  -- A front of `count` bytes is consumed before the rest of the round.
  consumed-Bounded :
      (s : Receiving) (count m : ℕ) (go_on : RecvBuffer → Received H)
      → IsSound s.buffer
      → count ≤ length (bytes s.buffer)
      → ((b : RecvBuffer)
          → IsSound b
          → length (bytes b) ≤ length (bytes s.buffer)
          → Bounded (suc k) m (go_on b))
      → Bounded
          (suc k)
          m
          (consumed_then error_of by_lease parse_trailers (consume count s.buffer) go_on)
  consumed-Bounded s count m go_on sound within good =
      let (b, answer, left, kept) = consume-drops count s.buffer sound within in
      rw answer (good b kept (omega (arith, ap length left, length-drop count (bytes s.buffer))))

  taken-Bounded :
      (s : Receiving) (start stop count : ℕ) (offered : Offered) (rest : Receiving → Received H)
      → IsSound s.buffer
      → Busy s.decoder.state
      → Promises error_of by_lease parse_trailers k rest
      → 1 ≤ count
      → (start ≤ stop) × (stop ≤ count) × (count ≤ length (bytes s.buffer))
      → Bounded (suc k) (length (bytes s.buffer) + open_input s.eof + 1) (
          payload_taken error_of by_lease parse_trailers s s.buffer offered
            (take_payload start stop count s.buffer)
            rest)
  unfolding payload_taken
  taken-Bounded s start stop count offered rest sound busy good some_taken
        (ordered, inside, within) =
      let (b, taken, answer, same, left, kept) =
        take_payload-Takes s.buffer start stop count sound ordered inside within in
      rw answer (
        offered-Bounded error_of by_lease parse_trailers k s b (data_of (data_bytes taken)) offered
          rest _ kept busy good
          (omega (
            arith,
            some_taken,
            ap length left,
            length-drop count (bytes s.buffer),
            body_left-le s.decoder.state,
          )))

  act-Bounded :
      (r : Round) (s : Receiving) (outcome : DecodeOutcome H) (rest : Receiving → Received H)
      → IsSound s.buffer
      → Promises error_of by_lease parse_trailers k rest
      → InRange (length (bytes s.buffer)) (ok outcome)
      → Settled s.eof (s.decoder, ok outcome)
      → Moves (s.decoder, ok outcome)
      → Bounded
          (suc k)
          (length (bytes s.buffer) + open_input s.eof + 1)
          (act_on error_of by_lease parse_trailers r s outcome rest)
  unfolding act_on open_input is_complete
  act-Bounded r s (need_more count) rest sound good within more busy =
      consumed-Bounded s count _ _ sound within λ b kept shorter.
        more-Bounded (suc k) (suc k) _ _ (read_more error_of by_lease parse_trailers r s b rest)
          (answered-Bounded error_of by_lease parse_trailers k r s b rest more kept busy good)
          (omega (arith, shorter, ap open_input more))
  act-Bounded r s (payload start stop count) rest sound good within settled (some_taken, busy) =
      taken-Bounded s start stop count r.offered rest sound busy good some_taken within
  act-Bounded r s (trailer_fields fields count) rest sound good within over busy =
      consumed-Bounded s count _ _ sound within λ b kept shorter.
        offered-Bounded error_of by_lease parse_trailers k s b (trailers_of fields) r.offered rest _
          kept busy good (omega (arith, shorter, ap body_left over))
  act-Bounded r s (end count) rest sound good within settled busy =
      consumed-Bounded s count _ _ sound within λ b kept shorter. λ h. absurd (cc)

  decoded-Bounded :
      (r : Round) (s : Receiving) (answer : BodyDecoder × Result DecodeError (DecodeOutcome H))
      (rest : Receiving → Received H)
      → decode parse_trailers s.decoder (bytes s.buffer) s.eof ≡ answer
      → IsSound s.buffer
      → Busy s.decoder.state
      → Promises error_of by_lease parse_trailers k rest
      → Bounded
          (suc k)
          (length (bytes s.buffer) + open_input s.eof + 1)
          (decoded error_of by_lease parse_trailers r s answer rest)
  unfolding decoded charged
  decoded-Bounded r s (next, err e) rest at sound busy good = λ h. absurd (cc)
  decoded-Bounded r s (next, ok outcome) rest at sound busy good =
      go (charge_drain (set_budget r.drain_set s.budget) _ _)
    where
      answers : Answers s.decoder (length (bytes s.buffer)) (next, ok outcome)
      answers =
          rw at at (decode-Answers parse_trailers parses_within s.decoder (bytes s.buffer) s.eof)

      settled : Settled s.eof (next, ok outcome)
      settled = rw at at (decode-Settled parse_trailers s.decoder (bytes s.buffer) s.eof)

      moves : Moves (next, ok outcome)
      moves = rw at at (decode-Moves parse_trailers s.decoder (bytes s.buffer) s.eof busy)

      go :
          (charge : Result LimitKind (Option (ℕ × ℕ)))
          → Bounded (suc k) (length (bytes s.buffer) + open_input s.eof + 1) (
              charged error_of by_lease parse_trailers r
                (record s { decoder = next })
                outcome
                charge
                rest)
      go (err l) = λ h. absurd (cc)
      go (ok budget) =
          act-Bounded r (record s { decoder = next; budget = budget }) outcome rest sound good
            answers.range settled moves

  demand-Bounded :
      (r : Round) (s : Receiving) (demanded : Demanded) (rest : Receiving → Received H)
      → IsSound s.buffer
      → Busy s.decoder.state
      → Promises error_of by_lease parse_trailers k rest
      → Bounded
          (suc k)
          (length (bytes s.buffer) + open_input s.eof + 1)
          (demanded_then error_of by_lease parse_trailers r s demanded rest)
  unfolding demanded_then
  demand-Bounded r s wanted rest sound busy good =
      decoded-Bounded r s (decode parse_trailers s.decoder (bytes s.buffer) s.eof) rest refl sound
        busy good
  demand-Bounded r s unwanted rest sound busy good = λ h. absurd (cc)
  demand-Bounded r s interrupted rest sound busy good = λ h. absurd (cc)

  round-Bounded :
      (r : Round) (s : Receiving) (rest : Receiving → Received H)
      → IsSound s.buffer
      → Busy s.decoder.state
      → Promises error_of by_lease parse_trailers k rest
      → Bounded (suc k) (work s) (receive_round error_of by_lease parse_trailers r s rest)
  unfolding receive_round
  round-Bounded r s rest sound busy good = elim (Bool-cases (is_complete s.decoder.state)) [
    | inl over ↦ simp over (λ h. absurd (cc))
    | inr more ↦ simp more (
        rw (drop_lease-bytes r.lease_dropped s.buffer) at (
          demand-Bounded r (record s { buffer = drop_lease r.lease_dropped s.buffer }) r.demanded
            rest (drop_lease-IsSound r.lease_dropped s.buffer sound) busy good))
  ]

module _ (error_of : IoError → Error) (by_lease : Bool) {H : Type 0}
    (parse_trailers : ℕ → Bytes → Result DecodeError (ℕ × H))
    (parses_within : (n : ℕ) (block : Bytes) (k : ℕ) (fields : H)
      → parse_trailers n block ≡ ok (k, fields)
      → k ≤ length block) where
  loop-Bounded :
      (rounds : List Round) (s : Receiving)
      → IsSound s.buffer
      → Busy s.decoder.state
      → Bounded (length rounds) (work s) (receive_loop error_of by_lease parse_trailers rounds s)
  unfolding receive_loop
  loop-Bounded [] s sound busy = λ h. omega arith
  loop-Bounded (r ∷ rounds) s sound busy =
      round-Bounded error_of by_lease parse_trailers parses_within (length rounds) r s
        (receive_loop error_of by_lease parse_trailers rounds) sound busy (loop-Bounded rounds)

  -- A reception comes to an end: into a sound buffer, it is pending after its rounds only while
  -- there are no more of them than the bytes that were buffered, twice the bytes that arrived, and
  -- two for the end of the input and of the body. So the loop does not spin, whatever the consumer
  -- and the transport do.
  pub receive_body-Ends :
      (rounds : List Round) (mode : BodyMode) (limits : DecodeLimits) (b : RecvBuffer)
      → IsSound b
      → (receive_body error_of by_lease parse_trailers rounds b (with_limits mode limits)).ended
        ≡ none
      → length rounds
        ≤ length (bytes b)
          + 2
          + 2
            * length
                (receive_body error_of by_lease parse_trailers rounds b
                  (with_limits mode limits)).arrived
  unfolding receive_body with_limits open_input
  receive_body-Ends rounds mode limits b sound h =
      omega (
        arith,
        loop-Bounded rounds _ sound (initial-Busy mode) h,
        body_left-le (initial_state mode),
      )
