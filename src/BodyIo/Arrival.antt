-- ===== src/BodyIo/Arrival.antt =====
-- A body as it arrives, round by round.
use vakya.Prelude.{
  ℕ, ◌≤◌, ◌≡◌, refl, sym, ap, ◌∙◌, ◌≢◌, inl, inr, Bool, true, false, Option, none, some, List, [],
  ◌∷◌, ◌++◌, ==_iff, Bool-cases, length, Bytes, Result, ok, err,
}
use vakya.Message.{Error, BodyMode, LimitKind}
use vakya.Chunk.{DecodeError}
use vakya.Decode.Input.{
  BodyDecoder, DecodeLimits, DecoderState, nothing, fixed_left, done, in_chunks, to_eof,
  is_complete, initial_state, with_limits,
}
use vakya.Decode.{DecodeOutcome, need_more, payload, trailer_fields, end, decode}
use vakya.Decode.Bounds.{Answers, decode-Answers}
use vakya.Decode.Grammar.{Rest}
use vakya.Decode.Sound.{call-Rest}
use vakya.Decode.Terminal.{Settled, decode-Settled}
use vakya.Io.{IoError}
use vakya.Io.Recv.{RecvBuffer, bytes}
use vakya.Io.Retained.{IsSound}
use vakya.BodyIo.Receive.{
  charged, decoded, demanded_then, receive_round, receive_loop, receive_body,
}
use vakya.BodyIo.Rounds.{
  Round, completed, abandoned_end, panicked, failed, Received, Receiving, drop_lease, set_budget,
  charge_drain, Demanded, wanted, unwanted, interrupted,
}
use vakya.BodyIo.Arrives.{
  body_of, stopped-Arrives, completed-Arrives, drop_lease-IsSound, drop_lease-bytes,
}
use vakya.BodyIo.Handover.{At, Promises}
use vakya.BodyIo.Acting.{act-Arrives}

module _ (error_of : IoError → Error) (by_lease : Bool) where
  module _ {H : Type 0} (parse_trailers : ℕ → Bytes → Result DecodeError (ℕ × H))
      (parses_within : (n : ℕ) (block : Bytes) (k : ℕ) (fields : H)
        → parse_trailers n block ≡ ok (k, fields)
        → k ≤ length block)
      (n : ℕ) where
    decoded-Arrives :
        (r : Round) (s : Receiving) (answer : BodyDecoder × Result DecodeError (DecodeOutcome H))
        (rest : Receiving → Received H)
        → decode parse_trailers s.decoder (bytes s.buffer) s.eof ≡ answer
        → IsSound s.buffer
        → s.decoder.limits.max_trailers ≡ n
        → Promises error_of by_lease parse_trailers n rest
        → At error_of by_lease parse_trailers n s
            (decoded error_of by_lease parse_trailers r s answer rest)
    unfolding decoded charged
    decoded-Arrives r s (next, err e) rest at sound limits good =
        stopped-Arrives (bytes s.buffer) s.buffer (failed _) tt sound
    decoded-Arrives r s (next, ok outcome) rest at sound limits good =
        go (charge_drain (set_budget r.drain_set s.budget) _ _)
      where
        answers : Answers s.decoder (length (bytes s.buffer)) (next, ok outcome)
        answers =
            rw at at (decode-Answers parse_trailers parses_within s.decoder (bytes s.buffer) s.eof)

        kept_limits : next.limits.max_trailers ≡ n
        kept_limits = ap (λ l. l.max_trailers) answers.within.same_limits ∙ limits

        settled : Settled s.eof (next, ok outcome)
        settled = rw at at (decode-Settled parse_trailers s.decoder (bytes s.buffer) s.eof)

        go :
            (charge : Result LimitKind (Option (ℕ × ℕ)))
            → At error_of by_lease parse_trailers n s (
                charged error_of by_lease parse_trailers r
                  (record s { decoder = next })
                  outcome
                  charge
                  rest)
        go (err l) = stopped-Arrives (bytes s.buffer) s.buffer (failed _) tt sound
        go (ok budget) =
            act-Arrives error_of by_lease parse_trailers n (Rest parse_trailers n s.decoder.state) r
              (record s { decoder = next; budget = budget }) s.eof outcome rest sound kept_limits
              good answers.range settled
              (λ wire body h. rw limits at (
                call-Rest parse_trailers parses_within s.decoder next (bytes s.buffer) s.eof outcome
                  wire body at (rw (sym limits) at h)))

    demand-Arrives :
        (r : Round) (s : Receiving) (demanded : Demanded) (rest : Receiving → Received H)
        → IsSound s.buffer
        → s.decoder.limits.max_trailers ≡ n
        → Promises error_of by_lease parse_trailers n rest
        → At error_of by_lease parse_trailers n s
            (demanded_then error_of by_lease parse_trailers r s demanded rest)
    unfolding demanded_then
    demand-Arrives r s wanted rest sound limits good =
        decoded-Arrives r s (decode parse_trailers s.decoder (bytes s.buffer) s.eof) rest refl sound
          limits good
    demand-Arrives r s unwanted rest sound limits good =
        stopped-Arrives (bytes s.buffer) s.buffer abandoned_end tt sound
    demand-Arrives r s interrupted rest sound limits good =
        stopped-Arrives (bytes s.buffer) s.buffer (failed _) tt sound

    is_complete-Rest :
        (state : DecoderState) → is_complete state ≡ true → Rest parse_trailers n state [] []
    unfolding is_complete
    is_complete-Rest nothing h = (refl, refl)
    is_complete-Rest (fixed_left remaining) h = (refl, sym ((==_iff remaining 0).0 h))
    is_complete-Rest done h = (refl, refl)
    is_complete-Rest (in_chunks state) h = absurd (cc)
    is_complete-Rest to_eof h = absurd (cc)
    is_complete-Rest (vakya.Decode.Input.failed e) h = absurd (cc)

    round-Arrives :
        (r : Round) (s : Receiving) (rest : Receiving → Received H)
        → IsSound s.buffer
        → s.decoder.limits.max_trailers ≡ n
        → Promises error_of by_lease parse_trailers n rest
        → At error_of by_lease parse_trailers n s
            (receive_round error_of by_lease parse_trailers r s rest)
    unfolding receive_round
    round-Arrives r s rest sound limits good = elim (Bool-cases (is_complete s.decoder.state)) [
      | inl over ↦
          simp over (completed-Arrives s.buffer (is_complete-Rest s.decoder.state over) sound)
      | inr more ↦ simp more (
          rw (drop_lease-bytes r.lease_dropped s.buffer) at (
            demand-Arrives r (record s { buffer = drop_lease r.lease_dropped s.buffer }) r.demanded
              rest (drop_lease-IsSound r.lease_dropped s.buffer sound) limits good))
    ]

    loop-Arrives :
        (rounds : List Round) (s : Receiving)
        → IsSound s.buffer
        → s.decoder.limits.max_trailers ≡ n
        → At error_of by_lease parse_trailers n s
            (receive_loop error_of by_lease parse_trailers rounds s)
    unfolding receive_loop
    loop-Arrives [] s sound limits = record {
      unbroken = λ h. cc;
      sound = sound;
      complete = λ h. absurd (cc);
    }
    loop-Arrives (r ∷ rounds) s sound limits =
        round-Arrives r s (receive_loop error_of by_lease parse_trailers rounds) sound limits
          (loop-Arrives rounds)

  -- Whatever the consumer and the transport do in its rounds, a reception into a sound buffer does
  -- not panic, and leaves a sound buffer.
  pub receive_body-IsSound :
      {H : Type 0} (parse_trailers : ℕ → Bytes → Result DecodeError (ℕ × H))
      (parses_within : (n : ℕ) (block : Bytes) (k : ℕ) (fields : H)
        → parse_trailers n block ≡ ok (k, fields)
        → k ≤ length block)
      (rounds : List Round) (b : RecvBuffer) (d : BodyDecoder)
      → IsSound b
      → ((receive_body error_of by_lease parse_trailers rounds b d).ended ≢ some panicked)
        × IsSound (receive_body error_of by_lease parse_trailers rounds b d).buffer
  unfolding receive_body
  receive_body-IsSound parse_trailers parses_within rounds b d sound =
      let arrives =
        loop-Arrives parse_trailers parses_within d.limits.max_trailers rounds _ sound refl in
      (arrives.unbroken, arrives.sound)

  -- When a reception of a body of framing `mode` into a sound buffer completes, what it took off
  -- the front of its input, of what was buffered and then of what arrived, is a well-formed body
  -- of that framing, and the data frames that it handed over are its payload, in order and without
  -- loss; what came behind the body stays in the buffer for the next head.
  pub receive_body-Arrives :
      {H : Type 0} (parse_trailers : ℕ → Bytes → Result DecodeError (ℕ × H))
      (parses_within : (n : ℕ) (block : Bytes) (k : ℕ) (fields : H)
        → parse_trailers n block ≡ ok (k, fields)
        → k ≤ length block)
      (rounds : List Round) (mode : BodyMode) (limits : DecodeLimits) (b : RecvBuffer)
      (t : Received H)
      → IsSound b
      → receive_body error_of by_lease parse_trailers rounds b (with_limits mode limits) ≡ t
      → t.ended ≡ some completed
      → (wire : Bytes) × (bytes b ++ t.arrived ≡ wire ++ bytes t.buffer)
        × Rest parse_trailers limits.max_trailers (initial_state mode) wire (body_of t.delivered)
  unfolding receive_body with_limits
  receive_body-Arrives parse_trailers parses_within rounds mode limits b t sound at ends =
      let arrives = rw at at (
        loop-Arrives parse_trailers parses_within limits.max_trailers rounds
          (record { buffer = b; decoder = with_limits mode limits; budget = none; eof = false })
          sound refl) in
      arrives.complete ends
