-- ===== src/Decode/Sound.antt =====
-- The decoder accepts nothing but well-formed bodies, and delivers their payload, however the
-- input is split between its calls.
use vakya.Prelude.{
  ℕ, ◌+◌, ◌-◌, ◌≤◌, ◌≡◌, refl, sym, ap, ◌∙◌, inl, inr, Bool, true, false, not, ◌&&◌, [], ◌∷◌, ◌++◌,
  arith, ltb, leb, ◌==◌, if◌then◌else◌, Bool-cases, length, take, drop, length-append, length-take,
  take-add, Bytes, Result, ok, err,
}
use vakya.Message.{BodyMode}
use mathlib.Core.Path.{subst}
use vakya.Chunk.{DecodeError, unexpected_eof}
use vakya.Decode.Input.{
  DecodeLimits, BodyDecoder, DecoderState, nothing, fixed_left, in_chunks, to_eof, done, failed,
  size_line, chunk_left, chunk_crlf, trailer_block, in_state, count_within, initial_state,
  with_limits,
}
use vakya.Decode.Scan.{byte_is}
use vakya.Decode.Reach.{crlf}
use vakya.Decode.Bounds.{decode-Answers, count_within-le}
use vakya.Decode.Grammar.{Rest, consumed_of, payload_of, Run, stop, call}
use vakya.Decode.{
  DecodeOutcome, need_more, payload, end, size_arm, crlf_arm, decode_chunked, decode_fixed,
  decode_to_eof, decode_in, decode,
}
use vakya.Decode.Steps.{Steps, starved-Steps, trailers-Steps, chunk-Steps, size-Steps}

module _ {H : Type 0} (parse_trailers : ℕ → Bytes → Result DecodeError (ℕ × H))
    (parses_within : (n : ℕ) (block : Bytes) (k : ℕ) (fields : H)
      → parse_trailers n block ≡ ok (k, fields)
      → k ≤ length block) where
  after_crlf :
      (n : ℕ) (input : Bytes) (r : BodyDecoder × Result DecodeError (DecodeOutcome H))
      → take 2 input ≡ crlf
      → Steps parse_trailers parses_within n input 2 (in_chunks (size_line 0)) r
      → Steps parse_trailers parses_within n input 0 (in_chunks chunk_crlf) r
  after_crlf n input (d', err e) starts steps = tt
  after_crlf n input (d', ok outcome) starts steps = λ wire body h.
      let (m, at, rest) = steps wire body h in
      (
        2 + m,
        omega (arith, at),
        record {
          wire_behind = take m (drop 2 input) ++ wire;
          wire_splits =
              ap (λ v. v ++ wire)
                (take-add 2 m input ∙ ap (λ v. v ++ take m (drop 2 input)) starts);
          chunked = rest;
        },
      )

  starts_crlf :
      (input : Bytes)
      → (byte_is b'\r' input 0 && byte_is b'\n' input 1) ≡ true
      → take 2 input ≡ crlf
  unfolding byte_is
  starts_crlf [] h = absurd (cc)
  starts_crlf (b ∷ []) h = absurd (ground arith)
  starts_crlf (b ∷ c ∷ cs) h = ground arith

  crlf-Steps :
      (n : ℕ) (d : BodyDecoder) (input : Bytes) (eof : Bool)
      → d.limits.max_trailers ≡ n
      → Steps parse_trailers parses_within n input 0
          (in_chunks chunk_crlf)
          (crlf_arm parse_trailers d input 0 eof)
  unfolding crlf_arm
  crlf-Steps n d input eof limits = elim (Bool-cases (ltb (length input) 2)) [
    | inl short ↦ elim (Bool-cases (leb 1 (length input) && not (byte_is b'\r' input 0))) [
      | inl bad ↦ rw (short, bad) tt
      | inr fine ↦
          rw (short, fine) (starved-Steps parse_trailers parses_within n d input eof chunk_crlf 0)
    ]
    | inr full ↦ elim (Bool-cases (byte_is b'\r' input 0 && byte_is b'\n' input 1)) [
      | inl starts ↦
          rw (full, starts)
            (after_crlf n input (size_arm parse_trailers d input 2 eof 0) (starts_crlf input starts)
              (size-Steps parse_trailers parses_within n d input 2 0 eof limits))
      | inr other ↦ rw (full, other) tt
    ]
  ]

  fixed-Steps :
      (n : ℕ) (d : BodyDecoder) (remaining : ℕ) (input : Bytes) (eof : Bool)
      → d.state ≡ fixed_left remaining
      → Steps parse_trailers parses_within n input 0
          (fixed_left remaining)
          (decode_fixed parse_trailers d remaining input eof)
  unfolding decode_fixed
  fixed-Steps n d remaining input eof state = elim (Bool-cases (remaining == 0)) [
    | inl complete ↦ rw complete λ wire body (w, b). (0, omega arith, (w ∙ sym b, ground arith))
    | inr more ↦ elim (Bool-cases (leb 1 (length input))) [
      | inl some_input ↦
          let count = count_within (length input) remaining in
          let le = count_within-le (length input) remaining in
          let same : count - 0 ≡ count = omega arith in
          rw (more, some_input)
            λ wire body (w, b). (
              count,
              omega arith,
              (
                rw same (ap (◌++◌ (take count input)) w),
                rw same
                    (omega (arith, length-append (take count input) body, length-take count input)),
              ),
            )
      | inr empty_input ↦ rw (more, empty_input) (waits eof)
    ]
  ]
    where
      waits :
          (e : Bool)
          → Steps parse_trailers parses_within n input 0 (fixed_left remaining) (
              if e
              then (in_state (failed unexpected_eof) d, err unexpected_eof)
              else (d, ok (need_more 0)))
      waits true = tt
      waits false = λ wire body h. (0, omega arith, rw state at h)

  eof-Steps :
      (n : ℕ) (d : BodyDecoder) (input : Bytes) (eof : Bool)
      → d.state ≡ to_eof
      → Steps parse_trailers parses_within n input 0 to_eof
          (decode_to_eof parse_trailers d input eof)
  unfolding decode_to_eof
  eof-Steps n d input eof state = elim (Bool-cases (leb 1 (length input))) [
    | inl some_input ↦ rw some_input (reads eof)
    | inr empty_input ↦ rw empty_input (ends eof)
  ]
    where
      whole_input : length input - 0 ≡ length input
      whole_input = omega arith

      reads :
          (e : Bool)
          → Steps parse_trailers parses_within n input 0 to_eof
              (if e then in_state done d else d, ok (payload 0 (length input) (length input)))
      reads true = λ wire body (w, b). (
        length input,
        omega arith,
        rw whole_input (ap (◌++◌ (take (length input) input)) (w ∙ sym b)),
      )
      reads false = λ wire body h. (
        length input,
        omega arith,
        rw whole_input (ap (◌++◌ (take (length input) input)) (rw state at h)),
      )

      ends :
          (e : Bool)
          → Steps parse_trailers parses_within n input 0 to_eof
              (if e then (in_state done d, ok (end 0)) else (d, ok (need_more 0)))
      ends true = λ wire body (w, b). (0, omega arith, w ∙ sym b)
      ends false = λ wire body h. (0, omega arith, rw state at h)

  decode_in-Steps :
      (n : ℕ) (d : BodyDecoder) (s : DecoderState) (input : Bytes) (eof : Bool)
      → d.limits.max_trailers ≡ n
      → d.state ≡ s
      → Steps parse_trailers parses_within n input 0 s (decode_in parse_trailers d s input eof)
  unfolding decode_in decode_chunked
  decode_in-Steps n d nothing input eof l e = λ wire body h. (0, omega arith, h)
  decode_in-Steps n d (fixed_left k) input eof l e = fixed-Steps n d k input eof e
  decode_in-Steps n d (in_chunks (size_line k)) input eof l e =
      size-Steps parse_trailers parses_within n d input 0 k eof l
  decode_in-Steps n d (in_chunks (chunk_left k)) input eof l e =
      chunk-Steps parse_trailers parses_within n d input 0 eof k
  decode_in-Steps n d (in_chunks chunk_crlf) input eof l e = crlf-Steps n d input eof l
  decode_in-Steps n d (in_chunks (trailer_block k)) input eof l e =
      trailers-Steps parse_trailers parses_within n k d input 0 eof l
  decode_in-Steps n d to_eof input eof l e = eof-Steps n d input eof e
  decode_in-Steps n d done input eof l e = λ wire body h. (0, omega arith, rw e at h)
  decode_in-Steps n d (failed x) input eof l e = tt

  -- One call, at any of its successful outcomes.
  pub call-Rest :
      (d next : BodyDecoder) (input : Bytes) (eof : Bool) (outcome : DecodeOutcome H)
      (wire body : Bytes)
      → decode parse_trailers d input eof ≡ (next, ok outcome)
      → Rest parse_trailers d.limits.max_trailers next.state wire body
      → Rest parse_trailers d.limits.max_trailers d.state
          (take (consumed_of outcome) input ++ wire)
          (payload_of outcome input ++ body)
  unfolding decode
  call-Rest d next input eof outcome wire body e h =
      let steps : Steps parse_trailers parses_within d.limits.max_trailers input 0 d.state
          (next, ok outcome) =
        rw e at (decode_in-Steps d.limits.max_trailers d d.state input eof refl refl) in
      let (m, at, rest) = steps wire body h in
      let same : consumed_of outcome ≡ m = omega arith in rw same rest

  Run-Rest :
      {final d : BodyDecoder} {wire body : Bytes}
      → Run parse_trailers final d wire body
      → final.state ≡ done
      → Rest parse_trailers d.limits.max_trailers d.state wire body
  Run-Rest stop e = rw e (refl, refl)
  Run-Rest (call {d} {next} input eof {outcome} {wire} {body} e r) ends =
      let w = rw e at (decode-Answers parse_trailers parses_within d input eof).within in
      call-Rest d next input eof outcome wire body e (
        subst (λ l. Rest parse_trailers l.max_trailers next.state wire body) w.same_limits
          (Run-Rest r ends))

  -- If calls of `decode`, from a decoder for a body of framing `mode` on, reach the end of the
  -- body, then what they consumed is a well-formed body of that framing and what they delivered
  -- is its payload, whatever pieces the input came in. With chunks: the chunked coding of the
  -- payload with its size lines, line ends and trailer block. With a fixed length: that many
  -- bytes, delivered as they are. With no body: nothing.
  pub decoded-Run :
      {final : BodyDecoder} {wire body : Bytes} (mode : BodyMode) (limits : DecodeLimits)
      → Run parse_trailers final (with_limits mode limits) wire body
      → final.state ≡ done
      → Rest parse_trailers limits.max_trailers (initial_state mode) wire body
  unfolding with_limits
  decoded-Run mode limits r e = Run-Rest r e
