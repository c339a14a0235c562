-- ===== src/Decode/Bounds.antt =====
-- What `decode` answers lies within its input, and its extension budget is kept.
use vakya.Prelude.{
  ℕ, ◌+◌, ◌-◌, ◌≤◌, ◌≡◌, refl, ap, ◌∙◌, inl, inr, Bool, true, false, arith, ◌==◌, Bool-cases,
  length, take, drop, length-take, length-drop, Bytes, Result, ok, err,
}
use vakya.Chunk.{DecodeError, invalid_chunk_terminator}
use vakya.Decode.Input.{
  BodyDecoder, DecoderState, nothing, fixed_left, in_chunks, to_eof, done, failed, ChunkState,
  size_line, chunk_left, chunk_crlf, trailer_block, in_state, count_within, ChunkLine, whole,
  partial, parse_chunk_line, TrailerEnd, block_of, scanned_to, trailer_end,
}
use vakya.Decode.Reach.{Within, parse_chunk_line-LineRead}
use vakya.Decode.{
  DecodeOutcome, need_more, payload, trailer_fields, end, starved, decode_trailers, trailers_parsed,
  trailers_scanned, line_read, chunk_arm, size_arm, crlf_arm, decode_chunked, decode_fixed,
  decode_to_eof, decode_in, decode,
}

-- The reported prefix, and the payload before its end, lie within `len` bytes of input.
abbrev pub InRange : {H : Type 0} → ℕ → Result DecodeError (DecodeOutcome H) → Type 0
InRange len (err e) = Unit
InRange len (ok (need_more consumed)) = consumed ≤ len
InRange len (ok (payload start stop consumed)) =
    (start ≤ stop) × (stop ≤ consumed) × (consumed ≤ len)
InRange len (ok (trailer_fields fields consumed)) = consumed ≤ len
InRange len (ok (end consumed)) = consumed ≤ len

-- An answer to an input of `len` bytes.
pub record Answers {H : Type 0} (d : BodyDecoder) (len : ℕ)
    (r : BodyDecoder × Result DecodeError (DecodeOutcome H)) : Type 0 where
  pub range : InRange len r.1
  pub within : Within d r.0

Within-refl : (d : BodyDecoder) (s : DecoderState) → Within d (in_state s d)
Within-refl d s = record { same_limits = refl; budget = λ h. h; grows = omega arith }

Within-trans : {a b c : BodyDecoder} → Within a b → Within b c → Within a c
Within-trans {a} {b} {c} p q = record {
  same_limits = q.same_limits ∙ p.same_limits;
  budget = λ h.
      let same = ap (λ l. l.max_chunk_extension_bytes) p.same_limits in
      let kept = p.budget h in ground arith;
  grows = omega (arith, p.grows, q.grows);
}

-- The same answer, for the decoder before a chunk line was charged.
Answers-charged :
    {H : Type 0} {d d' : BodyDecoder} (len : ℕ)
    (r : BodyDecoder × Result DecodeError (DecodeOutcome H))
    → Within d d'
    → Answers d' len r
    → Answers d len r
Answers-charged len r w a = record { range = a.range; within = Within-trans w a.within }

pub count_within-le :
    (len remaining : ℕ)
    → (count_within len remaining ≤ len) × (count_within len remaining ≤ remaining)
unfolding count_within
count_within-le len remaining = ground arith

module _ {H : Type 0} (parse_trailers : ℕ → Bytes → Result DecodeError (ℕ × H))
    (parses_within : (n : ℕ) (block : Bytes) (k : ℕ) (fields : H)
      → parse_trailers n block ≡ ok (k, fields)
      → k ≤ length block) where
  starved-Answers :
      (d : BodyDecoder) (eof : Bool) (s : ChunkState) (cursor len : ℕ)
      → cursor ≤ len
      → Answers d len (starved parse_trailers d eof s cursor)
  unfolding starved
  starved-Answers d true s cursor len h = record { range = tt; within = Within-refl d _ }
  starved-Answers d false s cursor len h = record { range = h; within = Within-refl d _ }

  parsed-Answers :
      (d : BodyDecoder) (cursor len n : ℕ) (block : Bytes) (p : Result DecodeError (ℕ × H))
      → parse_trailers n block ≡ p
      → cursor + length block ≤ len
      → Answers d len (trailers_parsed parse_trailers d cursor p)
  unfolding trailers_parsed
  parsed-Answers d cursor len n block (err e) h fits = record {
    range = tt;
    within = Within-refl d _;
  }
  parsed-Answers d cursor len n block (ok (consumed, fields)) h fits = record {
    range = omega (arith, parses_within n block consumed fields h);
    within = Within-refl d _;
  }

  scanned-Answers :
      (d : BodyDecoder) (available : Bytes) (cursor len scanned : ℕ) (eof : Bool)
      (t : Result DecodeError TrailerEnd)
      → trailer_end d available scanned ≡ t
      → cursor + length available ≤ len
      → Answers d len (trailers_scanned parse_trailers d available cursor eof t)
  unfolding trailers_scanned
  scanned-Answers d available cursor len scanned eof (err e) h fits = record {
    range = tt;
    within = Within-refl d _;
  }
  scanned-Answers d available cursor len scanned eof (ok (scanned_to bounded)) h fits =
      starved-Answers d eof (trailer_block bounded) cursor len (omega arith)
  scanned-Answers d available cursor len scanned eof (ok (block_of bytes)) h fits =
      let block = take bytes available in
      parsed-Answers d cursor len d.limits.max_trailers block _ refl
        (omega (arith, length-take bytes available))

  trailers-Answers :
      (d : BodyDecoder) (input : Bytes) (cursor : ℕ) (eof : Bool) (scanned : ℕ)
      → cursor ≤ length input
      → Answers d (length input) (decode_trailers parse_trailers d input cursor eof scanned)
  unfolding decode_trailers
  trailers-Answers d input cursor eof scanned h =
      scanned-Answers d (drop cursor input) cursor (length input) scanned eof _ refl
        (omega (arith, length-drop cursor input))

  chunk-Answers :
      (d : BodyDecoder) (input : Bytes) (cursor : ℕ) (eof : Bool) (remaining : ℕ)
      → cursor ≤ length input
      → Answers d (length input) (chunk_arm parse_trailers d input cursor eof remaining)
  unfolding chunk_arm
  chunk-Answers d input cursor eof remaining h = elim (Bool-cases (cursor == length input)) [
    | inl all_read ↦
        rw all_read (starved-Answers d eof (chunk_left remaining) cursor (length input) h)
    | inr more ↦
        let le = count_within-le (length input - cursor) remaining in
        rw more (record { range = omega arith; within = Within-refl d _ })
  ]

  line-Answers :
      (d : BodyDecoder) (input : Bytes) (cursor scanned : ℕ) (eof : Bool)
      (l : Result DecodeError ChunkLine)
      → parse_chunk_line d (drop cursor input) scanned ≡ l
      → cursor ≤ length input
      → Answers d (length input) (line_read parse_trailers d input cursor eof l)
  unfolding line_read
  line-Answers d input cursor scanned eof (err e) h fits = record {
    range = tt;
    within = Within-refl d _;
  }
  line-Answers d input cursor scanned eof (ok (partial s)) h fits =
      starved-Answers d eof (size_line s) cursor (length input) fits
  line-Answers d input cursor scanned eof (ok (whole size consumed charged)) h fits =
      let read = parse_chunk_line-LineRead d charged (drop cursor input) scanned size consumed h in
      let next : cursor + consumed ≤ length input =
        omega (arith, read.taken, length-drop cursor input) in
      elim (Bool-cases (size == 0)) [
        | inl last ↦ rw last (
            Answers-charged (length input) _ read.within
              (trailers-Answers charged input (cursor + consumed) eof 0 next))
        | inr more ↦ rw more (
            Answers-charged (length input) _ read.within
              (chunk-Answers charged input (cursor + consumed) eof size next))
      ]

  size-Answers :
      (d : BodyDecoder) (input : Bytes) (cursor : ℕ) (eof : Bool) (scanned : ℕ)
      → cursor ≤ length input
      → Answers d (length input) (size_arm parse_trailers d input cursor eof scanned)
  unfolding size_arm
  size-Answers d input cursor eof scanned h = line-Answers d input cursor scanned eof _ refl h

  crlf-Answers :
      (d : BodyDecoder) (input : Bytes) (eof : Bool)
      → Answers d (length input) (crlf_arm parse_trailers d input 0 eof)
  unfolding crlf_arm
  crlf-Answers d input eof = ground (
    arith,
    Within-refl d (failed invalid_chunk_terminator),
    starved-Answers d eof chunk_crlf 0 (length input) (omega arith),
    size-Answers d input 2 eof 0,
  )

  fixed-Answers :
      (d : BodyDecoder) (remaining : ℕ) (input : Bytes) (eof : Bool)
      → Answers d (length input) (decode_fixed parse_trailers d remaining input eof)
  unfolding decode_fixed
  fixed-Answers d remaining input eof = ground (arith, count_within-le (length input) remaining)

  eof-Answers :
      (d : BodyDecoder) (input : Bytes) (eof : Bool)
      → Answers d (length input) (decode_to_eof parse_trailers d input eof)
  unfolding decode_to_eof
  eof-Answers d input eof = ground arith

  decode_in-Answers :
      (d : BodyDecoder) (s : DecoderState) (input : Bytes) (eof : Bool)
      → Answers d (length input) (decode_in parse_trailers d s input eof)
  unfolding decode_in decode_chunked
  decode_in-Answers d nothing input eof = record { range = omega arith; within = Within-refl d _ }
  decode_in-Answers d (fixed_left n) input eof = fixed-Answers d n input eof
  decode_in-Answers d (in_chunks (size_line n)) input eof =
      size-Answers d input 0 eof n (omega arith)
  decode_in-Answers d (in_chunks (chunk_left n)) input eof =
      chunk-Answers d input 0 eof n (omega arith)
  decode_in-Answers d (in_chunks chunk_crlf) input eof = crlf-Answers d input eof
  decode_in-Answers d (in_chunks (trailer_block n)) input eof =
      trailers-Answers d input 0 eof n (omega arith)
  decode_in-Answers d to_eof input eof = eof-Answers d input eof
  decode_in-Answers d done input eof = record {
    range = omega arith;
    within = Within-refl d d.state;
  }
  decode_in-Answers d (failed e) input eof = record { range = tt; within = Within-refl d d.state }

  -- Whatever state and input `decode` is called with, the prefix that it reports lies within the
  -- input and the payload within that prefix, the limits stay, the bytes charged for chunk
  -- extensions never fall, and they are within their limit after the call if they were before it.
  -- It needs that the parse of the trailers takes no more bytes than it is given.
  pub decode-Answers :
      (d : BodyDecoder) (input : Bytes) (eof : Bool)
      → Answers d (length input) (decode parse_trailers d input eof)
  unfolding decode
  decode-Answers d input eof = decode_in-Answers d d.state input eof
