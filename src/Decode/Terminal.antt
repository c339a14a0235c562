-- ===== src/Decode/Terminal.antt =====
-- How a body ends: an answer that ends or breaks it is final, and the input that ends decides.
use vakya.Prelude.{ℕ, ◌+◌, ◌≡◌, refl, Bool, true, false, arith, drop, Bytes, Result, ok, err}
use vakya.Chunk.{DecodeError}
use vakya.Decode.Input.{
  BodyDecoder, DecoderState, nothing, fixed_left, in_chunks, to_eof, done, failed, ChunkState,
  size_line, chunk_left, chunk_crlf, trailer_block, ChunkLine, whole, partial, parse_chunk_line,
  TrailerEnd, block_of, scanned_to, trailer_end,
}
use vakya.Decode.{
  DecodeOutcome, need_more, payload, trailer_fields, end, starved, decode_trailers, trailers_parsed,
  trailers_scanned, line_read, chunk_arm, size_arm, crlf_arm, decode_chunked, decode_fixed,
  decode_to_eof, decode_in, decode,
}

-- The state that a call leaves says what it answered: an error is kept, and the body is done
-- after its trailers or its end.
abbrev pub Settled :
    {H : Type 0} → (eof : Bool) → BodyDecoder × Result DecodeError (DecodeOutcome H) → Type 0
Settled eof (d, err e) = d.state ≡ failed e
Settled eof (d, ok (need_more consumed)) = eof ≡ false
Settled eof (d, ok (payload start stop consumed)) = Unit
Settled eof (d, ok (trailer_fields fields consumed)) = d.state ≡ done
Settled eof (d, ok (end consumed)) = (consumed ≡ 0) × (d.state ≡ done)

module _ {H : Type 0} (parse_trailers : ℕ → Bytes → Result DecodeError (ℕ × H)) where
  starved-Settled :
      (d : BodyDecoder) (eof : Bool) (s : ChunkState) (cursor : ℕ)
      → Settled eof (starved parse_trailers d eof s cursor)
  unfolding starved
  starved-Settled d true s cursor = refl
  starved-Settled d false s cursor = refl

  parsed-Settled :
      (d : BodyDecoder) (eof : Bool) (cursor : ℕ) (p : Result DecodeError (ℕ × H))
      → Settled eof (trailers_parsed parse_trailers d cursor p)
  unfolding trailers_parsed
  parsed-Settled d eof cursor (err e) = refl
  parsed-Settled d eof cursor (ok (consumed, fields)) = refl

  scanned-Settled :
      (d : BodyDecoder) (available : Bytes) (cursor : ℕ) (eof : Bool)
      (t : Result DecodeError TrailerEnd)
      → Settled eof (trailers_scanned parse_trailers d available cursor eof t)
  unfolding trailers_scanned
  scanned-Settled d available cursor eof (err e) = refl
  scanned-Settled d available cursor eof (ok (scanned_to bounded)) =
      starved-Settled d eof (trailer_block bounded) cursor
  scanned-Settled d available cursor eof (ok (block_of bytes)) = parsed-Settled d eof cursor _

  trailers-Settled :
      (d : BodyDecoder) (input : Bytes) (cursor : ℕ) (eof : Bool) (scanned : ℕ)
      → Settled eof (decode_trailers parse_trailers d input cursor eof scanned)
  unfolding decode_trailers
  trailers-Settled d input cursor eof scanned =
      scanned-Settled d (drop cursor input) cursor eof (trailer_end d (drop cursor input) scanned)

  chunk-Settled :
      (d : BodyDecoder) (input : Bytes) (cursor : ℕ) (eof : Bool) (remaining : ℕ)
      → Settled eof (chunk_arm parse_trailers d input cursor eof remaining)
  unfolding chunk_arm
  chunk-Settled d input cursor eof remaining =
      ground (arith, starved-Settled d eof (chunk_left remaining) cursor)

  line-Settled :
      (d : BodyDecoder) (input : Bytes) (cursor : ℕ) (eof : Bool) (l : Result DecodeError ChunkLine)
      → Settled eof (line_read parse_trailers d input cursor eof l)
  unfolding line_read
  line-Settled d input cursor eof (err e) = refl
  line-Settled d input cursor eof (ok (partial s)) = starved-Settled d eof (size_line s) cursor
  line-Settled d input cursor eof (ok (whole size consumed charged)) = ground (
    arith,
    trailers-Settled charged input (cursor + consumed) eof 0,
    chunk-Settled charged input (cursor + consumed) eof size,
  )

  size-Settled :
      (d : BodyDecoder) (input : Bytes) (cursor : ℕ) (eof : Bool) (scanned : ℕ)
      → Settled eof (size_arm parse_trailers d input cursor eof scanned)
  unfolding size_arm
  size-Settled d input cursor eof scanned =
      line-Settled d input cursor eof (parse_chunk_line d (drop cursor input) scanned)

  crlf-Settled :
      (d : BodyDecoder) (input : Bytes) (eof : Bool)
      → Settled eof (crlf_arm parse_trailers d input 0 eof)
  unfolding crlf_arm
  crlf-Settled d input eof =
      ground (arith, starved-Settled d eof chunk_crlf 0, size-Settled d input 2 eof 0)

  fixed-Settled :
      (d : BodyDecoder) (remaining : ℕ) (input : Bytes) (eof : Bool)
      → Settled eof (decode_fixed parse_trailers d remaining input eof)
  unfolding decode_fixed
  fixed-Settled d remaining input true = ground arith
  fixed-Settled d remaining input false = ground arith

  eof-Settled :
      (d : BodyDecoder) (input : Bytes) (eof : Bool)
      → Settled eof (decode_to_eof parse_trailers d input eof)
  unfolding decode_to_eof
  eof-Settled d input true = ground arith
  eof-Settled d input false = ground arith

  decode_in-Settled :
      (d : BodyDecoder) (s : DecoderState) (input : Bytes) (eof : Bool)
      → d.state ≡ s
      → Settled eof (decode_in parse_trailers d s input eof)
  unfolding decode_in decode_chunked
  decode_in-Settled d nothing input eof h = (refl, refl)
  decode_in-Settled d (fixed_left n) input eof h = fixed-Settled d n input eof
  decode_in-Settled d (in_chunks (size_line n)) input eof h = size-Settled d input 0 eof n
  decode_in-Settled d (in_chunks (chunk_left n)) input eof h = chunk-Settled d input 0 eof n
  decode_in-Settled d (in_chunks chunk_crlf) input eof h = crlf-Settled d input eof
  decode_in-Settled d (in_chunks (trailer_block n)) input eof h = trailers-Settled d input 0 eof n
  decode_in-Settled d to_eof input eof h = eof-Settled d input eof
  decode_in-Settled d done input eof h = (refl, h)
  decode_in-Settled d (failed e) input eof h = h

  -- Every call of `decode` leaves a state that fits its answer: after an error the decoder keeps
  -- that error, after trailers or the end of the body it is done, and it asks for more input only
  -- when the stream has not ended.
  pub decode-Settled :
      (d : BodyDecoder) (input : Bytes) (eof : Bool)
      → Settled eof (decode parse_trailers d input eof)
  unfolding decode
  decode-Settled d input eof = decode_in-Settled d d.state input eof refl

  -- An error of `decode` is final: whatever a later call is given, it repeats the error and
  -- leaves the decoder as it is.
  pub decode-error_stays :
      (d d' : BodyDecoder) (input later : Bytes) (eof eof' : Bool) (e : DecodeError)
      → decode parse_trailers d input eof ≡ (d', err e)
      → decode parse_trailers d' later eof' ≡ (d', err e)
  unfolding decode decode_in
  decode-error_stays d d' input later eof eof' e h =
      let kept : d'.state ≡ failed e = rw h at (decode-Settled d input eof) in rw (kept) refl
