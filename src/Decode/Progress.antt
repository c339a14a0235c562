-- ===== src/Decode/Progress.antt =====
-- Every payload that the decoder answers takes input with it.
use vakya.Prelude.{
  ℕ, ◌+◌, ◌≤◌, ◌≡◌, refl, inl, inr, Bool, true, false, arith, ◌==◌, if◌then◌else◌, Bool-cases,
  length, drop, length-drop, Bytes, Result, ok, err,
}
use vakya.Message.{BodyMode, empty, fixed, chunked, until_eof}
use vakya.Chunk.{DecodeError}
use vakya.Decode.Input.{
  ChunkState, size_line, chunk_left, chunk_crlf, trailer_block, DecoderState, nothing, fixed_left,
  in_chunks, to_eof, done, failed, BodyDecoder, in_state, count_within, ChunkLine, whole, partial,
  parse_chunk_line, TrailerEnd, block_of, scanned_to, trailer_end, initial_state,
}
use vakya.Decode.Reach.{parse_chunk_line-LineRead}
use vakya.Decode.{
  DecodeOutcome, need_more, payload, trailer_fields, end, starved, decode_trailers, trailers_parsed,
  trailers_scanned, line_read, chunk_arm, size_arm, crlf_arm, decode_chunked, decode_fixed,
  decode_to_eof, decode_in, decode,
}

-- A chunk that is being read has bytes left.
abbrev pub Busy : DecoderState → Type 0
Busy (in_chunks (chunk_left remaining)) = 1 ≤ remaining
Busy (in_chunks (size_line scanned)) = Unit
Busy (in_chunks chunk_crlf) = Unit
Busy (in_chunks (trailer_block scanned)) = Unit
Busy nothing = Unit
Busy (fixed_left remaining) = Unit
Busy to_eof = Unit
Busy done = Unit
Busy (failed e) = Unit

abbrev pub Moves : {H : Type 0} → BodyDecoder × Result DecodeError (DecodeOutcome H) → Type 0
Moves (d, err e) = Unit
Moves (d, ok (payload start stop consumed)) = (1 ≤ consumed) × Busy d.state
Moves (d, ok (need_more consumed)) = Busy d.state
Moves (d, ok (trailer_fields fields consumed)) = Busy d.state
Moves (d, ok (end consumed)) = Busy d.state

module _ {H : Type 0} (parse_trailers : ℕ → Bytes → Result DecodeError (ℕ × H)) where
  starved-Moves :
      (d : BodyDecoder) (eof : Bool) (s : ChunkState) (cursor : ℕ)
      → Busy (in_chunks s)
      → Moves (starved parse_trailers d eof s cursor)
  unfolding starved
  starved-Moves d true s cursor busy = tt
  starved-Moves d false s cursor busy = busy

  parsed-Moves :
      (d : BodyDecoder) (cursor : ℕ) (p : Result DecodeError (ℕ × H))
      → Moves (trailers_parsed parse_trailers d cursor p)
  unfolding trailers_parsed
  parsed-Moves d cursor (err e) = tt
  parsed-Moves d cursor (ok (consumed, fields)) = tt

  scanned-Moves :
      (d : BodyDecoder) (available : Bytes) (cursor : ℕ) (eof : Bool)
      (t : Result DecodeError TrailerEnd)
      → Moves (trailers_scanned parse_trailers d available cursor eof t)
  unfolding trailers_scanned
  scanned-Moves d available cursor eof (err e) = tt
  scanned-Moves d available cursor eof (ok (scanned_to bounded)) =
      starved-Moves d eof (trailer_block bounded) cursor tt
  scanned-Moves d available cursor eof (ok (block_of bytes)) = parsed-Moves d cursor _

  trailers-Moves :
      (d : BodyDecoder) (input : Bytes) (cursor : ℕ) (eof : Bool) (scanned : ℕ)
      → Moves (decode_trailers parse_trailers d input cursor eof scanned)
  unfolding decode_trailers
  trailers-Moves d input cursor eof scanned =
      scanned-Moves d (drop cursor input) cursor eof (trailer_end d (drop cursor input) scanned)

  -- The payload of a chunk, where there is input and some of the chunk is left.
  taken-Moves :
      (d : BodyDecoder) (cursor count left : ℕ)
      → 1 ≤ count
      → Moves {H = H} (
        in_state (in_chunks (if left == 0 then chunk_crlf else chunk_left left)) d,
        ok (payload cursor (cursor + count) (cursor + count)),
      )
  taken-Moves d cursor count left some_taken = elim (Bool-cases (left == 0)) [
    | inl over ↦ rw over (omega arith, tt)
    | inr more ↦ rw more (omega arith, ground arith)
  ]

  chunk-Moves :
      (d : BodyDecoder) (input : Bytes) (cursor : ℕ) (eof : Bool) (remaining : ℕ)
      → cursor ≤ length input
      → 1 ≤ remaining
      → Moves (chunk_arm parse_trailers d input cursor eof remaining)
  unfolding chunk_arm count_within
  chunk-Moves d input cursor eof remaining within busy =
      elim (Bool-cases (cursor == length input)) [
        | inl empty_input ↦ rw empty_input (starved-Moves d eof (chunk_left remaining) cursor busy)
        | inr some_input ↦ rw some_input (taken-Moves d cursor _ _ (ground arith))
      ]

  fixed-Moves :
      (d : BodyDecoder) (remaining : ℕ) (input : Bytes) (eof : Bool)
      → Busy d.state
      → Moves (decode_fixed parse_trailers d remaining input eof)
  unfolding decode_fixed count_within
  fixed-Moves d remaining input true busy = ground arith
  fixed-Moves d remaining input false busy = ground arith

  eof-Moves :
      (d : BodyDecoder) (input : Bytes) (eof : Bool)
      → Busy d.state
      → Moves (decode_to_eof parse_trailers d input eof)
  unfolding decode_to_eof
  eof-Moves d input true busy = ground arith
  eof-Moves d input false busy = ground arith

  line-Moves :
      (d : BodyDecoder) (input : Bytes) (cursor scanned : ℕ) (eof : Bool)
      (l : Result DecodeError ChunkLine)
      → parse_chunk_line d (drop cursor input) scanned ≡ l
      → cursor ≤ length input
      → Moves (line_read parse_trailers d input cursor eof l)
  unfolding line_read
  line-Moves d input cursor scanned eof (err e) h fits = tt
  line-Moves d input cursor scanned eof (ok (partial s)) h fits =
      starved-Moves d eof (size_line s) cursor tt
  line-Moves d input cursor scanned eof (ok (whole size consumed charged)) h fits =
      let read = parse_chunk_line-LineRead d charged (drop cursor input) scanned size consumed h in
      elim (Bool-cases (size == 0)) [
        | inl last ↦ rw last (trailers-Moves charged input (cursor + consumed) eof 0)
        | inr more ↦ rw more (
            chunk-Moves charged input (cursor + consumed) eof size
              (omega (arith, read.taken, length-drop cursor input)) (ground arith))
      ]

  size-Moves :
      (d : BodyDecoder) (input : Bytes) (cursor : ℕ) (eof : Bool) (scanned : ℕ)
      → cursor ≤ length input
      → Moves (size_arm parse_trailers d input cursor eof scanned)
  unfolding size_arm
  size-Moves d input cursor eof scanned h = line-Moves d input cursor scanned eof _ refl h

  crlf-Moves :
      (d : BodyDecoder) (input : Bytes) (eof : Bool) → Moves (crlf_arm parse_trailers d input 0 eof)
  unfolding crlf_arm
  crlf-Moves d input eof =
      ground (arith, starved-Moves d eof chunk_crlf 0 tt, size-Moves d input 2 eof 0)

  decode_in-Moves :
      (d : BodyDecoder) (s : DecoderState) (input : Bytes) (eof : Bool)
      → d.state ≡ s
      → Busy s
      → Moves (decode_in parse_trailers d s input eof)
  unfolding decode_in decode_chunked
  decode_in-Moves d nothing input eof at busy = tt
  decode_in-Moves d (fixed_left n) input eof at busy = fixed-Moves d n input eof (rw at busy)
  decode_in-Moves d (in_chunks (size_line n)) input eof at busy =
      size-Moves d input 0 eof n (omega arith)
  decode_in-Moves d (in_chunks (chunk_left n)) input eof at busy =
      chunk-Moves d input 0 eof n (omega arith) busy
  decode_in-Moves d (in_chunks chunk_crlf) input eof at busy = crlf-Moves d input eof
  decode_in-Moves d (in_chunks (trailer_block n)) input eof at busy = trailers-Moves d input 0 eof n
  decode_in-Moves d to_eof input eof at busy = eof-Moves d input eof (rw at busy)
  decode_in-Moves d done input eof at busy = rw at busy
  decode_in-Moves d (failed e) input eof at busy = tt

  -- From a state in which a chunk that is being read has bytes left, a call of `decode` leaves
  -- such a state, and a payload that it answers comes with a byte of input at least.
  pub decode-Moves :
      (d : BodyDecoder) (input : Bytes) (eof : Bool)
      → Busy d.state
      → Moves (decode parse_trailers d input eof)
  unfolding decode
  decode-Moves d input eof busy = decode_in-Moves d d.state input eof refl busy

pub initial-Busy : (mode : BodyMode) → Busy (initial_state mode)
unfolding initial_state
initial-Busy empty = tt
initial-Busy (fixed n) = tt
initial-Busy chunked = tt
initial-Busy until_eof = tt
