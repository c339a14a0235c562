-- ===== src/Decode.antt =====
-- src/proto/h1/decode.rs: the incremental decoder of message bodies.
pub mod Scan
pub mod Input
pub mod Reach
pub mod Bounds
pub mod Grammar
pub mod Steps
pub mod Sound
pub mod Terminal
pub mod Line
pub mod Complete
pub mod Progress
use vakya.Prelude.{
  ℕ, zero, suc, ◌+◌, ◌-◌, ◌*◌, ◌/◌, ◌%◌, ◌^◌, ◌≤◌, ◌<◌, min, ◌≡◌, refl, sym, ap, ◌∙◌, ◌≢◌, ◌↔◌, ◌⊎◌,
  inl, inr, Bool, true, false, not, ◌&&◌, ◌||◌, Option, none, some, List, [], ◌∷◌, ◌++◌, map,
  append-nil, append_assoc, arith, ltb, leb, ◌==◌, if◌then◌else◌, ltb→lt, lt→ltb, leb→le, ==_iff,
  Bool-cases, Option-cases, length, get_elem?, take, drop, length-append, length-take, length-drop,
  take-append-drop, take-append_len, drop-append_len, drop-append_le, take-append_le, drop-nil,
  drop-drop, All, All-append, Bytes, u64_max, Result, ok, err, ◌>>=◌, ◌>>◌, map_err, ok_or, is_some,
  Result-cases, >>=-eq-ok,
}
use vakya.Chunk.{DecodeError, unexpected_eof, invalid_chunk_terminator}
use Scan.{byte_is}
use Input.{
  DecodeLimits, ChunkState, size_line, chunk_left, chunk_crlf, trailer_block, DecoderState, nothing,
  fixed_left, in_chunks, to_eof, done, failed, BodyDecoder, in_state, count_within, ChunkLine,
  whole, partial, parse_chunk_line, TrailerEnd, block_of, scanned_to, trailer_end,
}

-- A payload range is its start and its end; `H` is the type of header maps.
pub data DecodeOutcome (H : Type 0) : Type 0 where
  need_more : (consumed : ℕ) → DecodeOutcome H
  payload : (start stop consumed : ℕ) → DecodeOutcome H
  trailer_fields : H → (consumed : ℕ) → DecodeOutcome H
  end : (consumed : ℕ) → DecodeOutcome H

-- `parse_trailers` stands for the parse of one trailer block with at most that many fields.
module _ {H : Type 0} (parse_trailers : ℕ → Bytes → Result DecodeError (ℕ × H)) where
  abbrev pub Reply : Type 0
  Reply = BodyDecoder × Result DecodeError (DecodeOutcome H)

  abbrev pub fail : BodyDecoder → DecodeError → Reply
  fail d e = (in_state (failed e) d, err e)

  -- What each state answers where the input does not reach: an error at the end of the stream.
  unfoldable pub starved : BodyDecoder → (eof : Bool) → ChunkState → (cursor : ℕ) → Reply
  starved d eof state cursor =
      if eof then fail d unexpected_eof else (in_state (in_chunks state) d, ok (need_more cursor))

  -- After the parse of the trailer block.
  unfoldable pub trailers_parsed : BodyDecoder → (cursor : ℕ) → Result DecodeError (ℕ × H) → Reply
  trailers_parsed d cursor (err e) = fail d e
  trailers_parsed d cursor (ok (consumed, fields)) =
      (in_state done d, ok (trailer_fields fields (cursor + consumed)))

  -- After the search for the end of the trailer block.
  unfoldable pub trailers_scanned :
      BodyDecoder → Bytes → (cursor : ℕ) → (eof : Bool) → Result DecodeError TrailerEnd → Reply
  trailers_scanned d available cursor eof (err e) = fail d e
  trailers_scanned d available cursor eof (ok (scanned_to bounded)) =
      starved d eof (trailer_block bounded) cursor
  trailers_scanned d available cursor eof (ok (block_of bytes)) =
      trailers_parsed d cursor (parse_trailers d.limits.max_trailers (take bytes available))

  unfoldable pub decode_trailers :
      BodyDecoder → Bytes → (cursor : ℕ) → (eof : Bool) → (scanned : ℕ) → Reply
  decode_trailers d input cursor eof scanned =
      let available = drop cursor input in
      trailers_scanned d available cursor eof (trailer_end d available scanned)

  -- The arms of the loop of `decode_chunked`. Each returns or goes on to the arm of the state
  -- that it reaches: a size line after the end of a chunk, a chunk or the trailers after a line.
  unfoldable pub chunk_arm :
      BodyDecoder → Bytes → (cursor : ℕ) → (eof : Bool) → (remaining : ℕ) → Reply
  chunk_arm d input cursor eof remaining =
      if cursor == length input
      then starved d eof (chunk_left remaining) cursor
      else (let count = count_within (length input - cursor) remaining in
          let left = remaining - count in
          (
            in_state (in_chunks (if left == 0 then chunk_crlf else chunk_left left)) d,
            ok (payload cursor (cursor + count) (cursor + count)),
          ))

  -- After the parse of a chunk line.
  unfoldable pub line_read :
      BodyDecoder → Bytes → (cursor : ℕ) → (eof : Bool) → Result DecodeError ChunkLine → Reply
  line_read d input cursor eof (err e) = fail d e
  line_read d input cursor eof (ok (partial scanned)) = starved d eof (size_line scanned) cursor
  line_read d input cursor eof (ok (whole size consumed charged)) =
      if size == 0
      then decode_trailers charged input (cursor + consumed) eof 0
      else chunk_arm charged input (cursor + consumed) eof size

  unfoldable pub size_arm :
      BodyDecoder → Bytes → (cursor : ℕ) → (eof : Bool) → (scanned : ℕ) → Reply
  size_arm d input cursor eof scanned =
      line_read d input cursor eof (parse_chunk_line d (drop cursor input) scanned)

  unfoldable pub crlf_arm : BodyDecoder → Bytes → (cursor : ℕ) → (eof : Bool) → Reply
  crlf_arm d input cursor eof =
      let remaining = drop cursor input in
      if ltb (length remaining) 2
      then if leb 1 (length remaining) && not (byte_is b'\r' remaining 0)
        then fail d invalid_chunk_terminator
        else starved d eof chunk_crlf cursor
      else if byte_is b'\r' remaining 0 && byte_is b'\n' remaining 1
      then size_arm d input (cursor + 2) eof 0
      else fail d invalid_chunk_terminator

  unfoldable pub decode_chunked : BodyDecoder → ChunkState → Bytes → (eof : Bool) → Reply
  decode_chunked d (size_line scanned) input eof = size_arm d input 0 eof scanned
  decode_chunked d (chunk_left remaining) input eof = chunk_arm d input 0 eof remaining
  decode_chunked d chunk_crlf input eof = crlf_arm d input 0 eof
  decode_chunked d (trailer_block scanned) input eof = decode_trailers d input 0 eof scanned

  unfoldable pub decode_fixed : BodyDecoder → (remaining : ℕ) → Bytes → (eof : Bool) → Reply
  decode_fixed d remaining input eof =
      if remaining == 0
      then (in_state done d, ok (end 0))
      else if leb 1 (length input)
      then (let count = count_within (length input) remaining in
          (in_state (fixed_left (remaining - count)) d, ok (payload 0 count count)))
      else if eof
      then fail d unexpected_eof
      else (d, ok (need_more 0))

  unfoldable pub decode_to_eof : BodyDecoder → Bytes → (eof : Bool) → Reply
  decode_to_eof d input eof =
      if leb 1 (length input)
      then (if eof then in_state done d else d, ok (payload 0 (length input) (length input)))
      else if eof
      then (in_state done d, ok (end 0))
      else (d, ok (need_more 0))

  unfoldable pub decode_in : BodyDecoder → DecoderState → Bytes → (eof : Bool) → Reply
  decode_in d nothing input eof = (in_state done d, ok (end 0))
  decode_in d (fixed_left remaining) input eof = decode_fixed d remaining input eof
  decode_in d (in_chunks state) input eof = decode_chunked d state input eof
  decode_in d to_eof input eof = decode_to_eof d input eof
  decode_in d done input eof = (d, ok (end 0))
  decode_in d (failed e) input eof = (d, err e)

  unfoldable pub decode : BodyDecoder → Bytes → (eof : Bool) → Reply
  unfolding decode_in
  decode d input eof = decode_in d d.state input eof
