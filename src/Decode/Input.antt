-- ===== src/Decode/Input.antt =====
-- src/proto/h1/decode.rs: the state of the decoder, and the parts of its input that it reads as a
-- whole: a chunk line and the end of a trailer block.
use vakya.Prelude.{
  ℕ, ◌+◌, ◌-◌, min, Bool, true, false, none, some, ltb, leb, ◌==◌, if◌then◌else◌, length, take,
  Bytes, u64_max, Result, ok, err, ◌>>=◌,
}
use vakya.Message.{BodyMode, empty, fixed, chunked, until_eof}
use vakya.Chunk.{
  DecodeError, invalid_chunk_size, limit, chunk_line_bytes, chunk_extension_bytes, trailer_bytes,
  position, checked, parse_size_line,
}
use vakya.Decode.Scan.{found, broken, unfinished, line_scan, trailer_scan}

pub record DecodeLimits : Type 0 where
  pub max_chunk_line_bytes : ℕ
  pub max_chunk_extension_bytes : ℕ
  pub max_trailer_bytes : ℕ
  pub max_trailers : ℕ

pub data ChunkState : Type 0 where
  size_line : (scanned : ℕ) → ChunkState
  chunk_left : (remaining : ℕ) → ChunkState
  chunk_crlf : ChunkState
  trailer_block : (scanned : ℕ) → ChunkState

pub data DecoderState : Type 0 where
  nothing : DecoderState
  fixed_left : (remaining : ℕ) → DecoderState
  in_chunks : ChunkState → DecoderState
  to_eof : DecoderState
  done : DecoderState
  failed : DecodeError → DecoderState

-- The workspace of the trailer parser is storage only: its capacity is `max_trailers`.
pub record BodyDecoder : Type 0 where
  pub state : DecoderState
  pub limits : DecodeLimits
  pub extension_bytes : ℕ

abbrev pub in_state : DecoderState → BodyDecoder → BodyDecoder
in_state state d = record d { state = state }

unfoldable pub initial_state : BodyMode → DecoderState
initial_state empty = nothing
initial_state (fixed n) = fixed_left n
initial_state chunked = in_chunks (size_line 0)
initial_state until_eof = to_eof

unfoldable pub with_limits : BodyMode → DecodeLimits → BodyDecoder
unfolding initial_state
with_limits mode limits = record {
  state = initial_state mode;
  limits = limits;
  extension_bytes = 0;
}

unfoldable pub is_complete : DecoderState → Bool
is_complete nothing = true
is_complete (fixed_left remaining) = remaining == 0
is_complete done = true
is_complete _ = false

-- `u64::try_from(len).unwrap_or(u64::MAX).min(remaining)`
unfoldable pub count_within : (len remaining : ℕ) → ℕ
count_within len remaining = min (if leb len u64_max then len else u64_max) remaining

-- `charge_extensions`; an error leaves the decoder as it was.
unfoldable pub charge_extensions : BodyDecoder → Bytes → Result DecodeError BodyDecoder
unfolding position
charge_extensions d line =
    let start = position b';' line in
    if start == length line
    then ok d
    else elim (checked (d.extension_bytes + (length line - start))) [
      | none ↦ err (limit chunk_extension_bytes)
      | some total ↦
          if ltb d.limits.max_chunk_extension_bytes total
          then err (limit chunk_extension_bytes)
          else ok (record d { extension_bytes = total })
    ]

-- `Ok((Some((size, consumed)), 0))` with the charged decoder, and `Ok((None, scanned))`.
pub data ChunkLine : Type 0 where
  whole : (size consumed : ℕ) → BodyDecoder → ChunkLine
  partial : (scanned : ℕ) → ChunkLine

-- The line that the line feed at `index` ends.
unfoldable pub line_at : BodyDecoder → Bytes → (index : ℕ) → Result DecodeError ChunkLine
line_at d input index =
    let consumed = index + 1 in
    let line = take (index - 1) input in
    if ltb d.limits.max_chunk_line_bytes consumed then err (limit chunk_line_bytes) else (do
      size ← parse_size_line line
      charged ← charge_extensions d line
      ok (whole size consumed charged))

-- The method `parse_chunk_line`.
unfoldable pub parse_chunk_line : BodyDecoder → Bytes → (scanned : ℕ) → Result DecodeError ChunkLine
parse_chunk_line d input scanned =
    let from = if ltb (length input) scanned then 0 else scanned in
    elim (line_scan input (length input - from) from) [
      | found index ↦ line_at d input index
      | broken ↦ err invalid_chunk_size
      | unfinished ↦
          if ltb d.limits.max_chunk_line_bytes (length input)
          then err (limit chunk_line_bytes)
          else ok (partial (length input))
    ]

pub data TrailerEnd : Type 0 where
  block_of : (bytes : ℕ) → TrailerEnd
  scanned_to : (bounded : ℕ) → TrailerEnd

unfoldable pub trailer_end : BodyDecoder → Bytes → (scanned : ℕ) → Result DecodeError TrailerEnd
trailer_end d input scanned =
    let from = if ltb (length input) scanned then 0 else scanned in
    let bounded = min (length input) d.limits.max_trailer_bytes in
    let first = min from bounded in
    elim (trailer_scan input (bounded - first) first) [
      | some bytes ↦ ok (block_of bytes)
      | none ↦
          if ltb d.limits.max_trailer_bytes (length input)
          then err (limit trailer_bytes)
          else ok (scanned_to bounded)
    ]
