-- ===== src/Decode/Complete.antt =====
-- The decoder reads what the encoder writes: a run over every chunk to the end.
use vakya.Prelude.{
  ℕ, suc, ◌+◌, ◌-◌, ◌≤◌, min, ◌≡◌, refl, sym, ap, ◌∙◌, ◌≢◌, Bool, true, false, [], ◌∷◌, ◌++◌,
  append_assoc, arith, ltb, ◌==◌, length, drop, length-append, drop-append_len, Bytes, u64_max,
  Result, ok,
}
use vakya.Chunk.{DecodeError, parse_size_line}
use vakya.Chunk.Hex.{IsHex}
use vakya.Decode.Scan.{byte_is, after_byte, trailer_scan, empty_line}
use vakya.Decode.Input.{
  DecodeLimits, BodyDecoder, DecoderState, in_chunks, done, ChunkState, size_line, chunk_crlf,
  in_state, count_within, ChunkLine, whole, parse_chunk_line, TrailerEnd, block_of, trailer_end,
  with_limits, initial_state,
}
use vakya.Decode.Reach.{crlf}
use vakya.Decode.Line.{parse_chunk_line-digits}
use vakya.Decode.{
  DecodeOutcome, payload, trailer_fields, chunk_arm, line_read, size_arm, crlf_arm, decode_trailers,
  trailers_scanned, trailers_parsed, decode_chunked, decode_in, decode,
}

-- The two states in which a size line may follow, and what stands in front of it.
abbrev pub Starts : ChunkState → Type 0
Starts (size_line scanned) = scanned ≡ 0
Starts chunk_crlf = Unit
Starts _ = ⊥

abbrev pub lead : ChunkState → Bytes
lead chunk_crlf = crlf
lead _ = []

module _ {H : Type 0} (parse_trailers : ℕ → Bytes → Result DecodeError (ℕ × H)) (none_left : H)
    (empty_block : (n : ℕ) → parse_trailers n crlf ≡ ok (2, none_left)) where
  crlf_arm-size_arm :
      (d : BodyDecoder) (rest : Bytes) (eof : Bool)
      → crlf_arm parse_trailers d (crlf ++ rest) 0 eof
        ≡ size_arm parse_trailers d (crlf ++ rest) 2 eof 0
  unfolding crlf_arm byte_is
  crlf_arm-size_arm d rest eof =
      let enough : ltb (length (crlf ++ rest)) 2 ≡ false = ground arith in rw enough refl

  pub decode-Starts :
      (d : BodyDecoder) (s : ChunkState) (rest : Bytes) (eof : Bool)
      → Starts s
      → decode_chunked parse_trailers d s (lead s ++ rest) eof
        ≡ size_arm parse_trailers d (lead s ++ rest) (length (lead s)) eof 0
  unfolding decode_chunked
  decode-Starts d (size_line scanned) rest eof h = ap (size_arm parse_trailers d rest 0 eof) h
  decode-Starts d chunk_crlf rest eof h = crlf_arm-size_arm d rest eof
  decode-Starts d (vakya.Decode.Input.chunk_left n) rest eof h = absurd h
  decode-Starts d (vakya.Decode.Input.trailer_block n) rest eof h = absurd h

  chunk_arm-whole :
      (d : BodyDecoder) (before bytes behind : Bytes) (eof : Bool)
      → bytes ≢ []
      → length bytes ≤ u64_max
      → chunk_arm parse_trailers d (before ++ (bytes ++ behind)) (length before) eof (length bytes)
        ≡ (
          in_state (in_chunks chunk_crlf) d,
          ok (
              payload
                (length before)
                (length before + length bytes)
                (length before + length bytes)),
        )
  unfolding chunk_arm count_within
  chunk_arm-whole d before [] behind eof nonempty fits = absurd (nonempty refl)
  chunk_arm-whole d before (b ∷ bs) behind eof nonempty fits =
      let input = before ++ ((b ∷ bs) ++ behind) in
      let size : length input ≡ length before + (suc (length bs) + length behind) =
        omega (arith, length-append before ((b ∷ bs) ++ behind), length-append (b ∷ bs) behind) in
      let more : (length before == length input) ≡ false = ground arith in
      let count : count_within (length input - length before) (suc (length bs)) ≡ suc (length bs) =
        ground arith in
      let no_more : (suc (length bs) - suc (length bs) == 0) ≡ true = ground arith in
      rw (more, count, no_more) refl

  pub size_arm-chunk :
      (d : BodyDecoder) (before line bytes behind : Bytes) (eof : Bool)
      → IsHex line
      → parse_size_line line ≡ ok (length bytes)
      → length line + 2 ≤ d.limits.max_chunk_line_bytes
      → bytes ≢ []
      → length bytes ≤ u64_max
      → size_arm parse_trailers d
          (before ++ (line ++ (crlf ++ (bytes ++ behind))))
          (length before)
          eof
          0
        ≡ (
          in_state (in_chunks chunk_crlf) d,
          ok (
              payload
                (length before + (length line + 2))
                (length before + (length line + 2) + length bytes)
                (length before + (length line + 2) + length bytes)),
        )
  unfolding size_arm line_read
  size_arm-chunk d before line bytes behind eof hex_line parsed fits nonempty small =
      let input = before ++ (line ++ (crlf ++ (bytes ++ behind))) in
      let front = before ++ (line ++ crlf) in
      let split : input ≡ front ++ (bytes ++ behind) =
        ap (◌++◌ before) (sym (append_assoc line crlf (bytes ++ behind)))
        ∙ sym (append_assoc before (line ++ crlf) (bytes ++ behind)) in
      let size : length front ≡ length before + (length line + 2) =
        omega (arith, length-append before (line ++ crlf), length-append line crlf) in
      let some_bytes : (length bytes == 0) ≡ false = not_zero bytes nonempty in
      let whole_chunk =
        rw (size, ← split) at (chunk_arm-whole d front bytes behind eof nonempty small) in
      rw
        (
          drop-append_len (length before) before (line ++ (crlf ++ (bytes ++ behind))) refl,
          parse_chunk_line-digits d line (bytes ++ behind) (length bytes) hex_line parsed fits,
          some_bytes,
        )
        whole_chunk
    where
      not_zero : (bs : Bytes) → bs ≢ [] → (length bs == 0) ≡ false
      not_zero [] h = absurd (h refl)
      not_zero (b ∷ bs) h = ground arith

  trailer_end-empty :
      (d : BodyDecoder) → 2 ≤ d.limits.max_trailer_bytes → trailer_end d crlf 0 ≡ ok (block_of 2)
  unfolding trailer_end trailer_scan empty_line byte_is after_byte
  trailer_end-empty d room =
      let all_of_it : min 2 d.limits.max_trailer_bytes ≡ 2 = omega arith in
      rw (trailer_end, all_of_it) refl

  pub size_arm-last :
      (d : BodyDecoder) (before line : Bytes) (eof : Bool)
      → IsHex line
      → parse_size_line line ≡ ok 0
      → length line + 2 ≤ d.limits.max_chunk_line_bytes
      → 2 ≤ d.limits.max_trailer_bytes
      → size_arm parse_trailers d (before ++ (line ++ (crlf ++ crlf))) (length before) eof 0
        ≡ (in_state done d, ok (trailer_fields none_left (length before + (length line + 2) + 2)))
  unfolding size_arm line_read decode_trailers trailers_scanned trailers_parsed
  size_arm-last d before line eof hex_line parsed fits room =
      let input = before ++ (line ++ (crlf ++ crlf)) in
      let front = before ++ (line ++ crlf) in
      let split : input ≡ front ++ crlf =
        ap (◌++◌ before) (sym (append_assoc line crlf crlf))
        ∙ sym (append_assoc before (line ++ crlf) crlf) in
      let size : length before + (length line + 2) ≡ length front =
        omega (arith, length-append before (line ++ crlf), length-append line crlf) in
      let left : drop (length before + (length line + 2)) input ≡ crlf =
        ap (drop (length before + (length line + 2))) split
        ∙ drop-append_len (length before + (length line + 2)) front crlf size in
      rw
        (
          drop-append_len (length before) before (line ++ (crlf ++ crlf)) refl,
          parse_chunk_line-digits d line crlf 0 hex_line parsed fits,
          left,
          trailer_end-empty d room,
          empty_block d.limits.max_trailers,
        )
        refl
