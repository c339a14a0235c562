-- ===== src/Encode/ReadBack.antt =====
-- A chunked body that was encoded decodes again: to its end, and to its payload.
use vakya.Prelude.{
  ℕ, ◌+◌, ◌-◌, ◌≤◌, ◌≡◌, refl, sym, ap, ◌∙◌, ◌≢◌, false, List, [], ◌∷◌, ◌++◌, append-nil,
  append_assoc, arith, length, take, drop, length-append, take-append_len, drop-append_len, All,
  Bytes, u64_max, Result, ok,
}
use vakya.Message.{chunked}
use vakya.Chunk.{DecodeError, parse_size_line}
use vakya.Decode.Input.{
  DecodeLimits, BodyDecoder, in_chunks, done, ChunkState, size_line, chunk_crlf, in_state,
  with_limits, initial_state,
}
use vakya.Chunk.Hex.{IsHexDigit, IsHex}
use vakya.Decode.Reach.{crlf}
use vakya.Decode.Grammar.{Run, stop, call}
use vakya.Decode.{DecodeOutcome, payload, trailer_fields, decode_in, decode}
use vakya.Decode.Complete.{Starts, lead, decode-Starts, size_arm-chunk, size_arm-last}
use vakya.Encode.{BodyMetadata, EncodeConfig}
use vakya.Encode.Stream.{BodyEncoder, new_encoder, opened, state_of, chunked_body}
use vakya.Encode.Digits.{chunk_prefix-ChunkPrefix}
use vakya.Encode.Frames.{wire_of, concat, encode_body}
use vakya.Encode.RoundTrip.{
  accepted, new_encoder-eq_ok, zero_line, framing_of-zero, framing_of-chunk,
}
use mathlib.Core.Path.{subst}

take-all : (n : ℕ) (xs : Bytes) → n ≡ length xs → take n xs ≡ xs
take-all n xs h = ap (take n) (sym (append-nil xs)) ∙ take-append_len n xs [] h

zero_is_hex : IsHexDigit b'0'
zero_is_hex = ground arith

module _ {H : Type 0} (parse_trailers : ℕ → Bytes → Result DecodeError (ℕ × H)) (none_left : H)
    (empty_block : (n : ℕ) → parse_trailers n crlf ≡ ok (2, none_left)) where
  -- Calls from `d` on that read `wire` to the end of the body and deliver `body`.
  abbrev pub Reads : BodyDecoder → (wire body : Bytes) → Type 0
  Reads d wire body =
      (final : BodyDecoder) × Run parse_trailers final d wire body × (final.state ≡ done)

  abbrev Roomy : BodyDecoder → Type 0
  Roomy d = (18 ≤ d.limits.max_chunk_line_bytes) × (2 ≤ d.limits.max_trailer_bytes)

  started :
      (d : BodyDecoder) (s : ChunkState) (rest : Bytes)
      → d.state ≡ in_chunks s
      → Starts s
      → decode parse_trailers d (lead s ++ rest) false
        ≡ vakya.Decode.size_arm parse_trailers d (lead s ++ rest) (length (lead s)) false 0
  unfolding decode decode_in
  started d s rest at starts =
      ap (λ t. decode_in parse_trailers d t (lead s ++ rest) false) at
      ∙ decode-Starts parse_trailers none_left empty_block d s rest false starts

  Reads-end :
      (d : BodyDecoder) (s : ChunkState)
      → d.state ≡ in_chunks s
      → Starts s
      → Roomy d
      → Reads d (lead s ++ wire_of chunked_body []) []
  Reads-end d s at starts (lines, blocks) =
      let input = lead s ++ ((b'0' ∷ []) ++ (crlf ++ crlf)) in
      let step =
        started d s ((b'0' ∷ []) ++ (crlf ++ crlf)) at starts
        ∙ size_arm-last parse_trailers none_left empty_block d (lead s) (b'0' ∷ []) false
            (zero_is_hex, tt) zero_line (omega arith) blocks in
      let all_of_it =
        take-all (length (lead s) + 3 + 2) input
          (omega (arith, length-append (lead s) ((b'0' ∷ []) ++ (crlf ++ crlf)))) in
      (
        in_state done d,
        subst (λ w. Run parse_trailers (in_state done d) d w []) (append-nil _ ∙ all_of_it)
            (call input false step stop),
        refl,
      )

  -- One chunk in front of what is read from the state that it leaves.
  Reads-chunk :
      (d : BodyDecoder) (s : ChunkState) (line bytes wire body : Bytes)
      → d.state ≡ in_chunks s
      → Starts s
      → IsHex line
      → parse_size_line line ≡ ok (length bytes)
      → length line + 2 ≤ d.limits.max_chunk_line_bytes
      → bytes ≢ []
      → length bytes ≤ u64_max
      → Reads (in_state (in_chunks chunk_crlf) d) (crlf ++ wire) body
      → Reads d (lead s ++ (line ++ (crlf ++ (bytes ++ (crlf ++ wire))))) (bytes ++ body)
  Reads-chunk d s line bytes wire body at starts hex_line parsed fits nonempty small
        (final, run, ends) =
      let behind = crlf ++ wire in
      let rest = line ++ (crlf ++ (bytes ++ behind)) in
      let input = lead s ++ rest in
      let step =
        started d s rest at starts
        ∙ size_arm-chunk parse_trailers none_left empty_block d (lead s) line bytes behind false
            hex_line parsed fits nonempty small in
      let front = lead s ++ (line ++ crlf) in
      let start = length (lead s) + (length line + 2) in
      let end_at = start + length bytes in
      let start_at : start ≡ length front =
        omega (arith, length-append (lead s) (line ++ crlf), length-append line crlf) in
      let split : input ≡ front ++ (bytes ++ behind) =
        ap (◌++◌ (lead s)) (sym (append_assoc line crlf (bytes ++ behind)))
        ∙ sym (append_assoc (lead s) (line ++ crlf) (bytes ++ behind)) in
      let split' : input ≡ (front ++ bytes) ++ behind =
        split ∙ sym (append_assoc front bytes behind) in
      let taken : take end_at input ++ behind ≡ input =
        ap (λ v. v ++ behind)
          (ap (take end_at) split'
            ∙ take-append_len end_at (front ++ bytes) behind
                (omega (arith, length-append front bytes)))
        ∙ sym split' in
      let delivered : take (end_at - start) (drop start input) ≡ bytes =
        ap (take (end_at - start))
          (ap (drop start) split ∙ drop-append_len start front (bytes ++ behind) start_at)
        ∙ take-append_len (end_at - start) bytes behind (omega arith) in
      (
        final,
        subst (λ p. Run parse_trailers final d p.0 p.1) (pair taken (ap (λ v. v ++ body) delivered))
            (call input false step run),
        ends,
      )
    where
      pair : {a b c e : Bytes} → a ≡ b → c ≡ e → ◌≡◌ {A = Bytes × Bytes} (a, c) (b, e)
      pair h k = cc

  Reads-frames :
      (d : BodyDecoder) (s : ChunkState) (frames : List Bytes)
      → d.state ≡ in_chunks s
      → Starts s
      → Roomy d
      → All (λ f. length f ≤ u64_max) frames
      → Reads d (lead s ++ wire_of chunked_body frames) (concat frames)
  Reads-frames d s [] at starts roomy sizes = Reads-end d s at starts roomy
  Reads-frames d s ([] ∷ fs) at starts roomy (size, sizes) =
      rw framing_of-zero (Reads-frames d s fs at starts roomy sizes)
  Reads-frames d s ((b ∷ bs) ∷ fs) at starts roomy (size, sizes) =
      let f = b ∷ bs in
      let p = chunk_prefix-ChunkPrefix (length f) (omega arith) size in
      let wire = wire_of chunked_body fs in
      let later =
        Reads-frames (in_state (in_chunks chunk_crlf) d) chunk_crlf fs refl tt roomy sizes in
      let short : length p.line + 2 ≤ d.limits.max_chunk_line_bytes =
        omega (arith, roomy.0, p.capacity, ap length p.splits, length-append p.line crlf) in
      rw (framing_of-chunk (length f) (omega arith), p.splits)
        (rw (append_assoc p.line crlf (f ++ (crlf ++ wire))) (
          Reads-chunk d s p.line f wire (concat fs) at starts p.hex_line p.parsed short (λ e. cc)
            size later))

  -- What an encoder for chunked bodies writes for a sequence of frames and its end, without an
  -- error, a decoder for chunked bodies reads back: calls of `decode` consume it all, deliver the
  -- frames one after the other, and end the body. It needs that the decoder has room for a chunk
  -- line of 18 bytes and an empty trailer block, that no frame is longer than 2^64 - 1 bytes, and
  -- that an empty trailer block parses.
  pub encode_body-Reads :
      (metadata : BodyMetadata) (config : EncodeConfig) (e : BodyEncoder) (limits : DecodeLimits)
      (frames : List Bytes) (wire : Bytes)
      → new_encoder chunked metadata config ≡ ok e
      → 18 ≤ limits.max_chunk_line_bytes
      → 2 ≤ limits.max_trailer_bytes
      → All (λ f. length f ≤ u64_max) frames
      → encode_body e frames ≡ ok wire
      → Reads (with_limits chunked limits) wire (concat frames)
  unfolding with_limits initial_state opened state_of
  encode_body-Reads metadata config e limits frames wire made lines blocks sizes written =
      let (_, same) = new_encoder-eq_ok chunked metadata config e made in
      let (_, all_written) =
        accepted (opened chunked metadata config) frames wire tt (rw (← same) at written) in
      rw all_written (
        Reads-frames (with_limits chunked limits) (size_line 0) frames refl refl (lines, blocks)
          sizes)
