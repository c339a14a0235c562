-- ===== src/BodyIo/Delivery.antt =====
-- A body that is sent in chunks, from the frames of its producer to the decoder of the receiver.
use vakya.Prelude.{
  ℕ, ◌≤◌, ◌≡◌, refl, sym, ap, ◌∙◌, false, Option, some, List, [], ◌∷◌, ◌++◌, map, length, All,
  Bytes, u64_max, Result, ok, ◌>>=◌,
}
use vakya.Http.{Http}
use vakya.Message.{chunked}
use vakya.Chunk.{DecodeError}
use vakya.Encode.{BodyMetadata, EncodeConfig}
use vakya.Encode.Stream.{BodyEncoder, new_encoder, data_frame}
use vakya.Encode.Frames.{encode_body, concat}
use vakya.Encode.ReadBack.{Reads, encode_body-Reads}
use vakya.Decode.Reach.{crlf}
use vakya.Decode.Input.{DecodeLimits, with_limits}
use vakya.Io.Send.{Attempt}
use vakya.BodyIo.Transmit.{SendStats, Frame, data_of, Turn, send_body}
use vakya.BodyIo.Framed.{frames_of, encode_frames}
use vakya.BodyIo.Wire.{send_body-Wrote}

encode_frames-data :
    (http : Http) (e : BodyEncoder) (fs : List Bytes)
    → encode_frames http false e (map data_of fs) ≡ encode_body e fs
unfolding encode_frames encode_body
encode_frames-data http e [] = refl
encode_frames-data http e (f ∷ fs) =
    let step = data_frame e (length f) in
    ap
      (λ rest. step.1 >>= λ framing.
        rest >>= λ wire. ok (framing.prefix ++ (f ++ (framing.suffix ++ wire))))
      (encode_frames-data http step.0 fs)

module _ (http : Http) {H : Type 0} (parse_trailers : ℕ → Bytes → Result DecodeError (ℕ × H))
    (none_left : H) (empty_block : (n : ℕ) → parse_trailers n crlf ≡ ok (2, none_left)) where
  -- A body that is sent in chunks and went well arrives: where the producer yielded frames of
  -- data and then its end, then whatever waits, flushes and rounds of writes the transmission
  -- took, a decoder for chunked bodies consumes all that went on the wire, delivers the frames
  -- one after the other and ends the body. It needs that the decoder has room for a chunk line of
  -- 18 bytes and an empty trailer block, that no frame is longer than 2^64 - 1 bytes, and that an
  -- empty trailer block parses.
  pub send_body-Reads {ℓ} :
      {E : Type ℓ} (metadata : BodyMetadata) (config : EncodeConfig) (e : BodyEncoder)
      (limits : DecodeLimits) (turns : List (Turn http.HeaderMap E)) (attempts : List Attempt)
      (stats : SendStats) (fs : List Bytes)
      → new_encoder chunked metadata config ≡ ok e
      → 18 ≤ limits.max_chunk_line_bytes
      → 2 ≤ limits.max_trailer_bytes
      → All (λ f. length f ≤ u64_max) fs
      → frames_of turns ≡ some (map data_of fs)
      → (send_body http turns e attempts).result ≡ some (ok stats)
      → Reads parse_trailers none_left empty_block
          (with_limits chunked limits)
          (send_body http turns e attempts).wire
          (concat fs)
  send_body-Reads metadata config e limits turns attempts stats fs made lines blocks sizes listed
        h =
      let (gs, listed', encoded, bytes) = send_body-Wrote http turns e attempts stats h in
      let same : gs ≡ map data_of fs = listed-inj gs (map data_of fs) (sym listed' ∙ listed) in
      encode_body-Reads parse_trailers none_left empty_block metadata config e limits fs
        (send_body http turns e attempts).wire made lines blocks sizes
        (sym (encode_frames-data http e fs) ∙ (rw same at encoded))
    where
      listed-inj :
          (a b : List (Frame http.HeaderMap))
          → ◌≡◌ {A = Option (List (Frame http.HeaderMap))} (some a) (some b)
          → a ≡ b
      listed-inj a b h = cc
