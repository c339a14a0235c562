-- ===== src/Tests/Bodies.antt =====
-- Bodies: chunk lines, the decoder and the encoder.
use vakya.Prelude.{
  ℕ, ◌≤◌, ◌≡◌, refl, ◌↔◌, true, false, none, some, List, [], ◌∷◌, arith, drop, Bytes, ok, err,
}
use vakya.Syntax.{trim_ows, quoted_string_len}
use vakya.Syntax.Trim.{Trimmed, trim_ows-Trimmed}
use vakya.Syntax.Quoted.{Measures, quoted_string_len-Measures}
use vakya.Chunk.{DecodeError, unexpected_eof, parse_size_line}
use vakya.Chunk.{validate_extensions}
use vakya.Chunk.Extensions.{Ends, validate_extensions-Ends}
use vakya.Chunk.Size.{SizeLine, parse_size_line-SizeLine}
use vakya.Message.{chunked, may_have}
use vakya.Decode.Input.{
  chunk_crlf, DecodeLimits, BodyDecoder, DecoderState, fixed_left, in_chunks, size_line, done,
  failed, with_limits, initial_state,
}
use vakya.Decode.Grammar.{Chunked, Rest, stop, call}
use vakya.Decode.{DecodeOutcome, need_more, payload, trailer_fields, end, decode}
use vakya.Decode.Bounds.{Answers, decode-Answers}
use vakya.Decode.Sound.{decoded-Run}
use vakya.Decode.Terminal.{Settled, decode-Settled, decode-error_stays}
use vakya.Encode.{EncodeConfig, BodyMetadata, length_mismatch}
use vakya.Encode.Stream.{
  BodyEncoder, new_encoder, chunk_prefix, chunked_body, new_checks, opened, state_of, data_frame,
  data_in, data_within, framing_of, write_digits, prefix_digits, bit_len, finish, finish_in,
  finish_within,
}
use vakya.Encode.Digits.{ChunkPrefix, chunk_prefix-ChunkPrefix}
use vakya.Encode.Frames.{
  encode_body, WithinBounds, total, wire_of, encode_body-WithinBounds, concat,
}
use vakya.Encode.ReadBack.{Reads, encode_body-Reads}
use vakya.Encode.RoundTrip.{encode_body-Rest}
use vakya.Tests.Parser.{no_fields, no_fields-within, no_fields-empty}

abbrev pub limits : DecodeLimits
limits = record {
  max_chunk_line_bytes = 64;
  max_chunk_extension_bytes = 64;
  max_trailer_bytes = 64;
  max_trailers = 4;
}

-- "3\r\nabc\r\n0\r\n\r\n"
abbrev pub wire : Bytes
wire =
    b'3' ∷ b'\r' ∷ b'\n' ∷ b'a' ∷ b'b' ∷ b'c' ∷ b'\r' ∷ b'\n' ∷ b'0' ∷ b'\r' ∷ b'\n' ∷ b'\r' ∷ b'\n'
    ∷ []

abbrev fresh : BodyDecoder
fresh = record { state = in_chunks (size_line 0); limits = limits; extension_bytes = 0 }

-- What `decode` leaves and answers, for a decoder in that state.
abbrev left : DecoderState → BodyDecoder
left state = record { state = state; limits = limits; extension_bytes = 0 }

first_call : decode no_fields fresh wire false ≡ (left (in_chunks chunk_crlf), ok (payload 3 6 6))
unfolding decode vakya.Decode.decode_in vakya.Decode.decode_chunked vakya.Decode.size_arm
    vakya.Decode.line_read vakya.Decode.chunk_arm vakya.Decode.starved
    vakya.Decode.Input.parse_chunk_line vakya.Decode.Input.line_at
    vakya.Decode.Input.charge_extensions vakya.Decode.Input.count_within vakya.Decode.Scan.line_scan
    vakya.Chunk.fold_hex parse_size_line vakya.Chunk.is_hexdigit vakya.Chunk.hex
    vakya.Syntax.trim_end vakya.Chunk.validate_extensions vakya.Chunk.position
    vakya.Chunk.add_hex_digit
first_call = refl

second_call :
    decode no_fields (left (in_chunks chunk_crlf)) (drop 6 wire) false
    ≡ (left done, ok (trailer_fields tt 7))
unfolding decode vakya.Decode.decode_in vakya.Decode.decode_chunked vakya.Decode.size_arm
    vakya.Decode.line_read vakya.Decode.chunk_arm vakya.Decode.starved
    vakya.Decode.Input.parse_chunk_line vakya.Decode.Input.line_at
    vakya.Decode.Input.charge_extensions vakya.Decode.Input.count_within vakya.Decode.Scan.line_scan
    vakya.Chunk.fold_hex parse_size_line vakya.Chunk.is_hexdigit vakya.Chunk.hex
    vakya.Syntax.trim_end vakya.Chunk.validate_extensions vakya.Chunk.position
    vakya.Chunk.add_hex_digit vakya.Decode.crlf_arm vakya.Decode.decode_trailers
    vakya.Decode.trailers_scanned vakya.Decode.trailers_parsed vakya.Decode.Input.trailer_end
    vakya.Decode.Scan.trailer_scan vakya.Decode.Scan.empty_line vakya.Decode.Scan.byte_is
    vakya.Decode.Scan.after_byte
second_call = refl

decoded-Run_example : Chunked no_fields 4 wire (b'a' ∷ b'b' ∷ b'c' ∷ [])
unfolding with_limits initial_state
decoded-Run_example =
    decoded-Run no_fields no_fields-within chunked limits
      (call wire false first_call (call (drop 6 wire) false second_call stop)) refl

decode-Answers_example : Answers fresh 13 (decode no_fields fresh wire false)
decode-Answers_example = decode-Answers no_fields no_fields-within fresh wire false

decode-Settled_example : Settled false (decode no_fields fresh wire false)
decode-Settled_example = decode-Settled no_fields fresh wire false

cut_short : decode no_fields fresh [] true ≡ (left (failed unexpected_eof), err unexpected_eof)
unfolding decode vakya.Decode.decode_in vakya.Decode.decode_chunked vakya.Decode.size_arm
    vakya.Decode.line_read vakya.Decode.chunk_arm vakya.Decode.starved
    vakya.Decode.Input.parse_chunk_line vakya.Decode.Input.line_at
    vakya.Decode.Input.charge_extensions vakya.Decode.Input.count_within vakya.Decode.Scan.line_scan
    vakya.Chunk.fold_hex parse_size_line vakya.Chunk.is_hexdigit vakya.Chunk.hex
    vakya.Syntax.trim_end vakya.Chunk.validate_extensions vakya.Chunk.position
    vakya.Chunk.add_hex_digit
cut_short = refl

decode-error_stays_example :
    decode no_fields (left (failed unexpected_eof)) wire false
    ≡ (left (failed unexpected_eof), err unexpected_eof)
decode-error_stays_example =
    decode-error_stays no_fields fresh (left (failed unexpected_eof)) [] wire true false
      unexpected_eof cut_short

abbrev pub frames : List Bytes
frames = (b'a' ∷ b'b' ∷ b'c' ∷ []) ∷ []

abbrev pub any_size : BodyMetadata
any_size = record { size = record { lower = 0; upper = none }; trailers = may_have }

abbrev pub config : EncodeConfig
config = record { max_head_bytes = 64; max_trailer_bytes = 64; title_case_headers = false }

abbrev pub encoder : BodyEncoder
encoder = record {
  state = chunked_body;
  max_trailer_bytes = 64;
  title_case_headers = false;
  remaining_lower = 0;
  remaining_upper = none;
  trailers = may_have;
}

pub made : new_encoder chunked any_size config ≡ ok encoder
unfolding new_encoder new_checks opened state_of
made = refl

written : encode_body encoder frames ≡ ok wire
unfolding encode_body data_frame data_in data_within framing_of chunk_prefix write_digits
    prefix_digits bit_len finish finish_in finish_within
written = refl

encode_body-Rest_example : Rest no_fields 4 (initial_state chunked) wire (concat frames)
encode_body-Rest_example =
    encode_body-Rest no_fields tt no_fields-empty 4 chunked any_size config encoder frames wire made
      (omega arith, tt) written

encode_body-WithinBounds_example :
    (WithinBounds encoder (total frames)
      → encode_body encoder frames ≡ ok (wire_of encoder.state frames))
    × (¬ WithinBounds encoder (total frames) → encode_body encoder frames ≡ err length_mismatch)
encode_body-WithinBounds_example = encode_body-WithinBounds encoder frames tt

chunk_prefix-ChunkPrefix_example : ChunkPrefix 300 (chunk_prefix 300)
chunk_prefix-ChunkPrefix_example = chunk_prefix-ChunkPrefix 300 (omega arith) (omega arith)

-- "1f ;a=b"
abbrev line : Bytes
line = b'1' ∷ b'f' ∷ b' ' ∷ b';' ∷ b'a' ∷ b'=' ∷ b'b' ∷ []

parse_size_line-SizeLine_example : (parse_size_line line ≡ ok 31) ↔ SizeLine line 31
parse_size_line-SizeLine_example = parse_size_line-SizeLine line 31

quoted_string_len-Measures_example :
    (quoted_string_len (b'"' ∷ b'a' ∷ b'"' ∷ b'x' ∷ []) ≡ some 3)
    ↔ Measures (b'"' ∷ b'a' ∷ b'"' ∷ b'x' ∷ []) 3
quoted_string_len-Measures_example = quoted_string_len-Measures (b'"' ∷ b'a' ∷ b'"' ∷ b'x' ∷ []) 3

trim_ows-Trimmed_example : Trimmed (b' ' ∷ b'a' ∷ b' ' ∷ []) (trim_ows (b' ' ∷ b'a' ∷ b' ' ∷ []))
trim_ows-Trimmed_example = trim_ows-Trimmed (b' ' ∷ b'a' ∷ b' ' ∷ [])

encode_body-Reads_example :
    Reads no_fields tt no_fields-empty (with_limits chunked limits) wire (concat frames)
encode_body-Reads_example =
    encode_body-Reads no_fields tt no_fields-empty any_size config encoder limits frames wire made
      (omega arith) (omega arith) (omega arith, tt) written

-- ";a"
abbrev extension : Bytes
extension = b';' ∷ b'a' ∷ []

validate_extensions-Ends_example :
    (rounds : ℕ) × (rounds ≤ 2) × Ends rounds extension (validate_extensions extension)
validate_extensions-Ends_example = validate_extensions-Ends extension
