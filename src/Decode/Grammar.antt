-- ===== src/Decode/Grammar.antt =====
-- What a body looks like on the wire, apart from how it is read.
use vakya.Prelude.{ℕ, ◌-◌, ◌≡◌, ◌≢◌, Bool, [], ◌++◌, length, take, drop, Bytes, Result, ok}
use vakya.Chunk.{DecodeError, parse_size_line}
use vakya.Decode.Input.{
  BodyDecoder, DecoderState, nothing, fixed_left, in_chunks, to_eof, done, failed, size_line,
  chunk_left, chunk_crlf, trailer_block,
}
use vakya.Decode.Reach.{crlf}
use vakya.Decode.{DecodeOutcome, need_more, payload, trailer_fields, end, decode}

module _ {H : Type 0} (parse_trailers : ℕ → Bytes → Result DecodeError (ℕ × H)) where
  -- `block` is what the parser of at most `n` trailer fields takes off the front of some input.
  pub record TrailerBlock (n : ℕ) (block : Bytes) : Type 0 where
    pub behind : Bytes
    pub fields : H
    pub parsed : parse_trailers n (block ++ behind) ≡ ok (length block, fields)

  -- The chunked coding of `body`: chunks that are not empty, each behind its size line and before
  -- a line end, then a size line for zero and the trailers.
  pub data Chunked (n : ℕ) : Bytes → Bytes → Type 0 where
    chunk :
        (line payload_bytes : Bytes) {size : ℕ} {wire body : Bytes}
        → parse_size_line line ≡ ok size
        → size ≢ 0
        → length payload_bytes ≡ size
        → Chunked n wire body
        → Chunked n (line ++ (crlf ++ (payload_bytes ++ (crlf ++ wire)))) (payload_bytes ++ body)
    last :
        (line : Bytes) {block : Bytes}
        → parse_size_line line ≡ ok 0
        → TrailerBlock n block
        → Chunked n (line ++ (crlf ++ block)) []

  -- The rest of a chunk of which `remaining` bytes are to come, and the chunks behind it.
  pub record ChunkRest (n remaining : ℕ) (wire body : Bytes) : Type 0 where
    pub payload_bytes : Bytes
    pub wire_behind : Bytes
    pub body_behind : Bytes
    pub counted : length payload_bytes ≡ remaining
    pub wire_splits : wire ≡ payload_bytes ++ (crlf ++ wire_behind)
    pub body_splits : body ≡ payload_bytes ++ body_behind
    pub chunked : Chunked n wire_behind body_behind

  pub record AfterCrlf (n : ℕ) (wire body : Bytes) : Type 0 where
    pub wire_behind : Bytes
    pub wire_splits : wire ≡ crlf ++ wire_behind
    pub chunked : Chunked n wire_behind body

  -- What is still to come of a body, from each state of the decoder on.
  abbrev pub Rest : (n : ℕ) → DecoderState → (wire body : Bytes) → Type 0
  Rest n nothing wire body = (wire ≡ []) × (body ≡ [])
  Rest n (fixed_left remaining) wire body = (wire ≡ body) × (length body ≡ remaining)
  Rest n (in_chunks (size_line scanned)) wire body = Chunked n wire body
  Rest n (in_chunks (chunk_left remaining)) wire body = ChunkRest n remaining wire body
  Rest n (in_chunks chunk_crlf) wire body = AfterCrlf n wire body
  Rest n (in_chunks (trailer_block scanned)) wire body = TrailerBlock n wire × (body ≡ [])
  Rest n to_eof wire body = wire ≡ body
  Rest n done wire body = (wire ≡ []) × (body ≡ [])
  Rest n (failed e) wire body = ⊥

-- The prefix that an outcome reports, and the payload that it points at.
abbrev pub consumed_of : {H : Type 0} → DecodeOutcome H → ℕ
consumed_of (need_more consumed) = consumed
consumed_of (payload start stop consumed) = consumed
consumed_of (trailer_fields fields consumed) = consumed
consumed_of (end consumed) = consumed

abbrev pub payload_of : {H : Type 0} → DecodeOutcome H → Bytes → Bytes
payload_of (payload start stop consumed) input = take (stop - start) (drop start input)
payload_of (need_more consumed) input = []
payload_of (trailer_fields fields consumed) input = []
payload_of (end consumed) input = []

-- Calls of `decode` one after the other, each on any input: `wire` is what they consumed and
-- `body` the payload that they delivered.
module _ {H : Type 0} (parse_trailers : ℕ → Bytes → Result DecodeError (ℕ × H)) where
  pub data Run (last : BodyDecoder) : BodyDecoder → Bytes → Bytes → Type 0 where
    stop : Run last last [] []
    call :
        {d next : BodyDecoder} (input : Bytes) (eof : Bool) {outcome : DecodeOutcome H}
        {wire body : Bytes}
        → decode parse_trailers d input eof ≡ (next, ok outcome)
        → Run last next wire body
        → Run last d (take (consumed_of outcome) input ++ wire) (payload_of outcome input ++ body)
