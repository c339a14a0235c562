-- ===== src/Encode/RoundTrip.antt =====
-- What the encoder of a framing mode writes is a body in that mode's grammar, which the decoder
-- reads.
use vakya.Prelude.{
  ℕ, ◌≤◌, ◌≡◌, refl, ap, ◌∙◌, ◌≢◌, ◌⊎◌, inl, inr, false, Option, none, some, List, [], ◌∷◌, ◌++◌,
  append_assoc, arith, leb, ◌==◌, leb→le, ==_iff, Bool-cases, Option-cases, length, All, Bytes,
  u64_max, Result, ok, >>=-eq-ok,
}
use vakya.Chunk.{DecodeError, parse_size_line}
use vakya.Decode.Reach.{crlf}
use vakya.Decode.Input.{initial_state}
use vakya.Decode.Grammar.{Chunked, chunk, last, Rest}
use vakya.Message.{BodyMode, empty, fixed, chunked, until_eof}
use vakya.Body.{exact, exact-eq_some}
use vakya.Encode.{BodyMetadata, EncodeConfig}
use vakya.Encode.Stream.{
  BodyState, no_body, fixed_body, chunked_body, close_delimited, finished, broken, BodyEncoder,
  unframed, framing_of, data_in, data_frame, finish_in, finish, state_of, opened, new_checks,
  new_encoder, chunk_prefix,
}
use vakya.Encode.Digits.{chunk_prefix-ChunkPrefix, digits-parse}
use vakya.Encode.Frames.{
  encode_body, concat, total, length-concat, WithinBounds, Below, IsOpen, wire_of,
  encode_body-WithinBounds,
}

pub framing_of-zero : framing_of chunked_body 0 ≡ unframed
unfolding framing_of
framing_of-zero = refl

pub framing_of-chunk :
    (n : ℕ) → n ≢ 0 → framing_of chunked_body n ≡ record { prefix = chunk_prefix n; suffix = crlf }
unfolding framing_of
framing_of-chunk n nonzero = let some_bytes : (n == 0) ≡ false = ground arith in rw some_bytes refl

pub zero_line : parse_size_line (b'0' ∷ []) ≡ ok 0
zero_line = digits-parse (b'0' ∷ []) (λ e. cc) (ground arith, tt) (omega arith)

abbrev IsPlain : (s : BodyState) → Type 0
IsPlain fixed_body = Unit
IsPlain close_delimited = Unit
IsPlain _ = ⊥

wire_of-IsPlain :
    (s : BodyState) (frames : List Bytes) → IsPlain s → wire_of s frames ≡ concat frames
unfolding framing_of
wire_of-IsPlain fixed_body [] h = refl
wire_of-IsPlain fixed_body (f ∷ fs) h = ap (◌++◌ f) (wire_of-IsPlain fixed_body fs h)
wire_of-IsPlain close_delimited [] h = refl
wire_of-IsPlain close_delimited (f ∷ fs) h = ap (◌++◌ f) (wire_of-IsPlain close_delimited fs h)
wire_of-IsPlain no_body fs h = absurd h
wire_of-IsPlain chunked_body fs h = absurd h
wire_of-IsPlain finished fs h = absurd h
wire_of-IsPlain (broken e) fs h = absurd h

module _ {H : Type 0} (parse_trailers : ℕ → Bytes → Result DecodeError (ℕ × H)) (none_left : H)
    (empty_block : (n : ℕ) → parse_trailers n crlf ≡ ok (2, none_left)) where
  wire_of-Chunked :
      (n : ℕ) (frames : List Bytes)
      → All (λ f. length f ≤ u64_max) frames
      → Chunked parse_trailers n (wire_of chunked_body frames) (concat frames)
  wire_of-Chunked n [] sizes =
      last (b'0' ∷ []) zero_line record { behind = []; fields = none_left; parsed = empty_block n }
  wire_of-Chunked n ([] ∷ fs) (size, sizes) = rw framing_of-zero (wire_of-Chunked n fs sizes)
  wire_of-Chunked n ((b ∷ bs) ∷ fs) (size, sizes) =
      let f = b ∷ bs in
      let p = chunk_prefix-ChunkPrefix (length f) (omega arith) size in
      rw (framing_of-chunk (length f) (omega arith), p.splits)
        (rw (append_assoc p.line crlf (f ++ (crlf ++ wire_of chunked_body fs)))
          (chunk p.line f p.parsed (omega arith) refl (wire_of-Chunked n fs sizes)))

Below-decided : (n : ℕ) (upper : Option ℕ) → Below n upper ⊎ ¬ Below n upper
Below-decided n none = inl tt
Below-decided n (some upper) = elim (Bool-cases (leb n upper)) [
  | inl h ↦ inl (leb→le n upper h)
  | inr h ↦ inr (ground arith)
]

bounds_decided : (e : BodyEncoder) (n : ℕ) → WithinBounds e n ⊎ ¬ WithinBounds e n
bounds_decided e n = elim (Below-decided n e.remaining_upper) [
  | inr u ↦ inr (λ (l, v). u v)
  | inl u ↦ elim (Bool-cases (leb e.remaining_lower n)) [
    | inl l ↦ inl (leb→le e.remaining_lower n l, u)
    | inr l ↦ inr (λ (k, v). absurd (ground arith))
  ]
]

-- What `new` checks, and the encoder that it makes.
pub new_encoder-eq_ok :
    (mode : BodyMode) (metadata : BodyMetadata) (config : EncodeConfig) (e : BodyEncoder)
    → new_encoder mode metadata config ≡ ok e
    → (new_checks mode metadata ≡ ok tt) × (opened mode metadata config ≡ e)
unfolding new_encoder
new_encoder-eq_ok mode metadata config e h =
    let (unit, checked, made) = >>=-eq-ok (new_checks mode metadata) _ h in (checked, cc)

pub accepted :
    (e : BodyEncoder) (frames : List Bytes) (wire : Bytes)
    → IsOpen e.state
    → encode_body e frames ≡ ok wire
    → WithinBounds e (total frames) × (wire ≡ wire_of e.state frames)
accepted e frames wire is_open h =
    let (good, bad) = encode_body-WithinBounds e frames is_open in
    elim (bounds_decided e (total frames)) [
      | inl within ↦ (within, let k = good within in cc)
      | inr over ↦ absurd (let k = bad over in cc)
    ]

fixed_size :
    (n : ℕ) (metadata : BodyMetadata)
    → new_checks (fixed n) metadata ≡ ok tt
    → (metadata.size.lower ≡ n) × (metadata.size.upper ≡ some n)
unfolding new_checks
fixed_size n metadata h = elim (Option-cases (exact metadata.size)) [
  | inl e ↦ absurd (let k = rw e at h in cc)
  | inr (m, e) ↦ elim (Bool-cases (m == n)) [
    | inl same ↦ exact-eq_some metadata.size n (e ∙ ap some ((==_iff m n).0 same))
    | inr differs ↦ absurd (let k = rw (e, differs) at h in cc)
  ]
]

empty_body :
    (e : BodyEncoder) (frames : List Bytes) (wire : Bytes)
    → e.state ≡ no_body
    → encode_body e frames ≡ ok wire
    → (wire ≡ []) × (concat frames ≡ [])
unfolding encode_body data_frame data_in finish finish_in
empty_body e [] wire s h = (let k = rw s at h in cc, refl)
empty_body e (f ∷ fs) wire s h = absurd (let k = rw s at h in cc)

module _ {H : Type 0} (parse_trailers : ℕ → Bytes → Result DecodeError (ℕ × H)) (none_left : H)
    (empty_block : (n : ℕ) → parse_trailers n crlf ≡ ok (2, none_left)) where
  written-Rest :
      (n : ℕ) (mode : BodyMode) (metadata : BodyMetadata) (config : EncodeConfig)
      (frames : List Bytes) (wire : Bytes)
      → new_checks mode metadata ≡ ok tt
      → All (λ f. length f ≤ u64_max) frames
      → encode_body (opened mode metadata config) frames ≡ ok wire
      → Rest parse_trailers n (initial_state mode) wire (concat frames)
  unfolding initial_state opened state_of
  written-Rest n empty metadata config frames wire checks sizes h =
      empty_body (opened empty metadata config) frames wire refl h
  written-Rest n (fixed size) metadata config frames wire checks sizes h =
      let ((l, u), same) = accepted (opened (fixed size) metadata config) frames wire tt h in
      let (lower, upper) = fixed_size size metadata checks in
      let most : total frames ≤ size = rw upper at u in
      (same ∙ wire_of-IsPlain fixed_body frames tt, omega (arith, length-concat frames))
  written-Rest n chunked metadata config frames wire checks sizes h =
      let (within, same) = accepted (opened chunked metadata config) frames wire tt h in
      rw same (wire_of-Chunked parse_trailers none_left empty_block n frames sizes)
  written-Rest n until_eof metadata config frames wire checks sizes h =
      let (within, same) = accepted (opened until_eof metadata config) frames wire tt h in
      same ∙ wire_of-IsPlain close_delimited frames tt

  -- Whatever an encoder of a framing mode writes for a sequence of frames and its end, from its
  -- creation on and without an error, is in that mode's grammar a whole body, whose payload is
  -- the frames one after the other: the body that the decoder of the same mode reads. It needs
  -- that no frame is longer than 2^64 - 1 bytes and that an empty trailer block parses.
  pub encode_body-Rest :
      (n : ℕ) (mode : BodyMode) (metadata : BodyMetadata) (config : EncodeConfig) (e : BodyEncoder)
      (frames : List Bytes) (wire : Bytes)
      → new_encoder mode metadata config ≡ ok e
      → All (λ f. length f ≤ u64_max) frames
      → encode_body e frames ≡ ok wire
      → Rest parse_trailers n (initial_state mode) wire (concat frames)
  encode_body-Rest n mode metadata config e frames wire made sizes h =
      let (checks, same) = new_encoder-eq_ok mode metadata config e made in
      written-Rest n mode metadata config frames wire checks sizes (rw (← same) at h)
