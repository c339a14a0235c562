-- ===== src/Encode/Stream.antt =====
-- src/proto/h1/encode.rs: the encoder of message bodies, frame by frame.
use vakya.Prelude.{
  ℕ, zero, suc, ◌+◌, ◌-◌, ◌/◌, ◌%◌, Bool, true, false, not, ◌||◌, Option, none, some, [], ◌∷◌, ltb,
  ◌==◌, if◌then◌else◌, length, Bytes, Result, ok, err, ◌>>=◌,
}
use vakya.Message.{BodyMode, empty, fixed, chunked, until_eof, TrailerHint, no_trailers, may_have}
use vakya.Body.{exact}
use vakya.Encode.{
  BodyMetadata, EncodeConfig, EncodeError, invalid_framing, length_mismatch, body_forbidden,
  trailers_forbidden, frame_after_end,
}

pub record DataFraming : Type 0 where
  pub prefix : Bytes
  pub suffix : Bytes

pub data BodyState : Type 0 where
  no_body fixed_body chunked_body close_delimited finished : BodyState
  broken : EncodeError → BodyState

pub record BodyEncoder : Type 0 where
  pub state : BodyState
  pub max_trailer_bytes : ℕ
  pub title_case_headers : Bool
  pub remaining_lower : ℕ
  pub remaining_upper : Option ℕ
  pub trailers : TrailerHint

unfoldable pub state_of : BodyMode → BodyState
state_of empty = no_body
state_of (fixed length) = fixed_body
state_of chunked = chunked_body
state_of until_eof = close_delimited

abbrev pub has_trailers : TrailerHint → Bool
has_trailers no_trailers = false
has_trailers may_have = true

abbrev pub is_exactly : ℕ → Option ℕ → Bool
is_exactly length none = false
is_exactly length (some n) = n == length

-- The checks of `BodyEncoder::new`.
unfoldable pub new_checks : BodyMode → BodyMetadata → Result EncodeError (Unit {0})
unfolding exact
new_checks (fixed length) metadata =
    if not (is_exactly length (exact metadata.size)) || has_trailers metadata.trailers
    then err invalid_framing
    else ok tt
new_checks until_eof metadata =
    if has_trailers metadata.trailers then err trailers_forbidden else ok tt
new_checks empty metadata = ok tt
new_checks chunked metadata = ok tt

-- The encoder that passes the checks.
unfoldable pub opened : BodyMode → BodyMetadata → EncodeConfig → BodyEncoder
unfolding state_of
opened mode metadata config = record {
  state = state_of mode;
  max_trailer_bytes = config.max_trailer_bytes;
  title_case_headers = config.title_case_headers;
  remaining_lower = metadata.size.lower;
  remaining_upper = metadata.size.upper;
  trailers = metadata.trailers;
}

unfoldable pub new_encoder : BodyMode → BodyMetadata → EncodeConfig → Result EncodeError BodyEncoder
unfolding new_checks
new_encoder mode metadata config =
    new_checks mode metadata >>= λ _. ok (opened mode metadata config)

abbrev pub fail {ℓ} : {A : Type ℓ} → BodyEncoder → EncodeError → BodyEncoder × Result EncodeError A
fail e error = (record e { state = broken error }, err error)

abbrev pub hex_digit : ℕ → ℕ
hex_digit v = if ltb v 10 then b'0' + v else b'a' + (v - 10)

-- `w - n.leading_zeros()` for a number of `w` bits
unfoldable pub bit_len : (w n : ℕ) → ℕ
bit_len zero n = 0
bit_len (suc w) n = let rest = bit_len w (n / 2) in if n == 0 then 0 else suc rest

-- The loop of `chunk_prefix`, behind it what stands from `cursor` on.
unfoldable pub write_digits : (cursor length : ℕ) → Bytes → Bytes
write_digits zero length bytes = bytes
write_digits (suc cursor) length bytes =
    write_digits cursor (length / 16) (hex_digit (length % 16) ∷ bytes)

unfoldable pub prefix_digits : ℕ → ℕ
unfolding bit_len
prefix_digits length = (bit_len 64 length + 3) / 4

unfoldable pub chunk_prefix : ℕ → Bytes
unfolding write_digits prefix_digits
chunk_prefix length = write_digits (prefix_digits length) length (b'\r' ∷ b'\n' ∷ [])

abbrev pub unframed : DataFraming
unframed = record { prefix = []; suffix = [] }

-- The framing of a frame that the bounds admit.
unfoldable pub framing_of : BodyState → ℕ → DataFraming
unfolding chunk_prefix
framing_of chunked_body length =
    if length == 0
    then unframed
    else record { prefix = chunk_prefix length; suffix = b'\r' ∷ b'\n' ∷ [] }
framing_of _ length = unframed

abbrev pub exceeds : ℕ → Option ℕ → Bool
exceeds length none = false
exceeds length (some upper) = ltb upper length

abbrev pub reduce : ℕ → Option ℕ → Option ℕ
reduce length none = none
reduce length (some upper) = some (upper - length)

-- From the check of the bounds on.
unfoldable pub data_within : BodyEncoder → ℕ → BodyEncoder × Result EncodeError DataFraming
unfolding framing_of
data_within e length = if exceeds length e.remaining_upper then fail e length_mismatch else (
  record e {
    remaining_lower = e.remaining_lower - length;
    remaining_upper = reduce length e.remaining_upper;
  },
  ok (framing_of e.state length),
)

unfoldable pub data_in : BodyState → BodyEncoder → ℕ → BodyEncoder × Result EncodeError DataFraming
unfolding data_within
data_in (broken error) e length = (e, err error)
data_in finished e length = fail e frame_after_end
data_in no_body e length = fail e body_forbidden
data_in _ e length = data_within e length

-- The method `data`.
unfoldable pub data_frame : BodyEncoder → ℕ → BodyEncoder × Result EncodeError DataFraming
unfolding data_in
data_frame e length = data_in e.state e length

abbrev pub end_chunk : Bytes
end_chunk = b'0' ∷ b'\r' ∷ b'\n' ∷ b'\r' ∷ b'\n' ∷ []

-- `finish` from the check of the lower bound on.
unfoldable pub finish_within : BodyEncoder → Bytes → BodyEncoder × Result EncodeError Bytes
finish_within e bytes =
    if e.remaining_lower == 0
    then (record e { state = finished }, ok bytes)
    else fail e length_mismatch

unfoldable pub finish_in : BodyState → BodyEncoder → BodyEncoder × Result EncodeError Bytes
unfolding finish_within
finish_in (broken error) e = (e, err error)
finish_in finished e = fail e frame_after_end
finish_in no_body e = (record e { state = finished }, ok [])
finish_in fixed_body e = finish_within e []
finish_in close_delimited e = finish_within e []
finish_in chunked_body e = finish_within e end_chunk

unfoldable pub finish : BodyEncoder → BodyEncoder × Result EncodeError Bytes
unfolding finish_in
finish e = finish_in e.state e
