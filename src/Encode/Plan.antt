-- ===== src/Encode/Plan.antt =====
-- src/proto/h1/encode.rs: the framing of a head that is about to be sent, and the errors of its
-- validation.
use vakya.Prelude.{
  ℕ, Bool, not, ◌&&◌, ◌||◌, Option, none, some, [], ◌∷◌, ◌==◌, if◌then◌else◌, length, Bytes, Result,
  ok, err, ◌>>=◌, map_err, is_some,
}
use vakya.Message.{
  BodyMode, empty, fixed, chunked, until_eof, LimitKind, head_bytes, header_count,
  head_map_capacity,
}
use vakya.Body.{exact}
use vakya.Http.{Http, Version, Method, content_length, transfer_encoding}
use vakya.Head.{
  HeadError, HeadLimit, bytes, headers, header_map, limit, unsupported_transfer_coding,
  unsupported_version, ambiguous_message_length, invalid_content_length, invalid_transfer_encoding,
}
use vakya.Head.Framing.{parse_content_length, parse_transfer_encoding, is_none}
use vakya.Head.Options.{is_http_11}
use vakya.Head.Response.{is_connect, is_head}
use vakya.Encode.{
  BodyMetadata, EncodeError, invalid_head, invalid_framing, length_mismatch, body_forbidden,
  trailers_forbidden, unsupported,
}
use vakya.Encode.Stream.{has_trailers, is_exactly}

abbrev pub limit_kind : HeadLimit → LimitKind
limit_kind bytes = head_bytes
limit_kind headers = header_count
limit_kind header_map = head_map_capacity

unfoldable pub map_head_error : HeadError → EncodeError
map_head_error (limit l) = vakya.Encode.limit (limit_kind l)
map_head_error unsupported_transfer_coding = unsupported
map_head_error unsupported_version = unsupported
map_head_error ambiguous_message_length = invalid_framing
map_head_error invalid_content_length = invalid_framing
map_head_error invalid_transfer_encoding = invalid_framing
map_head_error _ = invalid_head

abbrev pub chunked_value : Bytes
chunked_value = b'c' ∷ b'h' ∷ b'u' ∷ b'n' ∷ b'k' ∷ b'e' ∷ b'd' ∷ []

-- The exact length of a body without trailers.
unfoldable pub plain_length : BodyMetadata → Option ℕ
plain_length metadata = if has_trailers metadata.trailers then none else exact metadata.size

module _ (http : Http) where
  abbrev pub Planned : Type 0
  Planned = Result EncodeError (http.HeaderMap × BodyMode)

  -- With the parsed `Content-Length`.
  unfoldable pub declare_length :
      http.HeaderMap → (length : ℕ) → Option ℕ → Result EncodeError http.HeaderMap
  declare_length fields length (some declared) =
      if declared == length then ok fields else err length_mismatch
  declare_length fields length none = ok (http.insert fields content_length (http.decimal length))

  unfoldable pub set_exact_length :
      http.HeaderMap → (length : ℕ) → Result EncodeError http.HeaderMap
  set_exact_length fields length =
      map_err map_head_error (parse_transfer_encoding (http.get_all fields transfer_encoding))
      >>= λ coding.
          if is_some coding
          then err invalid_framing
          else map_err map_head_error (parse_content_length (http.get_all fields content_length))
            >>= λ declared. declare_length fields length declared

  unfoldable pub set_chunked : http.HeaderMap → Result EncodeError http.HeaderMap
  set_chunked fields =
      if http.contains_key fields content_length
      then err invalid_framing
      else map_err map_head_error (parse_transfer_encoding (http.get_all fields transfer_encoding))
        >>= λ coding.
            ok (
              if is_none coding then http.insert fields transfer_encoding chunked_value else fields)

  unfoldable pub reject_framing_headers : http.HeaderMap → Result EncodeError (Unit {0})
  reject_framing_headers fields =
      if http.contains_key fields content_length || http.contains_key fields transfer_encoding
      then err invalid_framing
      else ok tt

  unfoldable pub plan_fixed : http.HeaderMap → ℕ → Planned
  plan_fixed fields length = set_exact_length fields length >>= λ set. ok (set, fixed length)

  unfoldable pub plan_chunked : http.HeaderMap → Planned
  plan_chunked fields = set_chunked fields >>= λ set. ok (set, chunked)

  unfoldable pub plan_request_framing : http.HeaderMap → Version → BodyMetadata → Planned
  plan_request_framing fields version metadata = elim (plain_length metadata) [
    | some length ↦ plan_fixed fields length
    | none ↦ if is_http_11 version then plan_chunked fields else err unsupported
  ]

  unfoldable pub plan_until_eof : http.HeaderMap → Planned
  plan_until_eof fields = reject_framing_headers fields >>= λ _. ok (fields, until_eof)

  unfoldable pub plan_representation_framing : http.HeaderMap → Version → BodyMetadata → Planned
  plan_representation_framing fields version metadata = elim (plain_length metadata) [
    | some length ↦ plan_fixed fields length
    | none ↦
        if is_http_11 version
        then plan_chunked fields
        else if has_trailers metadata.trailers
        then err trailers_forbidden
        else plan_until_eof fields
  ]

  unfoldable pub has_body : BodyMetadata → Bool
  unfolding exact
  has_body metadata = not (is_exactly 0 (exact metadata.size)) || has_trailers metadata.trailers

  -- A response that has no body and no framing field.
  unfoldable pub plan_forbidden : http.HeaderMap → BodyMetadata → Planned
  plan_forbidden fields metadata =
      if has_body metadata
      then err body_forbidden
      else if http.contains_key fields content_length || http.contains_key fields transfer_encoding
      then err body_forbidden
      else ok (fields, empty)

  -- A 205 response.
  unfoldable pub plan_reset : http.HeaderMap → BodyMetadata → Planned
  plan_reset fields metadata =
      if has_body metadata || http.contains_key fields transfer_encoding
      then err body_forbidden
      else set_exact_length fields 0 >>= λ set. ok (set, empty)

  -- `NO_CONTENT` is 204, `RESET_CONTENT` 205 and `NOT_MODIFIED` 304.
  unfoldable pub plan_response_framing :
      http.HeaderMap → Version → (status : ℕ) → BodyMetadata → Method → Planned
  plan_response_framing fields version status metadata request_method =
      let representation = plan_representation_framing fields version metadata in
      if (is_connect request_method && http.is_success status)
        || http.is_informational status
        || status == 204
      then plan_forbidden fields metadata
      else if is_head request_method || status == 304
      then (representation >>= λ (set, mode). ok (set, empty))
      else if status == 205
      then plan_reset fields metadata
      else representation
