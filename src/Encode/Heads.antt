-- ===== src/Encode/Heads.antt =====
-- src/proto/h1/encode.rs: the heads of requests and responses, from their framing to their bytes.
use vakya.Prelude.{
  Bool, true, false, not, Option, List, [], ◌∷◌, ◌==◌, if◌then◌else◌, Bytes, Result, ok, err, ◌>>=◌,
  map_err,
}
use vakya.Message.{BodyMode, empty, fixed, chunked, until_eof}
use vakya.Http.{Http, Version, http_10, http_11, Method, HeaderName}
use vakya.Head.Request.{RequestHead, ValidatedRequestHead, validate_for, or_else}
use vakya.Head.Response.{ResponseHead, ValidatedResponseHead, validate}
use vakya.Encode.{
  BodyMetadata, EncodeConfig, EncodeError, invalid_framing, unsupported, BoundedWriter, new_writer,
  push,
}
use vakya.Encode.Fields.{write_headers}
use vakya.Encode.Plan.{map_head_error, plan_request_framing, plan_response_framing}

abbrev pub same_mode : BodyMode → BodyMode → Bool
same_mode empty empty = true
same_mode (fixed m) (fixed n) = m == n
same_mode chunked chunked = true
same_mode until_eof until_eof = true
same_mode _ _ = false

unfoldable pub version_bytes : Version → Result EncodeError Bytes
version_bytes http_10 = ok (b'H' ∷ b'T' ∷ b'T' ∷ b'P' ∷ b'/' ∷ b'1' ∷ b'.' ∷ b'0' ∷ [])
version_bytes http_11 = ok (b'H' ∷ b'T' ∷ b'T' ∷ b'P' ∷ b'/' ∷ b'1' ∷ b'.' ∷ b'1' ∷ [])
version_bytes _ = err unsupported

abbrev pub line_end : Bytes
line_end = b'\r' ∷ b'\n' ∷ []

-- Parts one after the other.
unfoldable pub push_all : BoundedWriter → List Bytes → Result EncodeError BoundedWriter
push_all w [] = ok w
push_all w (part ∷ parts) = push w part >>= λ next. push_all next parts

-- `MessagePlan`
pub record MessagePlan (H : Type 0) : Type 0 where
  pub bytes : Bytes
  pub head : H

module _ (http : Http) where
  -- The spellings of the field names of a received head, where they were kept.
  abbrev pub HeaderCase : Type 0
  HeaderCase = Option (HeaderName → List Bytes)

  unfoldable pub write_request :
      ValidatedRequestHead http → HeaderCase → EncodeConfig → Result EncodeError BoundedWriter
  unfolding new_writer
  write_request v original_case config = do
    started ← push_all (new_writer config.max_head_bytes) (
        http.method_str v.head.method
        ∷ (b' ' ∷ [])
        ∷ http.uri_text v.head.target
        ∷ (b' ' ∷ [])
        ∷ [])
    version ← version_bytes v.head.version
    lined ← push_all started (version ∷ line_end ∷ [])
    written ← write_headers http lined v.head.headers original_case config.title_case_headers
    push written line_end

  -- From the validation on.
  unfoldable pub request_planned :
      BodyMode
      → ValidatedRequestHead http
      → HeaderCase
      → EncodeConfig
      → Result EncodeError (MessagePlan (ValidatedRequestHead http))
  request_planned mode v original_case config =
      if not (same_mode v.body mode)
      then err invalid_framing
      else write_request v original_case config >>= λ w. ok record { bytes = w.bytes; head = v }

  unfoldable pub prepare_request_head :
      RequestHead http
      → HeaderCase
      → BodyMetadata
      → EncodeConfig
      → Result EncodeError (MessagePlan (ValidatedRequestHead http))
  prepare_request_head request original_case metadata config =
      plan_request_framing http request.headers request.version metadata >>= λ (set, mode).
      map_err map_head_error (validate_for http false (record request { headers = set })) >>= λ v.
      request_planned mode v original_case config

  unfoldable pub write_response :
      ValidatedResponseHead http → HeaderCase → EncodeConfig → Result EncodeError BoundedWriter
  unfolding new_writer
  write_response v original_case config = do
    version ← version_bytes v.head.version
    lined ← push_all (new_writer config.max_head_bytes) (
        version
        ∷ (b' ' ∷ [])
        ∷ http.status_str v.head.status
        ∷ (b' ' ∷ [])
        ∷ or_else [] (http.canonical_reason v.head.status)
        ∷ line_end
        ∷ [])
    written ← write_headers http lined v.head.headers original_case config.title_case_headers
    push written line_end

  unfoldable pub response_planned :
      BodyMode
      → ValidatedResponseHead http
      → HeaderCase
      → EncodeConfig
      → Result EncodeError (MessagePlan (ValidatedResponseHead http))
  response_planned mode v original_case config =
      if not (same_mode v.body mode)
      then err invalid_framing
      else write_response v original_case config >>= λ w. ok record { bytes = w.bytes; head = v }

  unfoldable pub prepare_response_head :
      ResponseHead http
      → HeaderCase
      → BodyMetadata
      → (request_method : Method) → EncodeConfig
      → Result EncodeError (MessagePlan (ValidatedResponseHead http))
  prepare_response_head response original_case metadata request_method config =
      plan_response_framing http response.headers response.version response.status metadata
        request_method
      >>= λ (set, mode).
          map_err map_head_error (validate http (record response { headers = set }) request_method)
          >>= λ v. response_planned mode v original_case config
