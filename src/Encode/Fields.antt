-- ===== src/Encode/Fields.antt =====
-- src/proto/h1/encode.rs: the fields of heads and trailers on the wire; src/proto/h1/decode.rs:
-- `validate_trailers`; src/proto/h1/header_case.rs: the spellings of field names.
use vakya.Prelude.{
  Bool, true, false, not, ◌||◌, Option, none, some, List, [], ◌∷◌, ◌==◌, if◌then◌else◌, Bytes,
  Result, ok, err, ◌>>=◌,
}
use vakya.Message.{trailer_bytes}
use vakya.Http.{
  Http, HeaderName, connection, content_length, expect, host, transfer_encoding, upgrade, trailer,
  te, authorization, proxy_authorization, proxy_authenticate, www_authenticate, content_encoding,
  content_type, content_range, named,
}
use vakya.Encode.{
  EncodeError, length_mismatch, trailers_forbidden, frame_after_end, BoundedWriter, new_writer,
  push, write_header_name,
}
use vakya.Encode.Stream.{BodyEncoder, BodyState, chunked_body, finished, broken, fail, has_trailers}

-- The list in `validate_trailers`.
unfoldable pub is_forbidden : HeaderName → Bool
is_forbidden expect = true
is_forbidden connection = true
is_forbidden content_length = true
is_forbidden host = true
is_forbidden transfer_encoding = true
is_forbidden upgrade = true
is_forbidden trailer = true
is_forbidden te = true
is_forbidden authorization = true
is_forbidden proxy_authorization = true
is_forbidden proxy_authenticate = true
is_forbidden www_authenticate = true
is_forbidden content_encoding = true
is_forbidden content_type = true
is_forbidden content_range = true
is_forbidden (named name) = false

-- `validate_trailers` on the names: whether one is forbidden.
unfoldable pub any_forbidden : List HeaderName → Bool
unfolding is_forbidden
any_forbidden [] = false
any_forbidden (name ∷ names) = is_forbidden name || any_forbidden names

-- The next spelling and those behind it.
abbrev pub first_of : List Bytes → Option Bytes
first_of [] = none
first_of (s ∷ ss) = some s

abbrev pub rest_of : List Bytes → List Bytes
rest_of [] = []
rest_of (s ∷ ss) = ss

-- One line: a name, a colon, a value and a line end.
unfoldable pub write_line :
    BoundedWriter
    → (name : Bytes) → (spelling : Option Bytes) → (title : Bool) → (value : Bytes)
    → Result EncodeError BoundedWriter
write_line w name spelling title value = do
  called ← write_header_name w name spelling title
  marked ← push called (b':' ∷ b' ' ∷ [])
  valued ← push marked value
  push valued (b'\r' ∷ b'\n' ∷ [])

-- The loop over the values of one name.
unfoldable pub write_values :
    BoundedWriter
    → (name : Bytes) → (spellings : List Bytes) → (title : Bool) → (values : List Bytes)
    → Result EncodeError BoundedWriter
write_values w name spellings title [] = ok w
write_values w name spellings title (value ∷ values) =
    write_line w name (first_of spellings) title value >>= λ next.
    write_values next name (rest_of spellings) title values

module _ (http : Http) where
  -- With the spellings of the names that a received head had.
  unfoldable pub write_keys :
      BoundedWriter
      → http.HeaderMap
      → (spellings : HeaderName → List Bytes) → (title : Bool) → List HeaderName
      → Result EncodeError BoundedWriter
  write_keys w fields spellings title [] = ok w
  write_keys w fields spellings title (name ∷ names) =
      write_values w (http.as_str name) (spellings name) title (http.get_all fields name)
      >>= λ next. write_keys next fields spellings title names

  unfoldable pub write_pairs :
      BoundedWriter → (title : Bool) → List (HeaderName × Bytes) → Result EncodeError BoundedWriter
  write_pairs w title [] = ok w
  write_pairs w title ((name, value) ∷ pairs) =
      write_line w (http.as_str name) none title value >>= λ next. write_pairs next title pairs

  -- `original_case` is a map from names to their spellings in order.
  unfoldable pub write_headers :
      BoundedWriter
      → http.HeaderMap
      → (original_case : Option (HeaderName → List Bytes)) → (title : Bool)
      → Result EncodeError BoundedWriter
  write_headers w fields (some spellings) title =
      write_keys w fields spellings title (http.keys fields)
  write_headers w fields none title = write_pairs w title (http.iter fields)

  unfoldable pub trailer_writer : BodyEncoder → BoundedWriter
  unfolding new_writer
  trailer_writer e = record (new_writer e.max_trailer_bytes) { kind = trailer_bytes }

  -- The last chunk, the trailers and the empty line.
  unfoldable pub write_trailers : BodyEncoder → http.HeaderMap → Result EncodeError BoundedWriter
  write_trailers e fields = do
    last ← push (trailer_writer e) (b'0' ∷ b'\r' ∷ b'\n' ∷ [])
    written ← write_headers last fields none e.title_case_headers
    push written (b'\r' ∷ b'\n' ∷ [])

  -- After the write of the trailers.
  unfoldable pub trailers_written :
      BodyEncoder → Result EncodeError BoundedWriter → BodyEncoder × Result EncodeError Bytes
  trailers_written e (err error) = fail e error
  trailers_written e (ok w) = (record e { state = finished }, ok w.bytes)

  -- `trailers` from the check of the lower bound on.
  unfoldable pub trailers_within :
      BodyEncoder → http.HeaderMap → BodyEncoder × Result EncodeError Bytes
  trailers_within e fields =
      if not (e.remaining_lower == 0)
      then fail e length_mismatch
      else if not (has_trailers e.trailers) || any_forbidden (http.keys fields)
      then fail e trailers_forbidden
      else trailers_written e (write_trailers e fields)

  unfoldable pub trailers_in :
      BodyState → BodyEncoder → http.HeaderMap → BodyEncoder × Result EncodeError Bytes
  trailers_in (broken error) e fields = (e, err error)
  trailers_in finished e fields = fail e frame_after_end
  trailers_in chunked_body e fields = trailers_within e fields
  trailers_in _ e fields = fail e trailers_forbidden

  -- The method `trailers`.
  unfoldable pub send_trailers :
      BodyEncoder → http.HeaderMap → BodyEncoder × Result EncodeError Bytes
  send_trailers e fields = trailers_in e.state e fields
