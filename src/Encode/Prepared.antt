-- ===== src/Encode/Prepared.antt =====
-- The head of a request that is prepared for sending, and its bytes.
use vakya.Prelude.{
  append_assoc, List, ◌≤◌, ◌≡◌, refl, sym, inl, inr, false, [], ◌∷◌, ◌++◌, arith, Bool-cases,
  length, Bytes, ok, map_err, >>=-eq-ok, ok-inj, map_err-eq-ok,
}
use vakya.Message.{BodyMode}
use vakya.Http.{Http}
use vakya.Head.Request.{RequestHead, ValidatedRequestHead, validate_for}
use vakya.Encode.{BodyMetadata, EncodeConfig, BoundedWriter, new_writer}
use vakya.Encode.Fields.{write_headers}
use vakya.Encode.Heads.{
  version_bytes, push_all, MessagePlan, write_request, request_planned, prepare_request_head,
  line_end, HeaderCase, same_mode,
}
use vakya.Encode.Plan.{map_head_error, plan_request_framing}
use vakya.Encode.Writer.{Grows-trans, push-Grows, push_all-Grows, write_headers-Grows}
use vakya.Head.Smuggling.{Framed, validate_for-Framed}
use vakya.Http.{content_length, transfer_encoding}
use vakya.Http.{Version, http_09, http_10, http_11, http_2, http_3}
use vakya.Encode.Pushed.{push-bytes, push_all-bytes, write_headers-bytes}
use vakya.Encode.Lines.{
  FieldLine, joined_lines, is_length, is_coding, values_in, field_lines, Listed, lines-lengths,
  lines-codings,
}

-- "HTTP/1.0", "HTTP/1.1"; the other versions are not written.
abbrev pub version_text : Version → Bytes
version_text http_10 = b'H' ∷ b'T' ∷ b'T' ∷ b'P' ∷ b'/' ∷ b'1' ∷ b'.' ∷ b'0' ∷ []
version_text http_11 = b'H' ∷ b'T' ∷ b'T' ∷ b'P' ∷ b'/' ∷ b'1' ∷ b'.' ∷ b'1' ∷ []
version_text _ = []

version_bytes-eq-ok :
    (v : Version) (text : Bytes) → version_bytes v ≡ ok text → text ≡ version_text v
unfolding version_bytes
version_bytes-eq-ok http_10 text h = sym (ok-inj _ text h)
version_bytes-eq-ok http_11 text h = sym (ok-inj _ text h)
version_bytes-eq-ok http_09 text h = absurd (cc)
version_bytes-eq-ok http_2 text h = absurd (cc)
version_bytes-eq-ok http_3 text h = absurd (cc)

module _ (http : Http) where
  write_request-limit :
      (v : ValidatedRequestHead http) (original : HeaderCase http) (config : EncodeConfig)
      (w : BoundedWriter)
      → write_request http v original config ≡ ok w
      → length w.bytes ≤ config.max_head_bytes
  unfolding write_request new_writer
  write_request-limit v original config w h =
      let (a, started, h1) = >>=-eq-ok (push_all (new_writer config.max_head_bytes) _) _ h in
      let (version, _, h2) = >>=-eq-ok (version_bytes v.head.version) _ h1 in
      let (b, lined, h3) = >>=-eq-ok (push_all a (version ∷ line_end ∷ [])) _ h2 in
      let (c, headed, h4) =
        >>=-eq-ok (write_headers http b v.head.headers original config.title_case_headers) _ h3 in
      let grows = Grows-trans (push_all-Grows (new_writer config.max_head_bytes) a _ started) (
        Grows-trans (push_all-Grows a b _ lined) (
          Grows-trans
            (write_headers-Grows http b c v.head.headers original config.title_case_headers headed)
            (push-Grows c w line_end h4))) in
      omega (arith, grows.within (omega arith), grows.same_limit)

  -- The request line, the lines of the fields, and an empty line.
  abbrev pub request_text : RequestHead http → List FieldLine → Bytes
  request_text head lines =
      http.method_str head.method
      ++ (b' '
          ∷ (http.uri_text head.target
              ++ (b' '
                  ∷ (version_text head.version
                      ++ (b'\r' ∷ b'\n' ∷ (joined_lines lines ++ line_end))))))

  write_request-text :
      (v : ValidatedRequestHead http) (original : HeaderCase http) (config : EncodeConfig)
      (w : BoundedWriter)
      → write_request http v original config ≡ ok w
      → w.bytes
        ≡ request_text v.head (field_lines http v.head.headers original config.title_case_headers)
  unfolding write_request new_writer
  write_request-text v original config w h =
      let (a, started, h1) = >>=-eq-ok (push_all (new_writer config.max_head_bytes) _) _ h in
      let (version, versioned, h2) = >>=-eq-ok (version_bytes v.head.version) _ h1 in
      let (b, lined, h3) = >>=-eq-ok (push_all a (version ∷ line_end ∷ [])) _ h2 in
      let (c, headed, h4) =
        >>=-eq-ok (write_headers http b v.head.headers original config.title_case_headers) _ h3 in
      rw
        (
          push-bytes c w line_end h4,
          write_headers-bytes http b c v.head.headers original config.title_case_headers headed,
          push_all-bytes a b (version ∷ line_end ∷ []) lined,
          push_all-bytes (new_writer config.max_head_bytes) a _ started,
          version_bytes-eq-ok v.head.version version versioned,
        )
        (simp (append_assoc))

  -- The head of a prepared request and its bytes: their limit, what they are, and which framing the
  -- values of the framing fields among the written lines give.
  pub record Prepared (original : HeaderCase http) (config : EncodeConfig)
      (plan : MessagePlan (ValidatedRequestHead http)) : Type 0 where
    pub limited : length plan.bytes ≤ config.max_head_bytes
    pub lines : List FieldLine
    pub listed : lines ≡ field_lines http plan.head.head.headers original config.title_case_headers
    pub written : plan.bytes ≡ request_text plan.head.head lines
    pub framed :
        Framed
          (values_in is_length lines)
          (values_in is_coding lines)
          plan.head.head.version
          plan.head.body

  planned-Prepared :
      Listed http
      → (mode : BodyMode) (v : ValidatedRequestHead http) (original : HeaderCase http)
        (config : EncodeConfig) (plan : MessagePlan (ValidatedRequestHead http))
      → Framed
          (http.get_all v.head.headers content_length)
          (http.get_all v.head.headers transfer_encoding)
          v.head.version
          v.body
      → request_planned http mode v original config ≡ ok plan
      → Prepared original config plan
  unfolding request_planned
  planned-Prepared listed mode v original config plan framed h =
      elim (Bool-cases (same_mode v.body mode)) [
        | inr differs ↦ absurd (let k = rw differs at h in cc)
        | inl agrees ↦
            let (w, written, made) =
              >>=-eq-ok (write_request http v original config) _ (rw agrees at h) in
            let same = ok-inj (record { bytes = w.bytes; head = v }) plan made in
            let title = config.title_case_headers in
            rw (← same) (record {
              limited = write_request-limit v original config w written;
              lines = field_lines http v.head.headers original title;
              listed = refl;
              written = write_request-text v original config w written;
              framed =
                  rw
                    (
                      lines-lengths http listed v.head.headers original title,
                      lines-codings http listed v.head.headers original title,
                    )
                    framed;
            })
      ]

  -- The bytes of a request head that is prepared for sending are the request line, a line for each
  -- value of each field, with the spelling that was kept or asked for, and an empty line, and are
  -- no more than the limit on heads; and the values of `Content-Length` and `Transfer-Encoding` in
  -- these lines give the framing that the body is then sent with, and no other framing. It needs
  -- that the iterators of the field map keep what is documented of them.
  pub prepare_request_head-Prepared :
      Listed http
      → (request : RequestHead http) (original : HeaderCase http) (metadata : BodyMetadata)
        (config : EncodeConfig) (plan : MessagePlan (ValidatedRequestHead http))
      → prepare_request_head http request original metadata config ≡ ok plan
      → Prepared original config plan
  unfolding prepare_request_head
  prepare_request_head-Prepared listed request original metadata config plan h =
      let ((set, mode), _, h1) =
        >>=-eq-ok (plan_request_framing http request.headers request.version metadata) _ h in
      let (v, valid, h2) =
        >>=-eq-ok
          (map_err map_head_error (validate_for http false (record request { headers = set }))) _
          h1 in
      planned-Prepared listed mode v original config plan
        (validate_for-Framed http false (record request { headers = set }) v
          (map_err-eq-ok map_head_error _ v valid))
        h2
