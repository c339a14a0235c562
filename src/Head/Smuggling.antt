-- ===== src/Head/Smuggling.antt =====
-- The framing of a validated request: no two readers of its head can take its body for different
-- ones.
use vakya.Prelude.{
  ℕ, ◌≡◌, refl, ◌≢◌, inl, inr, Bool, true, Option, none, some, List, [], if◌then◌else◌, Bool-cases,
  length, All, Bytes, ok, >>=-eq-ok, ok-inj,
}
use vakya.Message.{BodyMode, empty, fixed, chunked, until_eof}
use vakya.Http.{
  Http, Version, http_11, content_length, transfer_encoding, connection, expect, upgrade,
}
use vakya.Head.Framing.{
  TransferFraming, chunked_framing, parse_content_length, parse_transfer_encoding,
}
use vakya.Head.Options.{is_http_11, persistence_of, connection_options, expectation}
use vakya.Head.Request.{
  framed, framing_of, or_else, RequestHead, ValidatedRequestHead, validate_for,
  validate_request_target, validate_host, normalize_absolute_host, is_absolute, request_upgrade,
  upgrade_allowed,
}
use vakya.Head.Length.{Denotes, LengthFrom, parse_content_length-LengthFrom}
use vakya.Head.Coding.{OnlyChunked, CodingFrom, parse_transfer_encoding-CodingFrom}

-- What the values of `Content-Length` and `Transfer-Encoding` say of a body.
abbrev pub Framed : (lengths codings : List Bytes) → Version → BodyMode → Type 0
Framed lengths codings version empty = (lengths ≡ []) × (codings ≡ [])
Framed lengths codings version (fixed n) = (lengths ≢ []) × All (Denotes n) lengths × (codings ≡ [])
Framed lengths codings version chunked = (lengths ≡ []) × OnlyChunked codings × (version ≡ http_11)
Framed lengths codings version until_eof = ⊥

only_http_11 : (v : Version) → is_http_11 v ≡ true → v ≡ http_11
only_http_11 http_11 h = refl
only_http_11 vakya.Http.http_09 h = absurd (cc)
only_http_11 vakya.Http.http_10 h = absurd (cc)
only_http_11 vakya.Http.http_2 h = absurd (cc)
only_http_11 vakya.Http.http_3 h = absurd (cc)

framed-Framed :
    (lengths codings : List Bytes) (version : Version) (length : Option ℕ)
    (coding : Option TransferFraming) (framing : Option BodyMode)
    → LengthFrom length lengths
    → CodingFrom coding codings
    → framed length coding version ≡ ok framing
    → Framed lengths codings version (or_else empty framing)
unfolding framed
framed-Framed lengths codings version (some n) (some chunked_framing) framing l c h = absurd (cc)
framed-Framed lengths codings version (some n) none framing l c h =
    let k : some (fixed n) ≡ framing = cc in rw (← k) (l.0, l.1, c)
framed-Framed lengths codings version none none framing l c h =
    let k : none ≡ framing = cc in rw (← k) (l, c)
framed-Framed lengths codings version none (some chunked_framing) framing l c h =
    elim (Bool-cases (is_http_11 version)) [
      | inl new ↦
          let m : ok (some chunked) ≡ ok framing = rw new at h in
          let k : some chunked ≡ framing = cc in rw (← k) (l, c, only_http_11 version new)
      | inr old ↦ absurd (let k = rw old at h in cc)
    ]

framing_of-Framed :
    (lengths codings : List Bytes) (version : Version) (framing : Option BodyMode)
    → framing_of lengths codings version ≡ ok framing
    → Framed lengths codings version (or_else empty framing)
unfolding framing_of
framing_of-Framed lengths codings version framing h =
    let (length, parsed, later) = >>=-eq-ok (parse_content_length lengths) _ h in
    let (coding, coded, ended) = >>=-eq-ok (parse_transfer_encoding codings) _ later in
    framed-Framed lengths codings version length coding framing
      (parse_content_length-LengthFrom lengths length parsed)
      (parse_transfer_encoding-CodingFrom codings coding coded) ended

module _ (http : Http) where
  -- A request head that was validated, received or made here, has exactly one framing: without
  -- either field its body is empty; with a fixed length `n` there is no `Transfer-Encoding` and
  -- every member of every value of `Content-Length` stands for `n`; and it is chunked only without
  -- `Content-Length`, under HTTP/1.1, with `chunked` as the only transfer coding. It never runs
  -- until the end of the connection.
  pub validate_for-Framed :
      (received : Bool) (request : RequestHead http) (v : ValidatedRequestHead http)
      → validate_for http received request ≡ ok v
      → Framed
          (http.get_all v.head.headers content_length)
          (http.get_all v.head.headers transfer_encoding)
          v.head.version
          v.body
  unfolding validate_for
  validate_for-Framed received request v h =
      let (form, _, h1) =
        >>=-eq-ok (validate_request_target http request.method request.target) _ h in
      let (_, _, h2) = >>=-eq-ok (validate_host http request.headers request.version) _ h1 in
      let (headers, _, h3) =
        >>=-eq-ok
          (if is_absolute http form
            then normalize_absolute_host http request.headers request.target
            else ok request.headers)
          _ h2 in
      let (framing, parsed, h4) =
        >>=-eq-ok
          (framing_of (http.get_all headers content_length) (http.get_all headers transfer_encoding)
            request.version)
          _ h3 in
      let (chosen, _, h5) = >>=-eq-ok (connection_options (http.get_all headers connection)) _ h4 in
      let (expects, _, h6) =
        >>=-eq-ok (expectation (http.get_all headers expect) request.version received) _ h5 in
      let (upgrades, _, h7) =
        >>=-eq-ok
          (request_upgrade http received request.version form chosen (http.get_all headers upgrade))
          _ h6 in
      let (_, _, made) = >>=-eq-ok (upgrade_allowed http upgrades request.version) _ h7 in
      let result =
        ok-inj
          (record {
            head = record request { headers = headers };
            body = or_else empty framing;
            persistence = persistence_of request.version chosen;
            target_form = form;
            expectation = expects;
            upgrade = upgrades;
          })
          v made in
      rw (← result) (framing_of-Framed _ _ request.version framing parsed)
