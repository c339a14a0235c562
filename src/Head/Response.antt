-- ===== src/Head/Response.antt =====
-- src/proto/h1/head/validate.rs: the validation of response heads.
use vakya.Prelude.{
  ℕ, Bool, true, false, ◌&&◌, ◌||◌, Option, none, some, List, ltb, ◌==◌, if◌then◌else◌, Bytes,
  Result, ok, err, ◌>>=◌, is_some,
}
use vakya.Message.{BodyMode, empty, until_eof, Persistence, close, UpgradeKind, protocol, tunnel}
use vakya.Http.{
  Http, Version, Method, connect, head, connection, content_length, transfer_encoding, upgrade,
}
use vakya.Head.{HeadError, invalid_status, invalid_upgrade}
use vakya.Head.Options.{
  ConnectionOptions, connection_options, persistence_of, validate_protocol_upgrade, is_http_11,
}
use vakya.Head.Request.{framing_of, or_else}

abbrev pub is_connect : Method → Bool
is_connect connect = true
is_connect _ = false

abbrev pub is_head : Method → Bool
is_head head = true
is_head _ = false

-- A body that only the end of the connection ends closes the connection.
unfoldable pub settle : BodyMode → Persistence → Persistence
settle until_eof persistence = close
settle _ persistence = persistence

module _ (http : Http) where
  pub record ResponseHead : Type 0 where
    pub version : Version
    pub status : ℕ
    pub headers : http.HeaderMap

  pub record ValidatedResponseHead : Type 0 where
    pub upgrade : Option UpgradeKind
    pub head : ResponseHead
    pub body : BodyMode
    pub persistence : Persistence

  -- `SWITCHING_PROTOCOLS` is 101.
  unfoldable pub response_upgrade :
      Version
      → (status : ℕ) → (values : List Bytes) → ConnectionOptions
      → Method
      → Result HeadError (Option UpgradeKind)
  unfolding validate_protocol_upgrade
  response_upgrade version status values chosen method =
      if status == 101
      then (if is_http_11 version
          then (validate_protocol_upgrade values chosen >>= λ _. ok (some protocol))
          else err invalid_upgrade)
      else ok (if is_connect method && http.is_success status then some tunnel else none)

  -- The responses that have no body: `NO_CONTENT` is 204, `RESET_CONTENT` 205, `NOT_MODIFIED` 304.
  unfoldable pub bodiless : Option UpgradeKind → Method → (status : ℕ) → Bool
  bodiless upgrades method status =
      is_some upgrades
      || is_head method
      || http.is_informational status
      || status == 204
      || status == 205
      || status == 304

  unfoldable pub response_body :
      (bodiless : Bool) → (lengths codings : List Bytes) → Version → Result HeadError BodyMode
  unfolding framing_of
  response_body true lengths codings version = ok empty
  response_body false lengths codings version =
      framing_of lengths codings version >>= λ framing. ok (or_else until_eof framing)

  unfoldable pub validate :
      ResponseHead → (request_method : Method) → Result HeadError ValidatedResponseHead
  validate response request_method =
      let values = http.get_all response.headers in
      if ltb 599 response.status then err invalid_status else (do
        chosen ← connection_options (values connection)
        upgrades ←
            response_upgrade response.version response.status (values upgrade) chosen request_method
        body ←
            response_body (bodiless upgrades request_method response.status) (values content_length)
              (values transfer_encoding) response.version
        ok record {
          upgrade = upgrades;
          head = response;
          body = body;
          persistence = settle body (persistence_of response.version chosen);
        })
