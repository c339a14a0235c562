-- ===== src/Head/Request.antt =====
-- src/proto/h1/head/validate.rs: the validation of request heads.
use vakya.Prelude.{
  ℕ, Bool, true, false, not, ◌&&◌, ◌||◌, Option, none, some, List, [], ◌∷◌, ◌==◌, if◌then◌else◌,
  length, Bytes, Result, ok, err, ◌>>=◌, is_some,
}
use vakya.Syntax.{trim_ows}
use vakya.Message.{
  BodyMode, empty, fixed, chunked, Persistence, UpgradeKind, protocol, Expectation, TargetForm,
  origin, absolute, authority, asterisk,
}
use vakya.Http.{
  Http, Version, Method, connect, options, connection, content_length, expect, host,
  transfer_encoding, upgrade,
}
use vakya.Head.{
  HeadError, invalid_target_form, invalid_target, invalid_host, missing_host,
  ambiguous_message_length, invalid_transfer_encoding, invalid_upgrade, is_nil,
}
use vakya.Head.Framing.{
  TransferFraming, chunked_framing, parse_content_length, parse_transfer_encoding, is_none,
}
use vakya.Head.Options.{
  ConnectionOptions, connection_options, persistence_of, expectation, upgrade_intent, is_http_10,
  is_http_11,
}

abbrev pub contains : ℕ → Bytes → Bool
contains wanted [] = false
contains wanted (b ∷ bs) = b == wanted || contains wanted bs

abbrev pub starts_with : ℕ → Bytes → Bool
starts_with wanted [] = false
starts_with wanted (b ∷ bs) = b == wanted

-- The checks on both framing fields, which requests and responses share: an ambiguous length, and
-- a transfer coding where the version has none. What is left is the framing, `none` with neither.
unfoldable pub framed :
    Option ℕ → Option TransferFraming → Version → Result HeadError (Option BodyMode)
framed (some length) (some chunked_framing) version = err ambiguous_message_length
framed none (some chunked_framing) version =
    if is_http_11 version then ok (some chunked) else err invalid_transfer_encoding
framed (some length) none version = ok (some (fixed length))
framed none none version = ok none

unfoldable pub framing_of :
    (lengths codings : List Bytes) → Version → Result HeadError (Option BodyMode)
unfolding parse_content_length parse_transfer_encoding framed
framing_of lengths codings version = do
  length ← parse_content_length lengths
  coding ← parse_transfer_encoding codings
  framed length coding version

abbrev pub or_else {ℓ} : {A : Type ℓ} → A → Option A → A
or_else a none = a
or_else a (some b) = b

module _ (http : Http) where
  pub record RequestHead : Type 0 where
    pub method : Method
    pub target : http.Uri
    pub version : Version
    pub headers : http.HeaderMap

  pub record ValidatedRequestHead : Type 0 where
    pub head : RequestHead
    pub body : BodyMode
    pub persistence : Persistence
    pub target_form : TargetForm
    pub expectation : Expectation
    pub upgrade : Option UpgradeKind

  -- The form of a target, from its path, scheme, authority and the path with a query.
  unfoldable pub form_of :
      (path : Bytes)
      → (scheme authority path_and_query : Option Bytes) → Result HeadError TargetForm
  form_of path scheme auth path_and_query =
      if same_star path && is_none scheme && is_none auth
      then ok asterisk
      else if is_some scheme && is_some auth
      then ok absolute
      else if is_none scheme && is_some auth && is_none path_and_query
      then ok authority
      else if is_none scheme && is_none auth && starts_with b'/' path
      then ok origin
      else err invalid_target_form
    where
      same_star : Bytes → Bool
      same_star (b ∷ []) = b == b'*'
      same_star _ = false

  unfoldable pub port_given : Option Bytes → Bool
  port_given none = false
  port_given (some auth) = http.has_port auth

  -- The match of a method and a form.
  unfoldable pub fits_method : Method → TargetForm → (port : Bool) → Result HeadError TargetForm
  fits_method connect authority port = if port then ok authority else err invalid_target_form
  fits_method connect _ port = err invalid_target_form
  fits_method options asterisk port = ok asterisk
  fits_method _ asterisk port = err invalid_target_form
  fits_method _ authority port = err invalid_target_form
  fits_method _ form port = ok form

  unfoldable pub validate_request_target : Method → http.Uri → Result HeadError TargetForm
  unfolding form_of fits_method port_given
  validate_request_target method target =
      let auth = http.authority target in
      form_of (http.path target) (http.scheme target) auth (http.path_and_query target) >>= λ form.
      fits_method method form (port_given auth)

  -- On the text of the authority.
  unfoldable pub host_field : http.HeaderMap → Option Bytes → Result HeadError http.HeaderMap
  host_field headers none = err invalid_target_form
  host_field headers (some auth) =
      if contains b'@' auth
      then err invalid_target
      else if http.is_header_value auth
      then ok (http.insert headers host auth)
      else err invalid_host

  unfoldable pub normalize_absolute_host :
      http.HeaderMap → http.Uri → Result HeadError http.HeaderMap
  unfolding host_field
  normalize_absolute_host headers target = host_field headers (http.authority target)

  -- On the values of `Host`.
  unfoldable pub host_values : List Bytes → Version → Result HeadError (Unit {0})
  unfolding trim_ows
  host_values [] version = if is_http_11 version then err missing_host else ok tt
  host_values (value ∷ []) version =
      let bytes = trim_ows value in
      if is_nil bytes || contains b',' bytes || contains b'@' bytes
      then err invalid_host
      else if http.is_authority bytes
      then ok tt
      else err invalid_host
  host_values (value ∷ more ∷ values) version = err invalid_host

  unfoldable pub validate_host : http.HeaderMap → Version → Result HeadError (Unit {0})
  unfolding host_values
  validate_host headers version = host_values (http.get_all headers host) version

  abbrev pub is_absolute : TargetForm → Bool
  is_absolute absolute = true
  is_absolute _ = false

  abbrev pub is_authority_form : TargetForm → Bool
  is_authority_form authority = true
  is_authority_form _ = false

  -- The upgrade that a request asks for.
  unfoldable pub request_upgrade :
      (received : Bool)
      → Version
      → TargetForm
      → ConnectionOptions
      → List Bytes
      → Result HeadError (Option UpgradeKind)
  unfolding upgrade_intent
  request_upgrade received version form chosen values =
      if received && is_http_10 version && not (is_authority_form form)
      then ok none
      else upgrade_intent values chosen form

  -- A protocol upgrade needs HTTP/1.1.
  unfoldable pub upgrade_allowed : Option UpgradeKind → Version → Result HeadError (Unit {0})
  upgrade_allowed (some protocol) version =
      if is_http_11 version then ok tt else err invalid_upgrade
  upgrade_allowed _ version = ok tt

  unfoldable pub validate_for :
      (received : Bool) → RequestHead → Result HeadError ValidatedRequestHead
  validate_for received request = do
    form ← validate_request_target request.method request.target
    _ ← validate_host request.headers request.version
    headers ←
        if is_absolute form
        then normalize_absolute_host request.headers request.target
        else ok request.headers
    framing ←
        framing_of (http.get_all headers content_length) (http.get_all headers transfer_encoding)
          request.version
    chosen ← connection_options (http.get_all headers connection)
    expects ← expectation (http.get_all headers expect) request.version received
    upgrades ← request_upgrade received request.version form chosen (http.get_all headers upgrade)
    _ ← upgrade_allowed upgrades request.version
    ok record {
      head = record request { headers = headers };
      body = or_else empty framing;
      persistence = persistence_of request.version chosen;
      target_form = form;
      expectation = expects;
      upgrade = upgrades;
    }
