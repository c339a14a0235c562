-- ===== src/Head/Options.antt =====
-- src/proto/h1/head/validate.rs: connection options, expectations and upgrades.
use vakya.Prelude.{
  ℕ, ◌+◌, Bool, true, false, not, ◌&&◌, ◌||◌, Option, none, some, List, [], ◌∷◌, ◌==◌,
  if◌then◌else◌, Bytes, Result, ok, err, ◌>>=◌, ok_or,
}
use vakya.Syntax.{trim_ows}
use vakya.Chunk.{checked}
use vakya.Message.{
  Persistence, reusable, close, UpgradeKind, protocol, tunnel, Expectation, no_expectation,
  continue, TargetForm, authority,
}
use vakya.Http.{Version, http_10, http_11}
use vakya.Head.{
  HeadError, invalid_connection, invalid_expectation, invalid_upgrade, is_token, for_each_value,
}
use vakya.Head.Framing.{eq_ignore_ascii_case}

pub record ConnectionOptions : Type 0 where
  pub close_option : Bool
  pub keep_alive : Bool
  pub upgrade_option : Bool

abbrev pub no_options : ConnectionOptions
no_options = record { close_option = false; keep_alive = false; upgrade_option = false }

abbrev pub close_token : Bytes
close_token = b'c' ∷ b'l' ∷ b'o' ∷ b's' ∷ b'e' ∷ []

abbrev pub keep_alive_token : Bytes
keep_alive_token = b'k' ∷ b'e' ∷ b'e' ∷ b'p' ∷ b'-' ∷ b'a' ∷ b'l' ∷ b'i' ∷ b'v' ∷ b'e' ∷ []

abbrev pub upgrade_token : Bytes
upgrade_token = b'u' ∷ b'p' ∷ b'g' ∷ b'r' ∷ b'a' ∷ b'd' ∷ b'e' ∷ []

abbrev pub continue_token : Bytes
continue_token =
    b'1' ∷ b'0' ∷ b'0' ∷ b'-' ∷ b'c' ∷ b'o' ∷ b'n' ∷ b't' ∷ b'i' ∷ b'n' ∷ b'u' ∷ b'e' ∷ []

unfoldable pub connection_member : Bytes → ConnectionOptions → Result HeadError ConnectionOptions
unfolding trim_ows is_token eq_ignore_ascii_case
connection_member member s =
    let token = trim_ows member in
    if not (is_token token)
    then err invalid_connection
    else if eq_ignore_ascii_case token close_token
    then ok (record s { close_option = true })
    else if eq_ignore_ascii_case token keep_alive_token
    then ok (record s { keep_alive = true })
    else if eq_ignore_ascii_case token upgrade_token
    then ok (record s { upgrade_option = true })
    else ok s

-- On the values of `Connection`.
unfoldable pub connection_options : List Bytes → Result HeadError ConnectionOptions
unfolding connection_member
connection_options values = for_each_value invalid_connection connection_member values no_options

abbrev pub is_http_10 : Version → Bool
is_http_10 http_10 = true
is_http_10 _ = false

abbrev pub is_http_11 : Version → Bool
is_http_11 http_11 = true
is_http_11 _ = false

unfoldable pub persistence_of : Version → ConnectionOptions → Persistence
persistence_of version options =
    if options.close_option || (is_http_10 version && not options.keep_alive)
    then close
    else reusable

unfoldable pub expectation_member : Bytes → ℕ → Result HeadError ℕ
unfolding trim_ows eq_ignore_ascii_case
expectation_member member count =
    if not (eq_ignore_ascii_case (trim_ows member) continue_token)
    then err invalid_expectation
    else ok_or (checked (count + 1)) invalid_expectation

-- From the count of the expectations on.
unfoldable pub expected : (count : ℕ) → Version → (received : Bool) → Result HeadError Expectation
expected count version received =
    if count == 0
    then ok no_expectation
    else if is_http_11 version
    then ok continue
    else if is_http_10 version && received
    then ok no_expectation
    else err invalid_expectation

-- On the values of `Expect`.
unfoldable pub expectation : List Bytes → Version → (received : Bool) → Result HeadError Expectation
unfolding expectation_member expected
expectation values version received =
    for_each_value invalid_expectation expectation_member values 0 >>= λ count.
    expected count version received

-- `split(|byte| *byte == at)`: one part more than separators.
abbrev pub onto_first : ℕ → List Bytes → List Bytes
onto_first b [] = (b ∷ []) ∷ []
onto_first b (part ∷ parts) = (b ∷ part) ∷ parts

unfoldable pub split_at : ℕ → Bytes → List Bytes
split_at at [] = [] ∷ []
split_at at (b ∷ bs) = let rest = split_at at bs in if b == at then [] ∷ rest else onto_first b rest

-- A protocol's name and, behind a slash, its version.
unfoldable pub is_protocol : List Bytes → Bool
unfolding is_token
is_protocol (name ∷ []) = is_token name
is_protocol (name ∷ version ∷ []) = is_token name && is_token version
is_protocol _ = false

unfoldable pub upgrade_member : Bytes → ℕ → Result HeadError ℕ
unfolding trim_ows split_at is_protocol
upgrade_member member protocols =
    if not (is_protocol (split_at b'/' (trim_ows member)))
    then err invalid_upgrade
    else ok_or (checked (protocols + 1)) invalid_upgrade

-- On the values of `Upgrade`.
unfoldable pub validate_upgrade_values : List Bytes → Result HeadError Bool
unfolding upgrade_member
validate_upgrade_values values =
    for_each_value invalid_upgrade upgrade_member values 0 >>= λ protocols.
    ok (not (protocols == 0))

-- The match at the end of `upgrade_intent`.
unfoldable pub intent :
    ConnectionOptions → (has_upgrade : Bool) → Result HeadError (Option UpgradeKind)
intent connection has_upgrade =
    if connection.upgrade_option && not connection.close_option && has_upgrade
    then ok (some protocol)
    else if not connection.upgrade_option && not has_upgrade
    then ok none
    else err invalid_upgrade

unfoldable pub upgrade_intent :
    List Bytes → ConnectionOptions → TargetForm → Result HeadError (Option UpgradeKind)
unfolding validate_upgrade_values intent
upgrade_intent values connection authority = ok (some tunnel)
upgrade_intent values connection _ =
    validate_upgrade_values values >>= λ has_upgrade. intent connection has_upgrade

-- `&&` looks at the values only where the options allow the upgrade.
unfoldable pub validate_protocol_upgrade :
    List Bytes → ConnectionOptions → Result HeadError (Unit {0})
unfolding validate_upgrade_values
validate_protocol_upgrade values connection =
    if connection.upgrade_option && not connection.close_option
    then (validate_upgrade_values values >>= λ has_upgrade.
        if has_upgrade then ok tt else err invalid_upgrade)
    else err invalid_upgrade
