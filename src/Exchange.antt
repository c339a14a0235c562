-- ===== src/Exchange.antt =====
-- src/proto/h1/exchange.rs: the policy of one exchange of a request and its response.
pub mod Invariant
pub mod Ends
pub mod Count
use vakya.Prelude.{
  ℕ, zero, suc, ◌+◌, ◌-◌, ◌*◌, ◌/◌, ◌%◌, ◌^◌, ◌≤◌, ◌<◌, min, ◌≡◌, refl, sym, ap, ◌∙◌, ◌≢◌, ◌↔◌, ◌⊎◌,
  inl, inr, Bool, true, false, not, ◌&&◌, ◌||◌, Option, none, some, List, [], ◌∷◌, ◌++◌, map,
  append-nil, append_assoc, arith, ltb, leb, ◌==◌, if◌then◌else◌, ltb→lt, lt→ltb, leb→le, ==_iff,
  Bool-cases, Option-cases, length, get_elem?, take, drop, length-append, length-take, length-drop,
  take-append-drop, take-append_len, drop-append_len, drop-append_le, take-append_le, drop-nil,
  take-nil, drop-drop, take-add, take-take_le, All, All-append, Bytes, u64_max, Result, ok, err,
  ◌>>=◌, ◌>>◌, map_err, ok_or, is_some, Result-cases, >>=-eq-ok, ok-inj,
}
use vakya.Syntax.{trim_ows}
use vakya.Message.{
  plain_error, Persistence, reusable, close, UpgradeKind, protocol, tunnel, Error, ErrorKind,
  invalid_message, unsupported, internal, LimitKind, informational_responses, head_bytes,
  header_count, head_map_capacity, ErrorDetail, incoming_limit,
}
use vakya.Http.{Http, Method, upgrade}
use vakya.Head.{
  HeadError, HeadLimit, bytes, headers, header_map, limit, unsupported_version,
  unsupported_transfer_coding, is_nil,
}
use vakya.Head.Framing.{eq_ignore_ascii_case}
use vakya.Head.Options.{split_at}
use vakya.Head.Request.{ValidatedRequestHead}
use vakya.Head.Response.{ResponseHead, ValidatedResponseHead, validate}

pub data ActivityEnd : Type 0 where
  finished retired : ActivityEnd

pub data ResponsePhase : Type 0 where
  awaiting_head final : ResponsePhase
  upgraded : UpgradeKind → ResponsePhase

pub data HeadAction : Type 0 where
  informational_head final_head : HeadAction
  upgrade_head : UpgradeKind → HeadAction

pub data Outcome : Type 0 where
  reuse closing : Outcome
  handoff : UpgradeKind → Outcome

-- `From<HeadError> for Error`
abbrev limit_kind : HeadLimit → LimitKind
limit_kind bytes = head_bytes
limit_kind headers = header_count
limit_kind header_map = head_map_capacity

unfoldable pub error_of : HeadError → Error
error_of (limit l) = record {
  kind = vakya.Message.limit;
  detail = some (incoming_limit (limit_kind l));
}
error_of unsupported_version = record { kind = unsupported; detail = none }
error_of unsupported_transfer_coding = record { kind = unsupported; detail = none }
error_of _ = record { kind = invalid_message; detail = none }

-- `any` over the trimmed members of a field value
abbrev any {ℓ} : {A : Type ℓ} → (A → Bool) → List A → Bool
any p [] = false
any p (a ∷ as') = p a || any p as'

abbrev all_of {ℓ} : {A : Type ℓ} → (A → Bool) → List A → Bool
all_of p [] = true
all_of p (a ∷ as') = p a && all_of p as'

unfoldable pub was_offered : List Bytes → Bytes → Bool
unfolding split_at trim_ows eq_ignore_ascii_case
was_offered offered selected =
    any (λ value. any (λ o. eq_ignore_ascii_case o selected) (map trim_ows (split_at b',' value)))
      offered

-- Every value has a member, so some member was selected where there is a value.
unfoldable pub upgrade_protocols_match : (offered selected : List Bytes) → Bool
unfolding was_offered split_at trim_ows
upgrade_protocols_match offered [] = false
upgrade_protocols_match offered (value ∷ values) =
    all_of
      (λ v. all_of (λ s. not (is_nil s) && was_offered offered s) (map trim_ows (split_at b',' v)))
      (value ∷ values)

abbrev pub same_upgrade : Option UpgradeKind → UpgradeKind → Bool
same_upgrade (some protocol) protocol = true
same_upgrade (some tunnel) tunnel = true
same_upgrade _ _ = false

abbrev pub is_protocol_upgrade : UpgradeKind → Bool
is_protocol_upgrade protocol = true
is_protocol_upgrade tunnel = false

abbrev pub is_awaiting : ResponsePhase → Bool
is_awaiting awaiting_head = true
is_awaiting _ = false

abbrev pub weaker : Persistence → Persistence → Persistence
weaker close own = close
weaker reusable own = own

pub record ExchangePolicy : Type 0 where
  pub phase : ResponsePhase
  pub persistence : Persistence
  pub method : Method
  pub upgrade_asked : Option UpgradeKind
  pub offered_protocols : List Bytes
  pub informational : ℕ
  pub max_informational : ℕ

-- `close_after_exchange`
unfoldable pub close_after_exchange : ExchangePolicy → ExchangePolicy
close_after_exchange policy = record policy { persistence = close }

-- `finish`, which consumes the policy.
unfoldable pub finish : ExchangePolicy → (request response : ActivityEnd) → Result Error Outcome
finish policy retired response = ok closing
finish policy finished retired = ok closing
finish policy finished finished = elim policy.phase [
  | awaiting_head ↦ err (plain_error internal)
  | upgraded kind ↦ ok (handoff kind)
  | final ↦ elim policy.persistence [ reusable ↦ ok reuse | close ↦ ok closing ]
]

unfoldable pub sent_final : ExchangePolicy → Persistence → ExchangePolicy × Result Error (Unit {0})
sent_final policy persistence =
    if is_awaiting policy.phase
    then (
      record policy { phase = final; persistence = weaker persistence policy.persistence },
      ok tt,
    )
    else (policy, err (plain_error internal))

-- The match of an upgrade with the one that was asked for, on the values of `Upgrade`.
unfoldable pub upgrade_agrees : ExchangePolicy → UpgradeKind → (values : List Bytes) → Bool
unfolding upgrade_protocols_match
upgrade_agrees policy kind values =
    same_upgrade policy.upgrade_asked kind
    && (not (is_protocol_upgrade kind) || upgrade_protocols_match policy.offered_protocols values)

module _ (http : Http) where
  abbrev pub offered_by : ValidatedRequestHead http → Option UpgradeKind → List Bytes
  offered_by request (some protocol) = http.get_all request.head.headers upgrade
  offered_by request _ = []

  unfoldable pub new_policy : ValidatedRequestHead http → (max_informational : ℕ) → ExchangePolicy
  new_policy request max_informational = record {
    phase = awaiting_head;
    persistence = request.persistence;
    method = request.head.method;
    upgrade_asked = request.upgrade;
    offered_protocols = offered_by request request.upgrade;
    informational = 0;
    max_informational = max_informational;
  }

  abbrev pub Received : Type 0
  Received = ExchangePolicy × Result Error (ValidatedResponseHead http × HeadAction)

  -- A head that is not an upgrade.
  unfoldable pub received_plain : ExchangePolicy → ValidatedResponseHead http → Received
  received_plain policy v =
      if http.is_informational v.head.status
      then (if policy.informational == policy.max_informational
          then (
            policy,
            err record {
              kind = vakya.Message.limit;
              detail = some (incoming_limit informational_responses);
            },
          )
          else (
            record policy { informational = policy.informational + 1 },
            ok (v, informational_head),
          ))
      else (
        record policy { phase = final; persistence = weaker v.persistence policy.persistence },
        ok (v, final_head),
      )

  -- A head that validated.
  unfoldable pub received_valid :
      ExchangePolicy → ValidatedResponseHead http → Option UpgradeKind → Received
  received_valid policy v none = received_plain policy v
  received_valid policy v (some kind) =
      if upgrade_agrees policy kind (http.get_all v.head.headers upgrade)
      then (record policy { phase = upgraded kind }, ok (v, upgrade_head kind))
      else (policy, err (plain_error vakya.Message.upgrade))

  unfoldable pub received_head :
      ExchangePolicy → Result HeadError (ValidatedResponseHead http) → Received
  received_head policy (err e) = (policy, err (error_of e))
  received_head policy (ok v) = received_valid policy v v.upgrade

  unfoldable pub receive_head : ExchangePolicy → ResponseHead http → Received
  receive_head policy response =
      if is_awaiting policy.phase
      then received_head policy (validate http response policy.method)
      else (policy, err (plain_error invalid_message))

  -- On the head's upgrade.
  unfoldable pub sent_head :
      ExchangePolicy
      → ValidatedResponseHead http
      → Option UpgradeKind
      → ExchangePolicy × Result Error (Unit {0})
  sent_head policy v none = sent_final policy v.persistence
  sent_head policy v (some kind) =
      if is_awaiting policy.phase
        && upgrade_agrees policy kind (http.get_all v.head.headers upgrade)
      then (record policy { phase = upgraded kind }, ok tt)
      else (policy, err (plain_error vakya.Message.upgrade))

  unfoldable pub sent_response :
      ExchangePolicy → ValidatedResponseHead http → ExchangePolicy × Result Error (Unit {0})
  sent_response policy v = sent_head policy v v.upgrade
