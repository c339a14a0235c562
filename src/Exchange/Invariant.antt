-- ===== src/Exchange/Invariant.antt =====
-- Sequences of operations on one exchange, and what they keep.
use vakya.Prelude.{
  clash, ◌≤◌, ◌≡◌, refl, ap, ◌∙◌, inl, inr, true, false, Option, none, some, List, arith, ◌==◌,
  Bool-cases, Bytes, Result, ok, err,
}
use vakya.Message.{Persistence, reusable, close, UpgradeKind, protocol, tunnel}
use vakya.Http.{Http, upgrade}
use vakya.Head.{HeadError}
use vakya.Head.Response.{ResponseHead, ValidatedResponseHead, validate}
use vakya.Exchange.{
  ResponsePhase, awaiting_head, final, upgraded, same_upgrade, is_awaiting, weaker, ExchangePolicy,
  close_after_exchange, sent_final, upgrade_agrees, received_plain, received_valid, received_head,
  receive_head, sent_head, sent_response,
}

-- The upgrade that was switched to is the one that the request asked for.
abbrev pub Asked : ResponsePhase → Option UpgradeKind → Type 0
Asked awaiting_head asked = Unit
Asked final asked = Unit
Asked (upgraded kind) asked = asked ≡ some kind

-- What `later` keeps of `first`: what the request fixed, and its persistence unless it closed;
-- once a final head went through, nothing but the persistence changes.
pub record Keeps (first later : ExchangePolicy) : Type 0 where
  pub same_asked : later.upgrade_asked ≡ first.upgrade_asked
  pub same_offered : later.offered_protocols ≡ first.offered_protocols
  pub same_method : later.method ≡ first.method
  pub same_max : later.max_informational ≡ first.max_informational
  pub closes : later.persistence ≡ reusable → first.persistence ≡ reusable
  pub bounded :
      first.informational ≤ first.max_informational → later.informational ≤ later.max_informational
  pub asked : Asked first.phase first.upgrade_asked → Asked later.phase later.upgrade_asked
  pub settled :
      is_awaiting first.phase ≡ false
      → (later.phase ≡ first.phase) × (later.informational ≡ first.informational)

Keeps-refl : (p : ExchangePolicy) → Keeps p p
Keeps-refl p = record {
  same_asked = refl;
  same_offered = refl;
  same_method = refl;
  same_max = refl;
  closes = λ h. h;
  bounded = λ h. h;
  asked = λ h. h;
  settled = λ h. (refl, refl);
}

Keeps-trans : {p q r : ExchangePolicy} → Keeps p q → Keeps q r → Keeps p r
Keeps-trans {p} {q} {r} a b = record {
  same_asked = b.same_asked ∙ a.same_asked;
  same_offered = b.same_offered ∙ a.same_offered;
  same_method = b.same_method ∙ a.same_method;
  same_max = b.same_max ∙ a.same_max;
  closes = λ h. a.closes (b.closes h);
  bounded = λ h. b.bounded (a.bounded h);
  asked = λ h. b.asked (a.asked h);
  settled = λ h.
      let (phase, count) = a.settled h in
      let (phase', count') = b.settled (ap is_awaiting phase ∙ h) in
      (phase' ∙ phase, count' ∙ count);
}

weaker-reusable : (a b : Persistence) → weaker a b ≡ reusable → b ≡ reusable
weaker-reusable reusable b h = h
weaker-reusable close b h = absurd (cc)

same_upgrade-asked :
    (o : Option UpgradeKind) (k : UpgradeKind) → same_upgrade o k ≡ true → o ≡ some k
same_upgrade-asked none k h = absurd (cc)
same_upgrade-asked (some protocol) protocol h = refl
same_upgrade-asked (some tunnel) tunnel h = refl
same_upgrade-asked (some protocol) tunnel h = absurd (cc)
same_upgrade-asked (some tunnel) protocol h = absurd (cc)

upgrade_agrees-asked :
    (p : ExchangePolicy) (kind : UpgradeKind) (values : List Bytes)
    → upgrade_agrees p kind values ≡ true
    → p.upgrade_asked ≡ some kind
unfolding upgrade_agrees
upgrade_agrees-asked p kind values h = elim (Bool-cases (same_upgrade p.upgrade_asked kind)) [
  | inl same ↦ same_upgrade-asked p.upgrade_asked kind same
  | inr other ↦ absurd (let k = rw other at h in cc)
]

Keeps-final :
    (p : ExchangePolicy) (own : Persistence)
    → is_awaiting p.phase ≡ true
    → Keeps p (record p { phase = final; persistence = weaker own p.persistence })
Keeps-final p own awaiting = record {
  same_asked = refl;
  same_offered = refl;
  same_method = refl;
  same_max = refl;
  closes = weaker-reusable own p.persistence;
  bounded = λ h. h;
  asked = λ h. tt;
  settled = λ h. absurd (clash (is_awaiting p.phase) awaiting h);
}

Keeps-upgraded :
    (p : ExchangePolicy) (kind : UpgradeKind)
    → is_awaiting p.phase ≡ true
    → p.upgrade_asked ≡ some kind
    → Keeps p (record p { phase = upgraded kind })
Keeps-upgraded p kind awaiting agreed = record {
  same_asked = refl;
  same_offered = refl;
  same_method = refl;
  same_max = refl;
  closes = λ h. h;
  bounded = λ h. h;
  asked = λ h. agreed;
  settled = λ h. absurd (clash (is_awaiting p.phase) awaiting h);
}

sent_final-Keeps : (p : ExchangePolicy) (own : Persistence) → Keeps p (sent_final p own).0
unfolding sent_final
sent_final-Keeps p own = elim (Bool-cases (is_awaiting p.phase)) [
  | inl awaiting ↦ rw awaiting (Keeps-final p own awaiting)
  | inr over ↦ rw over (Keeps-refl p)
]

Keeps-closed : (p : ExchangePolicy) → Keeps p (close_after_exchange p)
unfolding close_after_exchange
Keeps-closed p = record {
  same_asked = refl;
  same_offered = refl;
  same_method = refl;
  same_max = refl;
  closes = λ h. absurd (cc);
  bounded = λ h. h;
  asked = λ h. h;
  settled = λ h. (refl, refl);
}

module _ (http : Http) where
  plain-Keeps :
      (p : ExchangePolicy) (v : ValidatedResponseHead http)
      → is_awaiting p.phase ≡ true
      → Keeps p (received_plain http p v).0
  unfolding received_plain
  plain-Keeps p v awaiting = elim (Bool-cases (http.is_informational v.head.status)) [
    | inr final_status ↦ rw final_status (Keeps-final p v.persistence awaiting)
    | inl interim ↦ elim (Bool-cases (p.informational == p.max_informational)) [
      | inl full ↦ rw (interim, full) (Keeps-refl p)
      | inr room ↦
          rw (interim, room)
            (record {
              same_asked = refl;
              same_offered = refl;
              same_method = refl;
              same_max = refl;
              closes = λ h. h;
              bounded = λ h. ground arith;
              asked = λ h. h;
              settled = λ h. absurd (clash (is_awaiting p.phase) awaiting h);
            })
    ]
  ]

  valid-Keeps :
      (p : ExchangePolicy) (v : ValidatedResponseHead http) (kind : Option UpgradeKind)
      → is_awaiting p.phase ≡ true
      → Keeps p (received_valid http p v kind).0
  unfolding received_valid
  valid-Keeps p v none awaiting = plain-Keeps p v awaiting
  valid-Keeps p v (some kind) awaiting =
      let values = http.get_all v.head.headers upgrade in
      elim (Bool-cases (upgrade_agrees p kind values)) [
        | inl agrees ↦
            rw agrees (Keeps-upgraded p kind awaiting (upgrade_agrees-asked p kind values agrees))
        | inr differs ↦ rw differs (Keeps-refl p)
      ]

  head-Keeps :
      (p : ExchangePolicy) (r : Result HeadError (ValidatedResponseHead http))
      → is_awaiting p.phase ≡ true
      → Keeps p (received_head http p r).0
  unfolding received_head
  head-Keeps p (err e) awaiting = Keeps-refl p
  head-Keeps p (ok v) awaiting = valid-Keeps p v v.upgrade awaiting

  receive-Keeps :
      (p : ExchangePolicy) (response : ResponseHead http) → Keeps p (receive_head http p response).0
  unfolding receive_head
  receive-Keeps p response = elim (Bool-cases (is_awaiting p.phase)) [
    | inl awaiting ↦ rw awaiting (head-Keeps p (validate http response p.method) awaiting)
    | inr over ↦ rw over (Keeps-refl p)
  ]

  sent_head-Keeps :
      (p : ExchangePolicy) (v : ValidatedResponseHead http) (kind : Option UpgradeKind)
      → Keeps p (sent_head http p v kind).0
  unfolding sent_head
  sent_head-Keeps p v none = sent_final-Keeps p v.persistence
  sent_head-Keeps p v (some kind) =
      let values = http.get_all v.head.headers upgrade in
      elim (Bool-cases (is_awaiting p.phase)) [
        | inr over ↦ rw over (Keeps-refl p)
        | inl awaiting ↦ elim (Bool-cases (upgrade_agrees p kind values)) [
          | inl agrees ↦
              rw (awaiting, agrees)
                (Keeps-upgraded p kind awaiting (upgrade_agrees-asked p kind values agrees))
          | inr differs ↦ rw (awaiting, differs) (Keeps-refl p)
        ]
      ]

  -- Operations on one exchange, one after the other, whatever they answer.
  pub data Reaches : ExchangePolicy → ExchangePolicy → Type 0 where
    here : {p : ExchangePolicy} → Reaches p p
    received :
        {p q : ExchangePolicy} (response : ResponseHead http)
        → Reaches (receive_head http p response).0 q
        → Reaches p q
    sent :
        {p q : ExchangePolicy} (v : ValidatedResponseHead http)
        → Reaches (sent_response http p v).0 q
        → Reaches p q
    sent_last :
        {p q : ExchangePolicy} (own : Persistence) → Reaches (sent_final p own).0 q → Reaches p q
    closed : {p q : ExchangePolicy} → Reaches (close_after_exchange p) q → Reaches p q

  pub Reaches-Keeps : {p q : ExchangePolicy} → Reaches p q → Keeps p q
  unfolding sent_response close_after_exchange
  Reaches-Keeps {p} here = Keeps-refl p
  Reaches-Keeps {p} (received response steps) =
      Keeps-trans (receive-Keeps p response) (Reaches-Keeps steps)
  Reaches-Keeps {p} (sent v steps) =
      Keeps-trans (sent_head-Keeps p v v.upgrade) (Reaches-Keeps steps)
  Reaches-Keeps {p} (sent_last own steps) =
      Keeps-trans (sent_final-Keeps p own) (Reaches-Keeps steps)
  Reaches-Keeps {p} (closed steps) = Keeps-trans (Keeps-closed p) (Reaches-Keeps steps)
