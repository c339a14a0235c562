-- ===== src/Exchange/Count.antt =====
-- How many informational responses an exchange lets through.
use vakya.Prelude.{ℕ, ◌+◌, ◌≡◌, inl, inr, Option, none, some, arith, Bool-cases, Result, ok, err}
use vakya.Message.{Error, Persistence, UpgradeKind}
use vakya.Http.{Http}
use vakya.Head.{HeadError}
use vakya.Head.Response.{ResponseHead, ValidatedResponseHead, validate}
use vakya.Exchange.{
  HeadAction, informational_head, Received, is_awaiting, ExchangePolicy, close_after_exchange,
  sent_final, received_plain, received_valid, received_head, receive_head, sent_head, sent_response,
}
use vakya.Exchange.Invariant.{Reaches, here, received, sent, sent_last, closed}

module _ (http : Http) where
  -- Whether an answer lets an informational response through.
  unfoldable pub informs : Result Error (ValidatedResponseHead http × HeadAction) → ℕ
  informs (ok (v, informational_head)) = 1
  informs _ = 0

  -- How many informational responses went through in those operations.
  unfoldable pub let_through : {p q : ExchangePolicy} → Reaches http p q → ℕ
  unfolding informs
  let_through here = 0
  let_through {p} (received response steps) =
      informs (receive_head http p response).1 + let_through steps
  let_through (sent v steps) = let_through steps
  let_through (sent_last own steps) = let_through steps
  let_through (closed steps) = let_through steps

  -- The count of the policy goes up with each informational response, and with nothing else.
  abbrev Counts : ExchangePolicy → Received http → Type 0
  Counts p r = r.0.informational ≡ p.informational + informs r.1

  plain-Counts :
      (p : ExchangePolicy) (v : ValidatedResponseHead http) → Counts p (received_plain http p v)
  unfolding received_plain informs
  plain-Counts p v = ground arith

  valid-Counts :
      (p : ExchangePolicy) (v : ValidatedResponseHead http) (kind : Option UpgradeKind)
      → Counts p (received_valid http p v kind)
  unfolding received_valid informs
  valid-Counts p v none = plain-Counts p v
  valid-Counts p v (some kind) = ground arith

  head-Counts :
      (p : ExchangePolicy) (r : Result HeadError (ValidatedResponseHead http))
      → Counts p (received_head http p r)
  unfolding received_head informs
  head-Counts p (err e) = omega arith
  head-Counts p (ok v) = valid-Counts p v v.upgrade

  receive-Counts :
      (p : ExchangePolicy) (response : ResponseHead http) → Counts p (receive_head http p response)
  unfolding receive_head informs
  receive-Counts p response = elim (Bool-cases (is_awaiting p.phase)) [
    | inl awaiting ↦ rw awaiting (head-Counts p (validate http response p.method))
    | inr over ↦ rw over (omega arith)
  ]

  sent_final-count :
      (p : ExchangePolicy) (own : Persistence)
      → (sent_final p own).0.informational ≡ p.informational
  unfolding sent_final
  sent_final-count p own = ground arith

  sent_head-count :
      (p : ExchangePolicy) (v : ValidatedResponseHead http) (kind : Option UpgradeKind)
      → (sent_head http p v kind).0.informational ≡ p.informational
  unfolding sent_head
  sent_head-count p v none = sent_final-count p v.persistence
  sent_head-count p v (some kind) = ground arith

  pub Reaches-counts :
      {p q : ExchangePolicy} (steps : Reaches http p q)
      → q.informational ≡ p.informational + let_through steps
  unfolding let_through sent_response close_after_exchange
  Reaches-counts here = omega arith
  Reaches-counts {p} (received response steps) =
      omega (arith, receive-Counts p response, Reaches-counts steps)
  Reaches-counts {p} (sent v steps) =
      omega (arith, sent_head-count p v v.upgrade, Reaches-counts steps)
  Reaches-counts {p} (sent_last own steps) =
      omega (arith, sent_final-count p own, Reaches-counts steps)
  Reaches-counts (closed steps) = Reaches-counts steps
