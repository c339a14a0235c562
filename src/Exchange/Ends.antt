-- ===== src/Exchange/Ends.antt =====
-- How an exchange ends.
use vakya.Prelude.{ℕ, ◌≤◌, ◌≡◌, refl, ap, ◌∙◌, false, Option, some, arith, ok, err, ok-inj}
use vakya.Message.{plain_error, Persistence, reusable, close, UpgradeKind, invalid_message}
use vakya.Http.{Http}
use vakya.Head.Request.{ValidatedRequestHead}
use vakya.Head.Response.{ResponseHead}
use vakya.Exchange.{
  ActivityEnd, finished, retired, ResponsePhase, awaiting_head, final, upgraded, Outcome, reuse,
  closing, handoff, is_awaiting, ExchangePolicy, finish, new_policy, receive_head,
}
use vakya.Exchange.Invariant.{Asked, Reaches, Reaches-Keeps}
use vakya.Exchange.Count.{let_through, Reaches-counts}

-- What an outcome says of the ends of the two activities and of the request.
abbrev pub Justified :
    (asked : Option UpgradeKind) → Persistence → (request response : ActivityEnd) → Outcome → Type 0
Justified asked persistence request response closing = Unit
Justified asked persistence request response reuse =
    (request ≡ finished) × (response ≡ finished) × (persistence ≡ reusable)
Justified asked persistence request response (handoff kind) =
    (request ≡ finished) × (response ≡ finished) × (asked ≡ some kind)

finished-Justified :
    (p : ExchangePolicy) (asked : Option UpgradeKind) (persistence : Persistence)
    (phase : ResponsePhase) (own : Persistence) (o : Outcome)
    → p.phase ≡ phase
    → p.persistence ≡ own
    → Asked phase asked
    → (own ≡ reusable → persistence ≡ reusable)
    → finish p finished finished ≡ ok o
    → Justified asked persistence finished finished o
unfolding finish
finished-Justified p asked persistence awaiting_head own o at by is_asked closes h =
    absurd (let k = rw at at h in cc)
finished-Justified p asked persistence (upgraded kind) own o at by is_asked closes h =
    let k = ok-inj (handoff kind) o (rw at at h) in rw (← k) (refl, refl, is_asked)
finished-Justified p asked persistence final reusable o at by is_asked closes h =
    let k = ok-inj reuse o (rw (at, by) at h) in rw (← k) (refl, refl, closes refl)
finished-Justified p asked persistence final close o at by is_asked closes h =
    let k = ok-inj closing o (rw (at, by) at h) in rw (← k) tt

finish-Justified :
    (p : ExchangePolicy) (asked : Option UpgradeKind) (persistence : Persistence)
    (request response : ActivityEnd) (o : Outcome)
    → Asked p.phase asked
    → (p.persistence ≡ reusable → persistence ≡ reusable)
    → finish p request response ≡ ok o
    → Justified asked persistence request response o
unfolding finish
finish-Justified p asked persistence finished finished o is_asked closes h =
    finished-Justified p asked persistence p.phase p.persistence o refl refl is_asked closes h
finish-Justified p asked persistence retired response o is_asked closes h =
    let k = ok-inj closing o h in rw (← k) tt
finish-Justified p asked persistence finished retired o is_asked closes h =
    let k = ok-inj closing o h in rw (← k) tt

module _ (http : Http) where
  -- After any operations on an exchange, a connection is reused only if both directions completed
  -- and the request allowed it, and it is handed off to an upgrade only if both completed and the
  -- request asked for that upgrade; and the informational responses that these operations let
  -- through are no more than the limit.
  pub Reaches-Justified :
      (head : ValidatedRequestHead http) (max : ℕ) (p : ExchangePolicy)
      (request response : ActivityEnd) (o : Outcome)
      (steps : Reaches http (new_policy http head max) p)
      → finish p request response ≡ ok o
      → Justified head.upgrade head.persistence request response o × (let_through http steps ≤ max)
  unfolding new_policy
  Reaches-Justified head max p request response o steps h =
      let keeps = Reaches-Keeps http steps in
      (
        finish-Justified p head.upgrade head.persistence request response o
            (rw keeps.same_asked at (keeps.asked tt)) keeps.closes h,
        omega (arith, keeps.bounded (omega arith), keeps.same_max, Reaches-counts http steps),
      )

  -- Once a final head or an upgrade went through, whatever operations follow, another head of a
  -- response is refused as an invalid message and leaves the exchange as it is, in the phase that
  -- it was in.
  pub Reaches-one_head :
      (p q : ExchangePolicy) (response : ResponseHead http)
      → is_awaiting p.phase ≡ false
      → Reaches http p q
      → (receive_head http q response ≡ (q, err (plain_error invalid_message)))
        × (q.phase ≡ p.phase)
  unfolding receive_head
  Reaches-one_head p q response over steps =
      let keeps = Reaches-Keeps http steps in
      let (phase, count) = keeps.settled over in
      let still : is_awaiting q.phase ≡ false = ap is_awaiting phase ∙ over in
      (rw still refl, phase)
