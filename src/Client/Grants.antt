-- ===== src/Client/Grants.antt =====
-- What an exchange that keeps the transport has done.
use vakya.Prelude.{
  ℕ, ◌≡◌, refl, ap, ◌≢◌, inl, inr, Bool, true, false, not, Option, some, arith, if◌then◌else◌,
  Bool-cases, Result, ok, err, ◌>>=◌, >>=-eq-ok, ok-inj,
}
use vakya.Message.{Error, UpgradeKind, Persistence, reusable}
use vakya.Http.{Http}
use vakya.Head.Request.{ValidatedRequestHead}
use vakya.Exchange.{
  ActivityEnd, finished, retired, Outcome, reuse, closing, handoff, finish, new_policy,
}
use vakya.Exchange.Invariant.{Reaches}
use vakya.Exchange.Ends.{Justified, Reaches-Justified}
use vakya.Io.Recv.{RecvBuffer}
use vakya.BodyIo.Rounds.{is_canceled}
use vakya.Client.Response.{BodyEnd, whole, cut, ReceivedResponse}
use vakya.Client.Settle.{
  CloseReason, body_abandonment, upload_abort, message_policy, SettledExchange, settled_as,
  request_end, cut_short, settled_by, finish_exchange, First, received_first, sent_first,
  cancels_peer,
}

-- What an outcome that keeps the transport says of the two directions.
abbrev pub Complete : Result Error (Unit {0}) → ReceivedResponse → (upload_aborted : Bool) → Type 0
Complete sent r upload_aborted = (sent ≡ ok tt) × (upload_aborted ≡ false) × (r.end ≡ whole)

abbrev pub Grants :
    Result Error (Unit {0})
    → ReceivedResponse
    → (upload_aborted : Bool) → Option UpgradeKind
    → Persistence
    → Outcome
    → Type 0
Grants sent r upload_aborted asked persistence closing = Unit
Grants sent r upload_aborted asked persistence reuse =
    Complete sent r upload_aborted × (persistence ≡ reusable)
Grants sent r upload_aborted asked persistence (handoff kind) =
    Complete sent r upload_aborted × (asked ≡ some kind)

request_end-finished :
    (sent : Result Error (Unit {0})) (upload_aborted : Bool) (ended : ActivityEnd)
    → request_end sent upload_aborted ≡ ok ended
    → ended ≡ finished
    → (sent ≡ ok tt) × (upload_aborted ≡ false)
unfolding request_end
request_end-finished (err e) upload_aborted ended h at = absurd (ground arith)
request_end-finished (ok tt) true ended h at = absurd (ground arith)
request_end-finished (ok tt) false ended h at = (refl, refl)

outcome-settled :
    (given : Result Error Outcome) (b : RecvBuffer) (reason : CloseReason) (s : SettledExchange)
    → (given >>= λ o. ok (settled_as b reason o)) ≡ ok s
    → given ≡ ok s.outcome
outcome-settled (err e) b reason s h = absurd (cc)
outcome-settled (ok o) b reason s h =
    ap ok (ap (λ q. q.outcome) (ok-inj (settled_as b reason o) s h))

-- What the policy says of an outcome, for the ends that `finish_exchange` gave it.
granted-Grants :
    (sent : Result Error (Unit {0})) (r : ReceivedResponse) (upload_aborted : Bool)
    (asked : Option UpgradeKind) (persistence : Persistence) (ended response : ActivityEnd)
    (o : Outcome)
    → Justified asked persistence ended response o
    → (ended ≡ finished → response ≡ finished → Complete sent r upload_aborted)
    → Grants sent r upload_aborted asked persistence o
granted-Grants sent r upload_aborted asked persistence ended response closing j complete = tt
granted-Grants sent r upload_aborted asked persistence ended response reuse (e, f, g) complete =
    (complete e f, g)
granted-Grants sent r upload_aborted asked persistence ended response (handoff kind) (e, f, g)
      complete =
    (complete e f, g)

cut_short-finish :
    (sent : Result Error (Unit {0})) (r : ReceivedResponse) (s : SettledExchange)
    → cut_short sent r ≡ ok s
    → finish r.policy retired retired ≡ ok s.outcome
unfolding cut_short
cut_short-finish (ok u) r s h = outcome-settled _ r.buffer body_abandonment s h
cut_short-finish (err e) r s h = elim (Bool-cases (not (is_canceled e))) [
  | inl own ↦ absurd (let k = rw own at h in cc)
  | inr stopped ↦ outcome-settled _ r.buffer body_abandonment s (rw stopped at h)
]

module _ (http : Http) (head : ValidatedRequestHead http) (max : ℕ) where
  by-Grants :
      (sent : Result Error (Unit {0})) (r : ReceivedResponse) (end : BodyEnd)
      (upload_aborted : Bool) (s : SettledExchange)
      → r.end ≡ end
      → Reaches http (new_policy http head max) r.policy
      → settled_by sent r end upload_aborted ≡ ok s
      → Grants sent r upload_aborted head.upgrade head.persistence s.outcome
  unfolding settled_by
  by-Grants sent r whole upload_aborted s at reached h =
      let (ended, asked, h') =
        >>=-eq-ok (request_end sent upload_aborted)
          (λ ended. finish r.policy ended finished >>= λ o.
            ok (settled_as r.buffer (if upload_aborted then upload_abort else message_policy) o))
          h in
      let gave = outcome-settled (finish r.policy ended finished) r.buffer _ s h' in
      let (justified, bounded) =
        Reaches-Justified http head max r.policy ended finished s.outcome reached gave in
      granted-Grants sent r upload_aborted head.upgrade head.persistence ended finished s.outcome
        justified
        (λ e f.
          let (went, kept) = request_end-finished sent upload_aborted ended asked e in
          (went, kept, at))
  by-Grants sent r cut upload_aborted s at reached h =
      let gave = cut_short-finish sent r s h in
      let (justified, bounded) =
        Reaches-Justified http head max r.policy retired retired s.outcome reached gave in
      granted-Grants sent r upload_aborted head.upgrade head.persistence retired retired s.outcome
        justified (λ e f. absurd (cc))

  -- An exchange that is settled keeps the transport for another request, or hands it off to an
  -- upgrade, only where the whole request went out, the application did not abort the upload, and
  -- the whole response came in; the connection is reused only if the request allowed it, and handed
  -- off only to the upgrade that the request asked for. Its policy is one that was given operations
  -- from the head of that request on.
  pub finish_exchange-Grants :
      (sent : Result Error (Unit {0})) (r : ReceivedResponse) (upload_aborted : Bool)
      (s : SettledExchange)
      → Reaches http (new_policy http head max) r.policy
      → finish_exchange sent (ok r) upload_aborted ≡ ok s
      → Grants sent r upload_aborted head.upgrade head.persistence s.outcome
  unfolding finish_exchange
  finish_exchange-Grants (err e) r upload_aborted s reached h =
      by-Grants (err e) r r.end upload_aborted s refl reached h
  finish_exchange-Grants (ok u) r upload_aborted s reached h =
      by-Grants (ok u) r r.end upload_aborted s refl reached h

  Complete-undisturbed :
      (first : First) (sent : Result Error (Unit {0})) (r : ReceivedResponse)
      (aborted_then upload_aborted : Bool)
      → Complete sent r upload_aborted
      → cancels_peer first sent (ok r) aborted_then ≡ false
  unfolding cancels_peer
  Complete-undisturbed received_first sent r aborted_then upload_aborted (went, kept, over) =
      rw over refl
  Complete-undisturbed sent_first sent r aborted_then upload_aborted (went, kept, over) =
      rw went refl

  -- Whichever direction ended first: where an exchange is settled and the transport is kept for
  -- another request or handed off, neither direction was canceled on account of the other.
  pub finish_exchange-undisturbed :
      (first : First) (sent : Result Error (Unit {0})) (r : ReceivedResponse)
      (aborted_then upload_aborted : Bool) (s : SettledExchange)
      → Reaches http (new_policy http head max) r.policy
      → finish_exchange sent (ok r) upload_aborted ≡ ok s
      → s.outcome ≢ closing
      → cancels_peer first sent (ok r) aborted_then ≡ false
  finish_exchange-undisturbed first sent r aborted_then upload_aborted s reached h kept =
      by_outcome s.outcome kept (finish_exchange-Grants sent r upload_aborted s reached h)
    where
      by_outcome :
          (o : Outcome)
          → o ≢ closing
          → Grants sent r upload_aborted head.upgrade head.persistence o
          → cancels_peer first sent (ok r) aborted_then ≡ false
      by_outcome closing kept g = absurd (kept refl)
      by_outcome reuse kept (complete, rest) =
          Complete-undisturbed first sent r aborted_then upload_aborted complete
      by_outcome (handoff kind) kept (complete, rest) =
          Complete-undisturbed first sent r aborted_then upload_aborted complete
