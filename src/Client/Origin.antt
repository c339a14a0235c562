-- ===== src/Client/Origin.antt =====
-- Which failure of an exchange is reported.
use vakya.Prelude.{
  refl, ◌||◌, ◌>>=◌, clash, ◌≡◌, sym, ap, ◌∙◌, ◌⊎◌, inl, inr, Bool, true, false, not, ◌&&◌,
  if◌then◌else◌, Bool-cases, Result, ok, err,
}
use vakya.Message.{Error}
use vakya.BodyIo.Rounds.{is_canceled}
use vakya.Client.Response.{BodyEnd, whole, cut, ReceivedResponse}
use vakya.Exchange.{finished, Outcome, finish}
use vakya.Io.Recv.{RecvBuffer}
use vakya.Client.Settle.{
  settled_as, message_policy, SettledExchange, request_end, cut_short, settled_by, finish_exchange,
}

same_error : {A : Type 0} (a b : Error) → ◌≡◌ {A = Result Error A} (err a) (err b) → a ≡ b
same_error a b h = cc

-- Where both directions failed.
both-Originates :
    (s e f : Error)
    → ◌≡◌ {A = Result Error SettledExchange}
        (if not (is_canceled s) && is_canceled e then err s else err e)
        (err f)
    → is_canceled f ≡ true
    → (is_canceled s ≡ true) × (is_canceled e ≡ true)
both-Originates s e f h canceled = elim (Bool-cases (is_canceled s)) [
  | inl stopped ↦
      let same = same_error {A = SettledExchange} e f (rw stopped at h) in
      (stopped, ap is_canceled same ∙ canceled)
  | inr own ↦ elim (Bool-cases (is_canceled e)) [
    | inl followed ↦
        let same = same_error {A = SettledExchange} s f (rw (own, followed) at h) in
        absurd (clash (is_canceled f) canceled (sym (ap is_canceled same) ∙ own))
    | inr other ↦
        let same = same_error {A = SettledExchange} e f (rw (own, other) at h) in
        absurd (clash (is_canceled f) canceled (sym (ap is_canceled same) ∙ other))
  ]
]

-- Where the response came in.
upload-Originates :
    (x f : Error) (r : ReceivedResponse) (end : BodyEnd) (upload_aborted : Bool)
    → settled_by (err x) r end upload_aborted ≡ err f
    → is_canceled f ≡ true
    → is_canceled x ≡ true
unfolding settled_by cut_short request_end
upload-Originates x f r end upload_aborted h canceled = elim (Bool-cases (is_canceled x)) [
  | inl stopped ↦ stopped
  | inr own ↦
      absurd (clash (is_canceled f) canceled (sym (ap is_canceled (reported end own h)) ∙ own))
]
  where
    reported :
        (end : BodyEnd)
        → is_canceled x ≡ false
        → settled_by (err x) r end upload_aborted ≡ err f
        → x ≡ f
    reported whole own h = same_error {A = SettledExchange} x f (rw own at h)
    reported cut own h = same_error {A = SettledExchange} x f (rw own at h)

-- The failure `e` of an exchange is one that happened: the failure of a direction, or that of the
-- policy when both directions finished.
abbrev Happened : Result Error (Unit {0}) → Result Error ReceivedResponse → Error → Type 0
Happened sent received e =
    (sent ≡ err e)
    ⊎ (received ≡ err e)
    ⊎ ((r : ReceivedResponse) × (sent ≡ ok tt)
        × (received ≡ ok r)
        × (r.end ≡ whole)
        × (finish r.policy finished finished ≡ err e))

-- What is reported as the failure `e` of an exchange.
pub record Originates (sent : Result Error (Unit {0})) (received : Result Error ReceivedResponse)
    (e : Error) : Type 0 where
  pub happened : Happened sent received e
  pub not_hidden :
      is_canceled e ≡ true
      → ((x : Error) → sent ≡ err x → is_canceled x ≡ true)
        × ((x : Error) → received ≡ err x → is_canceled x ≡ true)
  pub response_first : (t : Error) → received ≡ err t → is_canceled t ≡ false → e ≡ t

-- Where both directions failed, what is reported is one of the two failures.
both-Happened :
    (s t e : Error)
    → ◌≡◌ {A = Result Error SettledExchange}
        (if not (is_canceled s) && is_canceled t then err s else err t)
        (err e)
    → Happened (err s) (err t) e
both-Happened s t e h = elim (Bool-cases (not (is_canceled s) && is_canceled t)) [
  | inl followed ↦ inl (ap err (same_error {A = SettledExchange} s e (rw followed at h)))
  | inr other ↦ inr (inl (ap err (same_error {A = SettledExchange} t e (rw other at h))))
]

both-own :
    (s t e : Error)
    → ◌≡◌ {A = Result Error SettledExchange}
        (if not (is_canceled s) && is_canceled t then err s else err t)
        (err e)
    → is_canceled t ≡ false
    → e ≡ t
both-own s t e h own = elim (Bool-cases (is_canceled s)) [
  | inl stopped ↦ sym (same_error {A = SettledExchange} t e (rw stopped at h))
  | inr other ↦ sym (same_error {A = SettledExchange} t e (rw (other, own) at h))
]

sent_failed-Happened :
    (s e : Error) (r : ReceivedResponse) (end : BodyEnd) (upload_aborted : Bool)
    → settled_by (err s) r end upload_aborted ≡ err e
    → Happened (err s) (ok r) e
unfolding settled_by cut_short request_end finish
sent_failed-Happened s e r cut upload_aborted h = elim (Bool-cases (is_canceled s)) [
  | inl stopped ↦ absurd (let k = rw stopped at h in cc)
  | inr own ↦ inl (ap err (same_error {A = SettledExchange} s e (rw own at h)))
]
sent_failed-Happened s e r whole upload_aborted h =
    elim (Bool-cases (not (is_canceled s) || not upload_aborted)) [
      | inl fails ↦ inl (ap err (same_error {A = SettledExchange} s e (rw fails at h)))
      | inr follows ↦ absurd (let k = rw follows at h in cc)
    ]

policy_failed :
    {e : Error} (o : Result Error Outcome) (b : RecvBuffer)
    → (o >>= λ outcome. ok (settled_as b message_policy outcome)) ≡ err e
    → o ≡ err e
policy_failed (ok outcome) b h = absurd (cc)
policy_failed {e} (err f) b h = ap err (same_error {A = SettledExchange} f e h)

settled-Happened :
    (u : Unit {0}) (e : Error) (r : ReceivedResponse) (end : BodyEnd) (upload_aborted : Bool)
    → r.end ≡ end
    → settled_by (ok u) r end upload_aborted ≡ err e
    → Happened (ok u) (ok r) e
unfolding settled_by cut_short request_end finish
settled-Happened u e r cut upload_aborted at h = absurd (cc)
settled-Happened u e r whole true at h = absurd (cc)
settled-Happened u e r whole false at h =
    inr (inr (r, refl, refl, at, policy_failed (finish r.policy finished finished) r.buffer h))

-- The failure that an exchange reports is one that happened: that of a direction, or, where the
-- upload and the response finished, that of the policy. It is a cancellation only if each
-- direction that failed was canceled, so a failure of its own is never hidden behind the
-- cancellation that followed from it; and where the response failed, and not by a cancellation,
-- it is that failure, whatever the upload did.
pub finish_exchange-Originates :
    (sent : Result Error (Unit {0})) (received : Result Error ReceivedResponse)
    (upload_aborted : Bool) (e : Error)
    → finish_exchange sent received upload_aborted ≡ err e
    → Originates sent received e
unfolding finish_exchange
finish_exchange-Originates (err s) (err t) upload_aborted e h = record {
  happened = both-Happened s t e h;
  not_hidden = λ canceled.
      let (first, second) = both-Originates s t e h canceled in
      (
        λ x at. rw (same_error {A = Unit} s x at) at first,
        λ x at. rw (same_error {A = ReceivedResponse} t x at) at second,
      );
  response_first = λ x at own.
      let same = same_error {A = ReceivedResponse} t x at in
      let told : is_canceled t ≡ false = rw (← same) at own in both-own s t e h told ∙ same;
}
finish_exchange-Originates (ok u) (err t) upload_aborted e h =
    let told = same_error {A = SettledExchange} t e h in
    record {
      happened = inr (inl (ap err told));
      not_hidden = λ canceled. (
        λ x at. absurd (cc),
        λ x at. ap is_canceled (sym (same_error {A = ReceivedResponse} t x at) ∙ told) ∙ canceled,
      );
      response_first = λ x at own. sym told ∙ same_error {A = ReceivedResponse} t x at;
    }
finish_exchange-Originates (err s) (ok r) upload_aborted e h = record {
  happened = sent_failed-Happened s e r r.end upload_aborted h;
  not_hidden = λ canceled. (
    λ x at.
        rw (same_error {A = Unit} s x at) at
          (upload-Originates s e r r.end upload_aborted h canceled),
    λ x at. absurd (cc),
  );
  response_first = λ x at own. absurd (cc);
}
finish_exchange-Originates (ok u) (ok r) upload_aborted e h = record {
  happened = settled-Happened u e r r.end upload_aborted refl h;
  not_hidden = λ canceled. (λ x at. absurd (cc), λ x at. absurd (cc));
  response_first = λ x at own. absurd (cc);
}
