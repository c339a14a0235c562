-- ===== src/Client/Responds.antt =====
-- What a response that was received is made of.
use vakya.Prelude.{
  ℕ, ◌≤◌, ◌≡◌, refl, sym, ap, ◌∙◌, Bool, true, false, Option, none, some, List, [], ◌++◌,
  append-nil, append_assoc, arith, length, Bytes, Result, ok, err,
}
use vakya.Message.{Error, BodyMode, empty, fixed, chunked, until_eof}
use vakya.Http.{Http}
use vakya.Head.{HeadError}
use vakya.Head.Response.{ResponseHead, ValidatedResponseHead}
use vakya.Exchange.{ExchangePolicy}
use vakya.Chunk.{DecodeError}
use vakya.Decode.Input.{DecodeLimits, initial_state, with_limits}
use vakya.Decode.Grammar.{Rest}
use vakya.Io.{IoError}
use vakya.Io.Recv.{RecvBuffer, bytes}
use vakya.Io.Retained.{IsSound}
use vakya.BodyIo.Rounds.{Round, ReceiveEnd, completed, abandoned_end, panicked, failed, Received}
use vakya.BodyIo.Receive.{receive_body}
use vakya.BodyIo.Arrives.{body_of}
use vakya.BodyIo.Arrival.{receive_body-Arrives}
use vakya.Client.Heads.{parse_shared, HeadState, HeadsReceived}
use vakya.Client.Parted.{after_heads, joined, Parted}
use vakya.Client.Split.{head_loop-Parted}
use vakya.Client.Response.{
  whole, cut, ReceivedResponse, responded, ResponseRounds, ResponseReceived, has_producer,
  with_body, without_body, response_end, receive_content, offer_final, heads_ended, receive_until,
  receive,
}

module _ (http : Http) (error_of : IoError → Error) (by_lease : Bool) (max_bytes : ℕ)
    (parse_response : Bytes → Result HeadError (ResponseHead http)) {H : Type 0}
    (parse_trailers : ℕ → Bytes → Result DecodeError (ℕ × H)) (limits : DecodeLimits)
    (parses_within : (n : ℕ) (block : Bytes) (k : ℕ) (fields : H)
      → parse_trailers n block ≡ ok (k, fields)
      → k ≤ length block) where
  abbrev parse : Bytes → Result HeadError (ResponseHead http)
  parse = parse_shared http error_of by_lease max_bytes parse_response

  -- A response that was received whole, from `input` and the policy `p` on.
  abbrev pub Whole :
      (input : Bytes) → ExchangePolicy → ResponseReceived http H → ReceivedResponse → Type 0
  Whole input p t r =
      (v : ValidatedResponseHead http) × (t.final_head ≡ some v)
      × (wire : Bytes) × (input ++ t.arrived ≡ joined t.taken ++ (wire ++ bytes r.buffer))
      × Rest parse_trailers limits.max_trailers (initial_state v.body) wire (body_of t.delivered)
      × (r.policy
          ≡ after_heads http (parse_shared http error_of by_lease max_bytes parse_response) p
              t.taken)

  abbrev Responds : (input : Bytes) → ExchangePolicy → ResponseReceived http H → Type 0
  Responds input p t =
      (r : ReceivedResponse) → t.ended ≡ some (responded r) → r.end ≡ whole → Whole input p t r

  no_body-Rest :
      (mode : BodyMode)
      → has_producer mode ≡ false
      → Rest parse_trailers limits.max_trailers (initial_state mode) [] []
  unfolding has_producer initial_state
  no_body-Rest empty h = (refl, refl)
  no_body-Rest (fixed n) h = (refl, ground arith)
  no_body-Rest chunked h = absurd (cc)
  no_body-Rest until_eof h = absurd (cc)

  ended-completed :
      (policy : ExchangePolicy) (b : RecvBuffer) (e : Option ReceiveEnd) (r : ReceivedResponse)
      → response_end http error_of by_lease max_bytes parse_response parse_trailers limits policy b
          e
        ≡ some (responded r)
      → r.end ≡ whole
      → (e ≡ some completed) × (r ≡ record { end = whole; buffer = b; policy = policy })
  unfolding response_end
  ended-completed policy b none r h at = absurd (cc)
  ended-completed policy b (some (failed e)) r h at = absurd (cc)
  ended-completed policy b (some panicked) r h at = absurd (cc)
  ended-completed policy b (some completed) r h at = (refl, cc)
  ended-completed policy b (some abandoned_end) r h at =
      let same : r ≡ record { end = cut; buffer = b; policy = policy } = cc in
      absurd (let k : cut ≡ whole = sym (ap (λ q. q.end) same) ∙ at in cc)

  with_body-Responds :
      (input : Bytes) (p : ExchangePolicy) (t : HeadsReceived http) (v : ValidatedResponseHead http)
      (body : Received H)
      → Parted http parse input p t
      → (body.ended ≡ some completed
          → (wire : Bytes) × (bytes t.state.buffer ++ body.arrived ≡ wire ++ bytes body.buffer)
            × Rest parse_trailers limits.max_trailers
                (initial_state v.body)
                wire
                (body_of body.delivered))
      → Responds input p
          (with_body http error_of by_lease max_bytes parse_response parse_trailers limits t v body)
  with_body-Responds input p t v body parted arrives r h at =
      let (ended, same) = ended-completed t.state.policy body.buffer body.ended r h at in
      let (wire, splits, rest) = arrives ended in
      (
        v,
        refl,
        wire,
        sym (append_assoc input t.arrived body.arrived)
            ∙ ap (λ x. x ++ body.arrived) parted.splits
            ∙ append_assoc (joined t.taken) (bytes t.state.buffer) body.arrived
            ∙ ap (λ x. joined t.taken ++ x) splits
            ∙ ap (λ q. joined t.taken ++ (wire ++ bytes q.buffer)) (sym same),
        rest,
        rw same parted.heard,
      )

  content-Responds :
      (rounds : List Round) (input : Bytes) (p : ExchangePolicy) (t : HeadsReceived http)
      (v : ValidatedResponseHead http) (has_body : Bool)
      → has_producer v.body ≡ has_body
      → Parted http parse input p t
      → Responds input p (
          receive_content http error_of by_lease max_bytes parse_response parse_trailers limits
            rounds t v has_body)
  unfolding receive_content
  content-Responds rounds input p t v false none_made parted =
      with_body-Responds input p t v
        (without_body http error_of by_lease max_bytes parse_response parse_trailers limits
          t.state.buffer)
        parted (λ h. ([], append-nil (bytes t.state.buffer), no_body-Rest v.body none_made))
  content-Responds rounds input p t v true made parted =
      with_body-Responds input p t v
        (receive_body error_of by_lease parse_trailers rounds t.state.buffer
          (with_limits v.body limits))
        parted
        (λ h.
          receive_body-Arrives error_of by_lease parse_trailers parses_within rounds v.body limits
            t.state.buffer _ parted.sound refl h)

  ended-Responds :
      (rounds : ResponseRounds) (input : Bytes) (p : ExchangePolicy) (t : HeadsReceived http)
      (e : Option (Result Error (ValidatedResponseHead http))) (seen : Bool)
      → rounds.seen ≡ seen
      → Parted http parse input p t
      → Responds input p (
          heads_ended http error_of by_lease max_bytes parse_response parse_trailers limits rounds t
            e)
  unfolding heads_ended offer_final
  ended-Responds rounds input p t none seen at parted = λ r h. absurd (cc)
  ended-Responds rounds input p t (some (err e)) seen at parted = λ r h. absurd (cc)
  ended-Responds rounds input p t (some (ok v)) true at parted =
      simp at (content-Responds rounds.body input p t v (has_producer v.body) refl parted)
  ended-Responds rounds input p t (some (ok v)) false at parted =
      λ r h. absurd (let k = simp at at h in cc)

  -- A response that is received to its end: what was buffered and what arrived is the heads that
  -- were taken, one after the other, then a body that is well-formed in the framing of the final
  -- head, and then what stays in the buffer; the application was handed the payload of that body,
  -- in order and without loss; and the policy of the exchange is as it was before, given the heads
  -- that were taken, each parsed, in order, and nothing else. It holds whatever the transport and the application do in the rounds.
  pub receive-Whole :
      (rounds : ResponseRounds) (s : HeadState) (r : ReceivedResponse)
      → IsSound s.buffer
      → (receive http error_of by_lease max_bytes parse_response parse_trailers limits rounds
          s).ended
        ≡ some (responded r)
      → r.end ≡ whole
      → Whole
          (bytes s.buffer)
          s.policy
          (receive http error_of by_lease max_bytes parse_response parse_trailers limits rounds s)
          r
  unfolding receive receive_until
  receive-Whole rounds s r sound h at = go rounds.no_deadline r h at
    where
      go :
          (no_deadline : Option Error)
          → Responds (bytes s.buffer) s.policy (
              receive_until http error_of by_lease max_bytes parse_response parse_trailers limits
                rounds no_deadline s)
      go none =
          ended-Responds rounds (bytes s.buffer) s.policy _ _ rounds.seen refl
            (head_loop-Parted http error_of by_lease max_bytes parse_response rounds.heads s sound)
      go (some e) = λ r h. absurd (cc)
