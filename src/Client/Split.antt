-- ===== src/Client/Split.antt =====
-- What the loop on the heads of a response takes off its input.
use vakya.Prelude.{
  refl, appended_drop, ℕ, ◌≡◌, sym, Bool, true, false, ◌||◌, Option, none, some, List, [], ◌∷◌,
  append-nil, ◌==◌, length, drop, Bytes, Result, ok, err,
}
use vakya.Message.{Error}
use vakya.Http.{Http}
use vakya.Head.{HeadError}
use vakya.Head.Response.{ResponseHead, ValidatedResponseHead}
use vakya.Head.Scan.{HeadScan, default, head_len}
use vakya.Exchange.{
  HeadAction, informational_head, final_head, upgrade_head, ExchangePolicy, receive_head,
}
use vakya.Io.{IoError}
use vakya.Io.Recv.{RecvBuffer, bytes, take_shared_prefix, ReadStatus, received, at_eof}
use vakya.Io.Retained.{IsSound}
use vakya.Io.Payload.{Splits, take_shared_prefix-Splits}
use vakya.BodyIo.Receive.{read_until}
use vakya.BodyIo.Arrives.{read_until-Appends}
use vakya.Client.Heads.{
  parse_shared, Observed, seen, unseen, overdue, HeadRound, HeadState, HeadsReceived,
  offer_informational, head_acted, head_received, head_parsed, head_taken, head_read, head_found,
  head_round, head_loop,
}
use vakya.Client.Parted.{after_head, Parted, stopped-Parted, taken-Parted, arrived-Parted}

module _ (http : Http) (error_of : IoError → Error) (by_lease : Bool) (max_bytes : ℕ)
    (parse_response : Bytes → Result HeadError (ResponseHead http)) where
  -- The parse of one head, with its bound.
  abbrev parse : Bytes → Result HeadError (ResponseHead http)
  parse = parse_shared http error_of by_lease max_bytes parse_response

  -- What the rounds behind a round promise.
  abbrev Promises : (HeadState → HeadsReceived http) → Type 0
  Promises rest =
      (s : HeadState) → IsSound s.buffer → Parted http parse (bytes s.buffer) s.policy (rest s)

  offered-Parted :
      (s : HeadState) (v : ValidatedResponseHead http) (observed : Observed)
      (rest : HeadState → HeadsReceived http)
      → IsSound s.buffer
      → Promises rest
      → Parted http parse
          (bytes s.buffer)
          s.policy
          (offer_informational http error_of by_lease max_bytes parse_response s v observed rest)
  unfolding offer_informational
  offered-Parted s v seen rest sound good =
      let parted = good s sound in
      record { splits = parted.splits; sound = parted.sound; heard = parted.heard }
  offered-Parted s v unseen rest sound good = stopped-Parted http parse s _ sound
  offered-Parted s v overdue rest sound good = stopped-Parted http parse s _ sound

  acted-Parted :
      (s : HeadState) (v : ValidatedResponseHead http) (action : HeadAction) (observed : Observed)
      (rest : HeadState → HeadsReceived http)
      → IsSound s.buffer
      → Promises rest
      → Parted http parse
          (bytes s.buffer)
          s.policy
          (head_acted http error_of by_lease max_bytes parse_response s v action observed rest)
  unfolding head_acted
  acted-Parted s v informational_head observed rest sound good =
      offered-Parted (record s { continue_allowed = v.head.status == 100 || s.continue_allowed }) v
        observed rest sound good
  acted-Parted s v final_head observed rest sound good =
      stopped-Parted http parse (record s { continue_allowed = true }) _ sound
  acted-Parted s v (upgrade_head kind) observed rest sound good =
      stopped-Parted http parse (record s { continue_allowed = true }) _ sound

  received-Parted :
      (s : HeadState) (observed : Observed)
      (answer : ExchangePolicy × Result Error (ValidatedResponseHead http × HeadAction))
      (rest : HeadState → HeadsReceived http)
      → IsSound s.buffer
      → Promises rest
      → Parted http parse
          (bytes s.buffer)
          answer.0
          (head_received http error_of by_lease max_bytes parse_response s observed answer rest)
  unfolding head_received
  received-Parted s observed (policy, err e) rest sound good =
      stopped-Parted http parse (record s { policy = policy }) (err e) sound
  received-Parted s observed (policy, ok (v, action)) rest sound good =
      acted-Parted (record s { policy = policy }) v action observed rest sound good

  parsed-Parted :
      (s : HeadState) (observed : Observed) (answer : Result HeadError (ResponseHead http))
      (rest : HeadState → HeadsReceived http)
      → IsSound s.buffer
      → Promises rest
      → Parted http parse
          (bytes s.buffer)
          (after_head http s.policy answer)
          (head_parsed http error_of by_lease max_bytes parse_response s observed answer rest)
  unfolding head_parsed
  parsed-Parted s observed (err e) rest sound good = stopped-Parted http parse s _ sound
  parsed-Parted s observed (ok response) rest sound good =
      received-Parted s observed (receive_head http s.policy response) rest sound good

  took-Parted :
      (s : HeadState) (observed : Observed) (answer : RecvBuffer × Result Error Bytes)
      (rest : HeadState → HeadsReceived http)
      → Splits s.buffer answer
      → Promises rest
      → Parted http parse
          (bytes s.buffer)
          s.policy
          (head_taken http error_of by_lease max_bytes parse_response s observed answer rest)
  unfolding head_taken
  took-Parted s observed (b, err e) rest (same, sound) good =
      rw (← same) (stopped-Parted http parse (record s { buffer = b }) (err e) sound)
  took-Parted s observed (b, ok input) rest (splits, sound) good = rw splits (
      taken-Parted http parse input (bytes b) s.policy _ (
        parsed-Parted (record s { buffer = b; scan = default }) observed (parse input) rest sound
          good))

  read-Parted :
      (s : HeadState) (answer : RecvBuffer × Result Error ReadStatus)
      (rest : HeadState → HeadsReceived http)
      → IsSound answer.0
      → Promises rest
      → Parted http parse
          (bytes answer.0)
          s.policy
          (head_read http error_of by_lease max_bytes parse_response s answer rest)
  unfolding head_read
  read-Parted s (b, err e) rest sound good =
      stopped-Parted http parse (record s { buffer = b }) _ sound
  read-Parted s (b, ok at_eof) rest sound good =
      stopped-Parted http parse (record s { buffer = b }) _ sound
  read-Parted s (b, ok (received count)) rest sound good = good (record s { buffer = b }) sound

  found-Parted :
      (r : HeadRound) (s : HeadState) (answer : HeadScan × Result HeadError (Option ℕ))
      (rest : HeadState → HeadsReceived http)
      → IsSound s.buffer
      → Promises rest
      → Parted http parse
          (bytes s.buffer)
          s.policy
          (head_found http error_of by_lease max_bytes parse_response r s answer rest)
  unfolding head_found
  found-Parted r s (scan, err e) rest sound good =
      stopped-Parted http parse (record s { scan = scan }) _ sound
  found-Parted r s (scan, ok (some count)) rest sound good =
      took-Parted (record s { scan = scan }) r.observed (take_shared_prefix count s.buffer) rest
        (take_shared_prefix-Splits count s.buffer sound) good
  found-Parted r s (scan, ok none) rest sound good =
      let result = read_until error_of by_lease r.reading s.buffer in
      let (arrived, appended, tells, kept) =
        read_until-Appends error_of by_lease r.reading s.buffer sound in
      let same : drop (length (bytes s.buffer)) (bytes result.0) ≡ arrived =
        appended_drop (bytes s.buffer) arrived (bytes result.0) appended in
      arrived-Parted http parse (bytes s.buffer) (drop (length (bytes s.buffer)) (bytes result.0))
        s.policy _
        (rw (same, sym appended) (read-Parted (record s { scan = scan }) result rest kept good))

  round-Parted :
      (r : HeadRound) (expired : Bool) (s : HeadState) (rest : HeadState → HeadsReceived http)
      → IsSound s.buffer
      → Promises rest
      → Parted http parse
          (bytes s.buffer)
          s.policy
          (head_round http error_of by_lease max_bytes parse_response r expired s rest)
  unfolding head_round
  round-Parted r true s rest sound good = stopped-Parted http parse s _ sound
  round-Parted r false s rest sound good =
      found-Parted r s (head_len max_bytes s.scan (bytes s.buffer)) rest sound good

  -- Whatever the transport and the application do while the heads of a response are read, no input
  -- is lost or reordered: what was buffered and what arrived is the heads that were taken, one
  -- after the other, and then what the buffer still has, which stays sound; and the policy of the
  -- exchange was given those heads and nothing else.
  pub head_loop-Parted :
      (rounds : List HeadRound) (s : HeadState)
      → IsSound s.buffer
      → Parted http parse
          (bytes s.buffer)
          s.policy
          (head_loop http error_of by_lease max_bytes parse_response rounds s)
  unfolding head_loop
  head_loop-Parted [] s sound = record {
    splits = append-nil (bytes s.buffer);
    sound = sound;
    heard = refl;
  }
  head_loop-Parted (r ∷ rounds) s sound =
      round-Parted r r.expired s (head_loop http error_of by_lease max_bytes parse_response rounds)
        sound (head_loop-Parted rounds)
