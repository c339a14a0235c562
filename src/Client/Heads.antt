-- ===== src/Client/Heads.antt =====
-- src/proto/h1/client.rs: the loop of `receive` that reads the heads of a response.
use vakya.Prelude.{
  ℕ, Bool, true, false, ◌||◌, Option, none, some, List, [], ◌∷◌, ◌++◌, ltb, ◌==◌, if◌then◌else◌,
  length, drop, Bytes, Result, ok, err,
}
use vakya.Message.{
  plain_error, Error, ErrorKind, timeout, invalid_message, ErrorDetail, timeout_phase, TimeoutPhase,
  head,
}
use vakya.Http.{Http}
use vakya.Head.{HeadError, limit}
use vakya.Head.Response.{ResponseHead, ValidatedResponseHead}
use vakya.Head.Scan.{HeadScan, default, head_len}
use vakya.Exchange.{
  HeadAction, informational_head, final_head, upgrade_head, ExchangePolicy, receive_head,
}
use vakya.Io.{IoError}
use vakya.Io.Recv.{RecvBuffer, bytes, take_shared_prefix, ReadStatus, received, at_eof}
use vakya.BodyIo.Rounds.{Round}
use vakya.BodyIo.Receive.{read_until}

-- What the offer of an event gives: the application saw it, it is gone or the exchange was
-- canceled, or the deadline of the head passed first.
pub data Observed : Type 0 where
  seen unseen overdue : Observed

-- One round of the loop: whether the deadline has passed, what a read gives, and an offer.
pub record HeadRound : Type 0 where
  pub expired : Bool
  pub reading : Round
  pub observed : Observed

-- What the loop keeps: the input, the search for the end of a head, the policy of the exchange,
-- and whether the upload may go on after it waited for `100 Continue`.
pub record HeadState : Type 0 where
  pub buffer : RecvBuffer
  pub scan : HeadScan
  pub policy : ExchangePolicy
  pub continue_allowed : Bool

module _ (http : Http) where
  -- How the loop ends, pending without an end; with the informational heads that were delivered,
  -- the input that was taken for heads, and what the reads appended.
  pub record HeadsReceived : Type 0 where
    pub ended : Option (Result Error (ValidatedResponseHead http))
    pub state : HeadState
    pub informed : List (ValidatedResponseHead http)
    pub taken : List Bytes
    pub arrived : Bytes

  abbrev pub stopped : HeadState → Result Error (ValidatedResponseHead http) → HeadsReceived
  stopped s result = record {
    ended = some result;
    state = s;
    informed = [];
    taken = [];
    arrived = [];
  }

  abbrev pub with_informed : ValidatedResponseHead http → HeadsReceived → HeadsReceived
  with_informed v t = record t { informed = v ∷ t.informed }

  abbrev pub with_taken : Bytes → HeadsReceived → HeadsReceived
  with_taken input t = record t { taken = input ∷ t.taken }

  abbrev pub with_arrived : Bytes → HeadsReceived → HeadsReceived
  with_arrived input t = record t { arrived = input ++ t.arrived }

abbrev pub head_timeout : Error
head_timeout = record { kind = timeout; detail = some (timeout_phase head) }

-- `parse_response` stands for the parse of one head by the crates httparse and `http`.
module _ (http : Http) (error_of : IoError → Error) (by_lease : Bool) (max_bytes : ℕ)
    (parse_response : Bytes → Result HeadError (ResponseHead http)) where
  -- `parse_shared` of src/proto/h1/head/scan.rs
  unfoldable pub parse_shared : Bytes → Result HeadError (ResponseHead http)
  parse_shared input =
      if ltb max_bytes (length input) then err (limit vakya.Head.bytes) else parse_response input

  -- The offer of an informational head.
  unfoldable pub offer_informational :
      HeadState
      → ValidatedResponseHead http
      → Observed
      → (HeadState → HeadsReceived http)
      → HeadsReceived http
  offer_informational s v seen rest = with_informed http v (rest s)
  offer_informational s v unseen rest = stopped http s (err (plain_error vakya.Message.canceled))
  offer_informational s v overdue rest = stopped http s (err head_timeout)

  abbrev pub allowing : Bool → HeadState → HeadState
  allowing allowed s = record s { continue_allowed = allowed || s.continue_allowed }

  unfoldable pub head_acted :
      HeadState
      → ValidatedResponseHead http
      → HeadAction
      → Observed
      → (HeadState → HeadsReceived http)
      → HeadsReceived http
  unfolding offer_informational
  head_acted s v informational_head observed rest =
      offer_informational (allowing (v.head.status == 100) s) v observed rest
  head_acted s v final_head observed rest = stopped http (allowing true s) (ok v)
  head_acted s v (upgrade_head kind) observed rest = stopped http (allowing true s) (ok v)

  -- After the policy of the exchange has seen the head.
  unfoldable pub head_received :
      HeadState
      → Observed
      → ExchangePolicy × Result Error (ValidatedResponseHead http × HeadAction)
      → (HeadState → HeadsReceived http)
      → HeadsReceived http
  unfolding head_acted
  head_received s observed (policy, err e) rest =
      stopped http (record s { policy = policy }) (err e)
  head_received s observed (policy, ok (v, action)) rest =
      head_acted (record s { policy = policy }) v action observed rest

  unfoldable pub head_parsed :
      HeadState
      → Observed
      → Result HeadError (ResponseHead http)
      → (HeadState → HeadsReceived http)
      → HeadsReceived http
  unfolding head_received receive_head
  head_parsed s observed (err e) rest = stopped http s (err (vakya.Exchange.error_of e))
  head_parsed s observed (ok response) rest =
      head_received s observed (receive_head http s.policy response) rest

  -- After the input of a head was taken.
  unfoldable pub head_taken :
      HeadState
      → Observed
      → RecvBuffer × Result Error Bytes
      → (HeadState → HeadsReceived http)
      → HeadsReceived http
  unfolding head_parsed parse_shared
  head_taken s observed (b, err e) rest = stopped http (record s { buffer = b }) (err e)
  head_taken s observed (b, ok input) rest =
      with_taken http input
        (head_parsed (record s { buffer = b; scan = default }) observed (parse_shared input) rest)

  -- The error at the end of the input.
  abbrev pub ended_early : RecvBuffer → Error
  ended_early b =
      plain_error (if length (bytes b) == 0 then vakya.Message.closed else invalid_message)

  unfoldable pub head_read :
      HeadState
      → RecvBuffer × Result Error ReadStatus
      → (HeadState → HeadsReceived http)
      → HeadsReceived http
  unfolding bytes
  head_read s (b, err e) rest = stopped http (record s { buffer = b }) (err e)
  head_read s (b, ok at_eof) rest = stopped http (record s { buffer = b }) (err (ended_early b))
  head_read s (b, ok (received count)) rest = rest (record s { buffer = b })

  -- After the search for the end of a head.
  unfoldable pub head_found :
      HeadRound
      → HeadState
      → HeadScan × Result HeadError (Option ℕ)
      → (HeadState → HeadsReceived http)
      → HeadsReceived http
  unfolding head_taken take_shared_prefix head_read read_until bytes
  head_found r s (scan, err e) rest =
      stopped http (record s { scan = scan }) (err (vakya.Exchange.error_of e))
  head_found r s (scan, ok (some count)) rest =
      head_taken (record s { scan = scan }) r.observed (take_shared_prefix count s.buffer) rest
  head_found r s (scan, ok none) rest =
      let result = read_until error_of by_lease r.reading s.buffer in
      with_arrived http (drop (length (bytes s.buffer)) (bytes result.0))
        (head_read (record s { scan = scan }) result rest)

  unfoldable pub head_round :
      HeadRound
      → (expired : Bool) → HeadState
      → (HeadState → HeadsReceived http)
      → HeadsReceived http
  unfolding head_found head_len bytes
  head_round r true s rest = stopped http s (err head_timeout)
  head_round r false s rest = head_found r s (head_len max_bytes s.scan (bytes s.buffer)) rest

  unfoldable pub head_loop : List HeadRound → HeadState → HeadsReceived http
  unfolding head_round
  head_loop [] s = record { ended = none; state = s; informed = []; taken = []; arrived = [] }
  head_loop (r ∷ rounds) s = head_round r r.expired s (head_loop rounds)
