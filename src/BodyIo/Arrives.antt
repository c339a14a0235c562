-- ===== src/BodyIo/Arrives.antt =====
-- What a reception promises: what it takes off its input, and the frames that it hands over.
use vakya.Prelude.{
  ℕ, ◌≡◌, refl, sym, ap, ◌∙◌, ◌≢◌, inl, inr, Bool, true, false, not, ◌&&◌, Option, none, some, List,
  [], ◌∷◌, ◌++◌, append-nil, append_assoc, arith, Bool-cases, take, drop, take-append-drop, Bytes,
  Result, ok, err,
}
use vakya.Message.{Error}
use vakya.Io.{IoError}
use vakya.Io.Recv.{RecvBuffer, bytes, ReadStatus, portable, managed, ReceiveStorage}
use vakya.Io.Retained.{Fits, IsSound}
use vakya.Io.Reading.{Appends, Tells, read-Appends, read_managed-Appends}
use vakya.BodyIo.Transmit.{Frame, data_of, trailers_of}
use vakya.BodyIo.Receive.{policy_read, read_until, read_by, read_or_abandoned, in_body, timed}
use vakya.BodyIo.Rounds.{
  Round, ReceiveEnd, completed, abandoned_end, panicked, failed, Received, stopped, with_frame,
  with_arrived, drop_lease,
}

-- The payload of the frames that were handed over.
abbrev pub frame_body : {H : Type 0} → Frame H → Bytes
frame_body (data_of f) = f
frame_body (trailers_of fields) = []

abbrev pub body_of : {H : Type 0} → List (Frame H) → Bytes
body_of [] = []
body_of (f ∷ fs) = frame_body f ++ body_of fs

-- A reception from `input` on. It does not panic, it leaves a sound buffer, and when it completes
-- then what it took off the front of its input, behind which the rest stays in the buffer, is
-- related to the payload that it handed over.
pub record Arrives {H : Type 0} (Related : Bytes → Bytes → Type 0) (input : Bytes) (t : Received H)
    : Type 0 where
  pub unbroken : t.ended ≢ some panicked
  pub sound : IsSound t.buffer
  pub complete :
      t.ended ≡ some completed
      → (wire : Bytes) × (input ++ t.arrived ≡ wire ++ bytes t.buffer)
        × Related wire (body_of t.delivered)

abbrev pub Ends : ReceiveEnd → Type 0
Ends completed = ⊥
Ends panicked = ⊥
Ends abandoned_end = Unit
Ends (failed e) = Unit

module _ {H : Type 0} {Related : Bytes → Bytes → Type 0} where
  -- An end without success.
  pub stopped-Arrives :
      (input : Bytes) (b : RecvBuffer) (how : ReceiveEnd)
      → Ends how
      → IsSound b
      → Arrives {H = H} Related input (stopped b how)
  stopped-Arrives input b completed ends sound = absurd ends
  stopped-Arrives input b panicked ends sound = absurd ends
  stopped-Arrives input b abandoned_end ends sound = record {
    unbroken = λ h. cc;
    sound = sound;
    complete = λ h. absurd (cc);
  }
  stopped-Arrives input b (failed e) ends sound = record {
    unbroken = λ h. cc;
    sound = sound;
    complete = λ h. absurd (cc);
  }

  -- The end of the body, with nothing more to come.
  pub completed-Arrives :
      (b : RecvBuffer)
      → Related [] []
      → IsSound b
      → Arrives {H = H} Related (bytes b) (stopped b completed)
  completed-Arrives b related sound = record {
    unbroken = λ h. cc;
    sound = sound;
    complete = λ h. ([], append-nil (bytes b), related);
  }

  pub frame-Arrives :
      (input : Bytes) (f : Frame H) (t : Received H)
      → Arrives (λ wire body. Related wire (frame_body f ++ body)) input t
      → Arrives Related input (with_frame f t)
  frame-Arrives input f t a = record {
    unbroken = a.unbroken;
    sound = a.sound;
    complete = a.complete;
  }

  pub front-Arrives :
      (input : Bytes) (count : ℕ) (t : Received H)
      → Arrives (λ wire body. Related (take count input ++ wire) body) (drop count input) t
      → Arrives Related input t
  front-Arrives input count t a = record {
    unbroken = a.unbroken;
    sound = a.sound;
    complete = λ h.
        let (wire, splits, related) = a.complete h in
        (
          take count input ++ wire,
          ap (λ v. v ++ t.arrived) (sym (take-append-drop count input))
              ∙ append_assoc (take count input) (drop count input) t.arrived
              ∙ ap (λ v. take count input ++ v) splits
              ∙ sym (append_assoc (take count input) wire (bytes t.buffer)),
          related,
        );
  }

  pub arrived-Arrives :
      (input more : Bytes) (t : Received H)
      → Arrives Related (input ++ more) t
      → Arrives Related input (with_arrived more t)
  arrived-Arrives input more t a = record {
    unbroken = a.unbroken;
    sound = a.sound;
    complete = λ h.
        let (wire, splits, related) = a.complete h in
        (wire, sym (append_assoc input more t.arrived) ∙ splits, related);
  }

  pub weaker-Arrives :
      {Stronger : Bytes → Bytes → Type 0} (input : Bytes) (t : Received H)
      → ((wire body : Bytes) → Stronger wire body → Related wire body)
      → Arrives Stronger input t
      → Arrives Related input t
  weaker-Arrives input t implies a = record {
    unbroken = a.unbroken;
    sound = a.sound;
    complete = λ h.
        let (wire, splits, related) = a.complete h in
        (wire, splits, implies wire (body_of t.delivered) related);
  }

-- Data that is dropped leaves its buffer sound.
pub drop_lease-IsSound :
    (dropped : Bool) (b : RecvBuffer) → IsSound b → IsSound (drop_lease dropped b)
unfolding drop_lease bytes
drop_lease-IsSound dropped b sound = record {
  fits = still b.storage b.permit sound.fits;
  bounded = sound.bounded;
  ordered = sound.ordered;
  asks = sound.asks;
}
  where
    still :
        (s : ReceiveStorage) (permit : Option Bool)
        → Fits s permit
        → Fits s (elim permit [ none ↦ none | some held ↦ some (held && not dropped) ])
    still (portable input) permit fits = tt
    still (managed buffer start stop) none (le, within, free) = absurd (cc)
    still (managed buffer start stop) (some false) (le, within, free) = (le, within, refl)
    still (managed buffer start stop) (some true) (le, within, free) = absurd (cc)

pub drop_lease-bytes : (dropped : Bool) (b : RecvBuffer) → bytes (drop_lease dropped b) ≡ bytes b
unfolding drop_lease bytes
drop_lease-bytes dropped b = refl

module _ (error_of : IoError → Error) (by_lease : Bool) where
  policy-Appends :
      (r : Round) (b : RecvBuffer) → IsSound b → Appends b (policy_read error_of by_lease r b)
  unfolding policy_read
  policy-Appends r b sound = elim (Bool-cases by_lease) [
    | inl managed_input ↦
        rw managed_input (read_managed-Appends error_of r.cancel_read r.answer r.lease b sound)
    | inr portable_input ↦ rw portable_input (read-Appends error_of r.cancel_read r.answer b sound)
  ]

  timed-Tells :
      (elapsed : Bool) (status : Result Error ReadStatus) (arrived : Bytes)
      → Tells status arrived
      → Tells (timed error_of by_lease elapsed status) arrived
  unfolding timed
  timed-Tells false status arrived tells = tells
  timed-Tells true (ok status) arrived tells = tt
  timed-Tells true (err e) arrived tells = ground arith

  in_body-Tells :
      (status : Result Error ReadStatus) (arrived : Bytes)
      → Tells status arrived
      → Tells (in_body error_of by_lease status) arrived
  unfolding in_body
  in_body-Tells (ok status) arrived tells = tells
  in_body-Tells (err e) arrived tells = ground arith

  pub read_until-Appends :
      (r : Round) (b : RecvBuffer) → IsSound b → Appends b (read_until error_of by_lease r b)
  unfolding read_until
  read_until-Appends r b sound =
      let (arrived, appended, tells, kept) = policy-Appends r b sound in
      (arrived, appended, timed-Tells r.elapsed _ arrived tells, kept)

  by-Appends :
      (no_deadline : Option Error) (r : Round) (b : RecvBuffer)
      → IsSound b
      → Appends b (read_by error_of by_lease no_deadline r b)
  unfolding read_by
  by-Appends (some e) r b sound = ([], sym (append-nil (bytes b)), tt, sound)
  by-Appends none r b sound =
      let (arrived, appended, tells, kept) = read_until-Appends r b sound in
      (arrived, appended, in_body-Tells _ arrived tells, kept)

  pub read_or_abandoned-Appends :
      (r : Round) (b : RecvBuffer) → IsSound b → Appends b (read_or_abandoned error_of by_lease r b)
  unfolding read_or_abandoned
  read_or_abandoned-Appends r b sound = by-Appends r.no_deadline r b sound
