-- ===== src/BodyIo/Work.antt =====
-- What is left to do of a reception, and how a read and an offer lessen it.
use vakya.Prelude.{
  appended_drop, ℕ, suc, ◌+◌, ◌*◌, ◌≤◌, ◌≡◌, ap, ◌∙◌, Bool, true, false, none, arith, if◌then◌else◌,
  length, drop, length-append, Bytes, Result, ok, err,
}
use vakya.Message.{Error}
use vakya.Chunk.{DecodeError}
use vakya.Decode.Input.{DecoderState, is_complete}
use vakya.Io.{IoError}
use vakya.Io.Recv.{RecvBuffer, bytes, ReadStatus, received, at_eof}
use vakya.Io.Retained.{IsSound}
use vakya.Io.Reading.{Tells}
use vakya.BodyIo.Transmit.{Frame}
use vakya.BodyIo.Receive.{read_or_abandoned, after_read, unless_abandoned, read_more, offer_frame}
use vakya.BodyIo.Rounds.{
  Round, Received, Receiving, with_arrived, Offered, accepted, refused, closed, canceled,
}
use vakya.BodyIo.Arrives.{read_or_abandoned-Appends}
use vakya.Decode.Progress.{Busy}

-- What is left to do in a state of the loop: the input that is there, the end of the input, and
-- the end of the body.
unfoldable pub open_input : (eof : Bool) → ℕ
open_input true = 0
open_input false = 1

pub open_input-le : (eof : Bool) → open_input eof ≤ 1
unfolding open_input
open_input-le true = omega arith
open_input-le false = omega arith

abbrev pub body_left : DecoderState → ℕ
body_left state = if is_complete state then 0 else 1

pub body_left-le : (state : DecoderState) → body_left state ≤ 1
body_left-le state = ground arith

abbrev pub work : Receiving → ℕ
work s = length (bytes s.buffer) + open_input s.eof + body_left s.decoder.state

-- A reception that is pending after `k` rounds, with `m` to do at first.
abbrev pub Bounded : {H : Type 0} (k m : ℕ) → Received H → Type 0
Bounded k m t = t.ended ≡ none → k ≤ m + 2 * length t.arrived

pub arrived-Bounded :
    {H : Type 0} (k k' m m' : ℕ) (more : Bytes) (t : Received H)
    → Bounded k m t
    → k' + m ≤ k + m' + 2 * length more
    → Bounded k' m' (with_arrived more t)
arrived-Bounded k k' m m' more t bounded le h =
    omega (arith, bounded h, length-append more t.arrived)

pub more-Bounded :
    {H : Type 0} (k k' m m' : ℕ) (t : Received H)
    → Bounded k m t
    → k' + m ≤ k + m'
    → Bounded k' m' t
more-Bounded k k' m m' t bounded le h = omega (arith, bounded h)

module _ (error_of : IoError → Error) (by_lease : Bool) {H : Type 0}
    (parse_trailers : ℕ → Bytes → Result DecodeError (ℕ × H)) (k : ℕ) where
  -- What `k` rounds behind a round promise.
  abbrev pub Promises : (Receiving → Received H) → Type 0
  Promises rest =
      (s : Receiving) → IsSound s.buffer → Busy s.decoder.state → Bounded k (work s) (rest s)

  read-Bounded :
      (s : Receiving) (b : RecvBuffer) (before : ℕ) (arrived : Bytes) (abandoned : Bool)
      (result : Result Error ReadStatus) (rest : Receiving → Received H)
      → Tells result arrived
      → length (bytes b) ≡ before + length arrived
      → s.eof ≡ false
      → IsSound b
      → Busy s.decoder.state
      → Promises rest
      → Bounded (suc k) (before + 2) (
          with_arrived arrived
            (unless_abandoned error_of by_lease parse_trailers abandoned s b result rest))
  unfolding unless_abandoned after_read open_input
  read-Bounded s b before arrived true result rest tells size more sound busy good =
      λ h. absurd (cc)
  read-Bounded s b before arrived false (err e) rest tells size more sound busy good =
      λ h. absurd (cc)
  read-Bounded s b before arrived false (ok at_eof) rest tells size more sound busy good =
      arrived-Bounded k (suc k) _ (before + 2) arrived (rest (record s { buffer = b; eof = true }))
        (good (record s { buffer = b; eof = true }) sound busy)
        (omega (arith, body_left-le s.decoder.state, size, ap length tells))
  read-Bounded s b before arrived false (ok (received count)) rest (came, some_came) size more sound
        busy good =
      arrived-Bounded k (suc k) _ (before + 2) arrived (rest (record s { buffer = b }))
        (good (record s { buffer = b }) sound busy)
        (omega (arith, body_left-le s.decoder.state, open_input-le s.eof, size, came, some_came))

  pub answered-Bounded :
      (r : Round) (s : Receiving) (b : RecvBuffer) (rest : Receiving → Received H)
      → s.eof ≡ false
      → IsSound b
      → Busy s.decoder.state
      → Promises rest
      → Bounded
          (suc k)
          (length (bytes b) + 2)
          (read_more error_of by_lease parse_trailers r s b rest)
  unfolding read_more
  answered-Bounded r s b rest more sound busy good =
      let result = read_or_abandoned error_of by_lease r b in
      let (arrived, appended, tells, kept) =
        read_or_abandoned-Appends error_of by_lease r b sound in
      let same : drop (length (bytes b)) (bytes result.0) ≡ arrived =
        appended_drop (bytes b) arrived (bytes result.0) appended in
      rw same (
        read-Bounded s result.0 (length (bytes b)) arrived r.abandoned result.1 rest tells
          (ap length appended ∙ length-append (bytes b) arrived) more kept busy good)

  pub offered-Bounded :
      (s : Receiving) (b : RecvBuffer) (f : Frame H) (offered : Offered)
      (rest : Receiving → Received H) (m : ℕ)
      → IsSound b
      → Busy s.decoder.state
      → Promises rest
      → suc (length (bytes b) + open_input s.eof + body_left s.decoder.state) ≤ m
      → Bounded (suc k) m (offer_frame error_of by_lease parse_trailers s b f offered rest)
  unfolding offer_frame
  offered-Bounded s b f accepted rest m sound busy good le =
      more-Bounded k (suc k) _ m (rest (record s { buffer = b }))
        (good (record s { buffer = b }) sound busy) (omega arith)
  offered-Bounded s b f refused rest m sound busy good le = λ h. absurd (cc)
  offered-Bounded s b f closed rest m sound busy good le = λ h. absurd (cc)
  offered-Bounded s b f canceled rest m sound busy good le = λ h. absurd (cc)
