-- ===== src/BodyIo/Transmit.antt =====
-- src/proto/h1/body_io.rs: `send_body`, which writes the frames of a body.
use vakya.Prelude.{
  ℕ, ◌+◌, min, Bool, true, false, not, ◌&&◌, ◌||◌, Option, none, some, List, [], ◌∷◌, ◌++◌, ◌==◌,
  if◌then◌else◌, length, Bytes, u64_max, Result, ok, err,
}
use vakya.Http.{Http}
use vakya.Encode.{EncodeError}
use vakya.Encode.Stream.{BodyEncoder, DataFraming, data_frame, finish}
use vakya.Encode.Fields.{send_trailers}
use vakya.Io.{IoError}
use vakya.Io.Send.{Attempt, Written, write_framed, write_all}

pub record SendStats : Type 0 where
  pub wire_bytes : ℕ
  pub data_frames : ℕ
  pub trailer_frames : ℕ

abbrev pub no_stats : SendStats
no_stats = record { wire_bytes = 0; data_frames = 0; trailer_frames = 0 }

pub data SendBodyError {ℓ} (E : Type ℓ) : Type ℓ where
  body_failed : E → SendBodyError E
  encode_failed : EncodeError → SendBodyError E
  io_failed : IoError → SendBodyError E
  canceled : SendBodyError E

-- `Frame`, by its kind.
pub data Frame (H : Type 0) : Type 0 where
  data_of : Bytes → Frame H
  trailers_of : H → Frame H

-- What a wait for the next frame gives; `dropped` where the token asks for cancellation first.
pub data Produced {ℓ} (H : Type 0) (E : Type ℓ) : Type ℓ where
  yielded : Frame H → Produced H E
  ended dropped : Produced H E
  failed : E → Produced H E

-- One wait for a frame: whether the producer was pending at first, and then what a flush of the
-- writer reports, where there is one.
pub record Turn {ℓ} (H : Type 0) (E : Type ℓ) : Type ℓ where
  pub pended : Bool
  pub flushed : Result IoError (Unit {0})
  pub produced : Produced H E

-- A transmission, with what it put on the wire; it is pending without a result.
pub record Transmitted {ℓ} (E : Type ℓ) : Type ℓ where
  pub wire : Bytes
  pub encoder : BodyEncoder
  pub result : Option (Result (SendBodyError E) SendStats)

-- `saturating_add`
abbrev pub saturating_add : ℕ → ℕ → ℕ
saturating_add a b = min (a + b) u64_max

unfoldable pub count_data : (written : ℕ) → SendStats → SendStats
count_data written stats = record stats {
  wire_bytes = saturating_add stats.wire_bytes written;
  data_frames = saturating_add stats.data_frames 1;
}

unfoldable pub count_trailers : (written : ℕ) → SendStats → SendStats
count_trailers written stats = record stats {
  wire_bytes = saturating_add stats.wire_bytes written;
  trailer_frames = saturating_add stats.trailer_frames 1;
}

unfoldable pub count_end : (written : ℕ) → SendStats → SendStats
count_end written stats = record stats { wire_bytes = saturating_add stats.wire_bytes written }

-- The state of the loop.
pub record Loop : Type 0 where
  pub encoder : BodyEncoder
  pub trailers_sent : Bool
  pub pending_output : Bool
  pub stats : SendStats

unfoldable pub after_data : Loop → BodyEncoder → (written : ℕ) → Loop
unfolding count_data
after_data l e written = record l {
  encoder = e;
  pending_output = l.pending_output || not (written == 0);
  stats = count_data written l.stats;
}

unfoldable pub after_trailers : Loop → BodyEncoder → (written : ℕ) → Loop
unfolding count_trailers
after_trailers l e written = record l {
  encoder = e;
  trailers_sent = true;
  pending_output = l.pending_output || not (written == 0);
  stats = count_trailers written l.stats;
}

module _ {ℓ} {E : Type ℓ} where
  abbrev pub stop : BodyEncoder → SendBodyError E → Transmitted E
  stop e error = record { wire = []; encoder = e; result = some (err error) }

  abbrev pub after_wire : Bytes → Transmitted E → Transmitted E
  after_wire wire t = record t { wire = wire ++ t.wire }

  -- After a write: its error ends the transmission, and else the rest follows.
  unfoldable pub wrote :
      BodyEncoder → (wire : Bytes) → Option (Result IoError ℕ) → (ℕ → Transmitted E) → Transmitted E
  wrote e wire none rest = record { wire = wire; encoder = e; result = none }
  wrote e wire (some (err error)) rest = after_wire wire (stop e (io_failed error))
  wrote e wire (some (ok written)) rest = after_wire wire (rest written)

  unfoldable pub after_write :
      BodyEncoder → Written → (ℕ → List Attempt → Transmitted E) → Transmitted E
  unfolding wrote
  after_write e w rest = wrote e w.wire w.result (λ written. rest written w.left)

  -- The flush of what was written, where the producer is pending.
  unfoldable pub flushed_then :
      Loop → Result IoError (Unit {0}) → (Loop → Transmitted E) → Transmitted E
  flushed_then l (err error) rest = stop l.encoder (io_failed error)
  flushed_then l (ok u) rest = rest (record l { pending_output = false })

  unfoldable pub flush :
      (pended : Bool) → Result IoError (Unit {0}) → Loop → (Loop → Transmitted E) → Transmitted E
  unfolding flushed_then
  flush pended flushed l rest =
      if pended && l.pending_output then flushed_then l flushed rest else rest l

  unfoldable pub send_data :
      Loop
      → Bytes
      → List Attempt
      → (Loop → List Attempt → Transmitted E)
      → BodyEncoder × Result EncodeError DataFraming
      → Transmitted E
  unfolding after_write after_data write_framed
  send_data l frame attempts rest (e, err error) = stop e (encode_failed error)
  send_data l frame attempts rest (e, ok framing) =
      after_write e (write_framed attempts framing.prefix frame framing.suffix)
        (λ written left. rest (after_data l e written) left)

  unfoldable pub send_fields :
      Loop
      → List Attempt
      → (Loop → List Attempt → Transmitted E)
      → BodyEncoder × Result EncodeError Bytes
      → Transmitted E
  unfolding after_write after_trailers write_all
  send_fields l attempts rest (e, err error) = stop e (encode_failed error)
  send_fields l attempts rest (e, ok bytes) =
      after_write e (write_all attempts bytes)
        (λ written left. rest (after_trailers l e written) left)

  -- The end of a body without trailers.
  unfoldable pub send_end :
      Loop → List Attempt → BodyEncoder × Result EncodeError Bytes → Transmitted E
  unfolding after_write count_end write_all
  send_end l attempts (e, err error) = stop e (encode_failed error)
  send_end l attempts (e, ok bytes) = after_write e (write_all attempts bytes) (λ written left.
      record { wire = []; encoder = e; result = some (ok (count_end written l.stats)) })

  unfoldable pub send_ended : (trailers_sent : Bool) → Loop → List Attempt → Transmitted E
  unfolding send_end finish
  send_ended true l attempts = record { wire = []; encoder = l.encoder; result = some (ok l.stats) }
  send_ended false l attempts = send_end l attempts (finish l.encoder)

  module _ (http : Http) where
    unfoldable pub send_next :
        Produced http.HeaderMap E
        → Loop
        → List Attempt
        → (Loop → List Attempt → Transmitted E)
        → Transmitted E
    unfolding send_data send_fields send_ended data_frame
    send_next (yielded (data_of frame)) l attempts rest =
        send_data l frame attempts rest (data_frame l.encoder (length frame))
    send_next (yielded (trailers_of fields)) l attempts rest =
        send_fields l attempts rest (send_trailers http l.encoder fields)
    send_next ended l attempts rest = send_ended l.trailers_sent l attempts
    send_next dropped l attempts rest = stop l.encoder canceled
    send_next (failed error) l attempts rest = stop l.encoder (body_failed error)

    unfoldable pub send_loop : List (Turn http.HeaderMap E) → Loop → List Attempt → Transmitted E
    unfolding flush send_next
    send_loop [] l attempts = record { wire = []; encoder = l.encoder; result = none }
    send_loop (turn ∷ turns) l attempts =
        flush turn.pended turn.flushed l (λ l. send_next turn.produced l attempts (send_loop turns))

    unfoldable pub send_body :
        List (Turn http.HeaderMap E) → BodyEncoder → List Attempt → Transmitted E
    unfolding send_loop
    send_body turns e attempts =
        send_loop turns
          (record { encoder = e; trailers_sent = false; pending_output = true; stats = no_stats })
          attempts
