-- ===== src/Tests/Transport.antt =====
-- The transport: writes, the receive buffer, and bodies that are received and sent.
use vakya.Prelude.{
  ◌+◌, ◌*◌, ◌≤◌, min, ◌≡◌, refl, ◌≢◌, true, false, none, some, List, [], ◌∷◌, ◌++◌, arith, length,
  Bytes, u64_max, ok, err,
}
use vakya.Message.{plain_error, Error, io, fixed, chunked}
use vakya.Decode.Input.{initial_state, with_limits, is_complete, count_within}
use vakya.Decode.{decode, decode_in, decode_fixed}
use vakya.Decode.Grammar.{Rest}
use vakya.Io.{IoError, interrupted}
use vakya.Io.Send.{Attempt, write_framed}
use vakya.Io.Recv.{RecvBuffer, portable, managed, bytes, ReadAnswer, read_managed, take_payload}
use vakya.Io.Retained.{IsSound}
use vakya.Io.Payload.{Takes, take_payload-Takes}
use vakya.Io.Reading.{Appends, read_managed-Appends}
use vakya.BodyIo.Transmit.{data_of}
use vakya.BodyIo.Rounds.{Round, wanted, accepted, Received, completed, panicked}
use vakya.BodyIo.Receive.{receive_body}
use vakya.BodyIo.Arrives.{body_of}
use vakya.BodyIo.Arrival.{receive_body-IsSound, receive_body-Arrives}
use vakya.BodyIo.Ending.{receive_body-Ends}
use vakya.Encode.ReadBack.{Reads}
use vakya.Io.Written.{Delivers, write_framed-Delivers}
use vakya.BodyIo.Transmit.{SendStats, Frame, yielded, ended, Turn, send_body}
use vakya.BodyIo.Framed.{frames_of, encode_frames}
use vakya.BodyIo.Wire.{send_body-Wrote}
use vakya.BodyIo.Delivery.{send_body-Reads}
use vakya.Tests.Heads.{plain_http}
use vakya.Tests.Bodies.{limits, encoder, any_size, config, made}
use vakya.Tests.Parser.{no_fields, no_fields-within, no_fields-empty}

abbrev letters : Bytes
letters = b'a' ∷ b'b' ∷ b'c' ∷ b'G' ∷ []

abbrev pub as_error : IoError → Error
as_error e = plain_error io

-- An empty buffer that asks for 16 bytes at a time and keeps 32.
abbrev pub buffer : RecvBuffer
buffer = record { storage = portable []; permit = none; preferred_read = 16; max_retained = 32 }

pub buffer-IsSound : IsSound buffer
unfolding bytes vakya.Io.Recv.storage_bytes
buffer-IsSound = record {
  fits = tt;
  bounded = omega arith;
  ordered = omega arith;
  asks = omega arith;
}

abbrev short_read : ReadAnswer
short_read = record { report = ok 4; appended = letters }

read_managed-Appends_example :
    Appends buffer (read_managed as_error false short_read (ok (some letters)) buffer)
read_managed-Appends_example =
    read_managed-Appends as_error false short_read (ok (some letters)) buffer buffer-IsSound

-- A buffer of the pool that is lent to the body.
abbrev lent : RecvBuffer
lent = record {
  storage = managed letters 0 4;
  permit = some false;
  preferred_read = 16;
  max_retained = 32;
}

lent-IsSound : IsSound lent
unfolding bytes vakya.Io.Recv.storage_bytes
lent-IsSound = record {
  fits = (omega arith, omega arith, refl);
  bounded = omega arith;
  ordered = omega arith;
  asks = omega arith;
}

inside : 3 ≤ length (bytes lent)
unfolding bytes vakya.Io.Recv.storage_bytes
inside = omega arith

take_payload-Takes_example : Takes lent 0 3 3 (take_payload 0 3 3 lent)
take_payload-Takes_example =
    take_payload-Takes lent 0 3 3 lent-IsSound (omega arith) (omega arith) inside

-- A round in which all goes well.
abbrev pub round : Round
round = record {
  demanded = wanted;
  lease_dropped = false;
  drain_set = none;
  no_deadline = none;
  cancel_read = false;
  answer = short_read;
  lease = ok (some letters);
  elapsed = false;
  abandoned = false;
  offered = accepted;
}

receive_body-IsSound_example :
    ((receive_body as_error true no_fields (round ∷ []) buffer (with_limits chunked limits)).ended
      ≢ some panicked)
    × IsSound
        (receive_body as_error true no_fields
          (round ∷ [])
          buffer
          (with_limits chunked limits)).buffer
receive_body-IsSound_example =
    receive_body-IsSound as_error true no_fields no_fields-within (round ∷ []) buffer
      (with_limits chunked limits) buffer-IsSound

-- The body arrives with a byte behind it.
abbrev whole : Received Unit
whole = record {
  ended = some completed;
  buffer = record {
    storage = portable (b'G' ∷ []);
    permit = some true;
    preferred_read = 16;
    max_retained = 32;
  };
  delivered = data_of (b'a' ∷ b'b' ∷ b'c' ∷ []) ∷ [];
  arrived = letters;
}

abbrev rounds : List Round
rounds = round ∷ round ∷ round ∷ []

received_whole :
    receive_body as_error true no_fields rounds buffer (with_limits (fixed 3) limits) ≡ whole
unfolding receive_body with_limits decode decode_in decode_fixed is_complete count_within
    initial_state bytes vakya.Io.Recv.storage_bytes take_payload read_managed
received_whole = refl

receive_body-Arrives_example :
    (taken : Bytes) × (bytes buffer ++ letters ≡ taken ++ bytes whole.buffer)
    × Rest no_fields 4 (initial_state (fixed 3)) taken (body_of whole.delivered)
receive_body-Arrives_example =
    receive_body-Arrives as_error true no_fields no_fields-within rounds (fixed 3) limits buffer
      whole buffer-IsSound received_whole refl

-- The first round reads and the second hands the payload over, which is all that is there.
abbrev part : Received Unit
part =
    receive_body as_error true no_fields (round ∷ round ∷ []) buffer (with_limits (fixed 9) limits)

part_received : part.ended ≡ none
unfolding receive_body with_limits decode decode_in decode_fixed is_complete count_within
    initial_state bytes vakya.Io.Recv.storage_bytes take_payload read_managed
part_received = refl

receive_body-Ends_example :
    length (round ∷ round ∷ []) ≤ length (bytes buffer) + 2 + 2 * length part.arrived
receive_body-Ends_example =
    receive_body-Ends as_error true no_fields no_fields-within (round ∷ round ∷ []) (fixed 9) limits
      buffer buffer-IsSound part_received

-- A frame, in two writes with an interrupted one between them, and the end of the body.
abbrev letters_of_body : Bytes
letters_of_body = b'a' ∷ b'b' ∷ b'c' ∷ []

abbrev attempts : List Attempt
attempts =
    record { canceled = false; report = ok 2; moved = 0 }
    ∷ record { canceled = false; report = err interrupted; moved = 0 }
    ∷ record { canceled = false; report = ok 6; moved = 0 }
    ∷ record { canceled = false; report = ok 5; moved = 0 }
    ∷ []

abbrev turns : List (Turn (plain_http.HeaderMap) (Unit {0}))
turns =
    record { pended = true; flushed = ok tt; produced = yielded (data_of letters_of_body) }
    ∷ record { pended = false; flushed = ok tt; produced = ended }
    ∷ []

abbrev stats : SendStats
stats = record { wire_bytes = 13; data_frames = 1; trailer_frames = 0 }

sent : (send_body plain_http turns encoder attempts).result ≡ some (ok stats)
unfolding send_body
sent = refl

write_framed-Delivers_example :
    Delivers 0
      (b'a' ∷ b'b' ∷ b'c' ∷ [])
      (write_framed attempts (b'a' ∷ []) (b'b' ∷ []) (b'c' ∷ [])).wire
      (write_framed attempts (b'a' ∷ []) (b'b' ∷ []) (b'c' ∷ [])).result
write_framed-Delivers_example = write_framed-Delivers attempts (b'a' ∷ []) (b'b' ∷ []) (b'c' ∷ [])

send_body-Wrote_example :
    (fs : List (Frame plain_http.HeaderMap)) × (frames_of turns ≡ some fs)
    × (encode_frames plain_http false encoder fs
        ≡ ok (send_body plain_http turns encoder attempts).wire)
    × (stats.wire_bytes ≡ min (length (send_body plain_http turns encoder attempts).wire) u64_max)
send_body-Wrote_example = send_body-Wrote plain_http turns encoder attempts stats sent

send_body-Reads_example :
    Reads no_fields tt no_fields-empty
      (with_limits chunked limits)
      (send_body plain_http turns encoder attempts).wire
      letters_of_body
send_body-Reads_example =
    send_body-Reads plain_http no_fields tt no_fields-empty any_size config encoder limits turns
      attempts stats (letters_of_body ∷ []) made (omega arith) (omega arith) (omega arith, tt) refl
      sent
