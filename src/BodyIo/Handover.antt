-- ===== src/BodyIo/Handover.antt =====
-- What a read and an offer do for a reception.
use vakya.Prelude.{
  appended_drop, ℕ, ◌≡◌, refl, sym, Bool, true, false, ◌++◌, length, drop, Bytes, Result, ok, err,
}
use vakya.Message.{Error}
use vakya.Chunk.{DecodeError}
use vakya.Decode.Grammar.{Rest}
use vakya.Io.{IoError}
use vakya.Io.Recv.{RecvBuffer, bytes, ReadStatus, received, at_eof}
use vakya.Io.Retained.{IsSound}
use vakya.BodyIo.Transmit.{Frame}
use vakya.BodyIo.Receive.{read_or_abandoned, after_read, unless_abandoned, read_more, offer_frame}
use vakya.BodyIo.Rounds.{
  Round, abandoned_end, failed, Received, Receiving, Offered, accepted, refused, closed, canceled,
}
use vakya.BodyIo.Arrives.{
  frame_body, Arrives, stopped-Arrives, frame-Arrives, arrived-Arrives, weaker-Arrives,
  read_or_abandoned-Appends,
}

module _ (error_of : IoError → Error) (by_lease : Bool) where
  module _ {H : Type 0} (parse_trailers : ℕ → Bytes → Result DecodeError (ℕ × H)) (n : ℕ) where
    -- What a reception from a state of the loop on promises.
    abbrev pub At : Receiving → Received H → Type 0
    At s t = Arrives (Rest parse_trailers n s.decoder.state) (bytes s.buffer) t

    -- What the rounds behind a round promise.
    abbrev pub Promises : (Receiving → Received H) → Type 0
    Promises rest =
        (s : Receiving) → IsSound s.buffer → s.decoder.limits.max_trailers ≡ n → At s (rest s)

    read-Arrives :
        (s : Receiving) (b : RecvBuffer) (result : Result Error ReadStatus)
        (rest : Receiving → Received H)
        → IsSound b
        → s.decoder.limits.max_trailers ≡ n
        → Promises rest
        → Arrives
            (Rest parse_trailers n s.decoder.state)
            (bytes b)
            (after_read error_of by_lease parse_trailers s b result rest)
    unfolding after_read
    read-Arrives s b (err e) rest sound limits good =
        stopped-Arrives (bytes b) b (failed e) tt sound
    read-Arrives s b (ok at_eof) rest sound limits good =
        good (record s { buffer = b; eof = true }) sound limits
    read-Arrives s b (ok (received k)) rest sound limits good =
        good (record s { buffer = b }) sound limits

    kept-Arrives :
        (abandoned : Bool) (s : Receiving) (b : RecvBuffer) (result : Result Error ReadStatus)
        (rest : Receiving → Received H)
        → IsSound b
        → s.decoder.limits.max_trailers ≡ n
        → Promises rest
        → Arrives
            (Rest parse_trailers n s.decoder.state)
            (bytes b)
            (unless_abandoned error_of by_lease parse_trailers abandoned s b result rest)
    unfolding unless_abandoned
    kept-Arrives true s b result rest sound limits good =
        stopped-Arrives (bytes b) b abandoned_end tt sound
    kept-Arrives false s b result rest sound limits good =
        read-Arrives s b result rest sound limits good

    pub more-Arrives :
        (r : Round) (s : Receiving) (b : RecvBuffer) (rest : Receiving → Received H)
        → IsSound b
        → s.decoder.limits.max_trailers ≡ n
        → Promises rest
        → Arrives
            (Rest parse_trailers n s.decoder.state)
            (bytes b)
            (read_more error_of by_lease parse_trailers r s b rest)
    unfolding read_more
    more-Arrives r s b rest sound limits good =
        let result = read_or_abandoned error_of by_lease r b in
        let (arrived, appended, tells, kept) =
          read_or_abandoned-Appends error_of by_lease r b sound in
        let same : drop (length (bytes b)) (bytes result.0) ≡ arrived =
          appended_drop (bytes b) arrived (bytes result.0) appended in
        arrived-Arrives (bytes b) (drop (length (bytes b)) (bytes result.0)) _ (
          rw (same, sym appended)
            (kept-Arrives r.abandoned s result.0 result.1 rest kept limits good))

    pub offered-Arrives :
        (s : Receiving) (b : RecvBuffer) (f : Frame H) (offered : Offered)
        (rest : Receiving → Received H)
        → IsSound b
        → s.decoder.limits.max_trailers ≡ n
        → Promises rest
        → Arrives
            (λ wire body.
              (tail : Bytes) × (body ≡ frame_body f ++ tail)
              × Rest parse_trailers n s.decoder.state wire tail)
            (bytes b)
            (offer_frame error_of by_lease parse_trailers s b f offered rest)
    unfolding offer_frame
    offered-Arrives s b f accepted rest sound limits good =
        frame-Arrives (bytes b) f (rest (record s { buffer = b })) (
          weaker-Arrives (bytes b) (rest (record s { buffer = b })) (λ wire body h. (body, refl, h))
            (good (record s { buffer = b }) sound limits))
    offered-Arrives s b f refused rest sound limits good =
        stopped-Arrives (bytes b) b abandoned_end tt sound
    offered-Arrives s b f closed rest sound limits good =
        stopped-Arrives (bytes b) b (failed _) tt sound
    offered-Arrives s b f canceled rest sound limits good =
        stopped-Arrives (bytes b) b (failed _) tt sound
