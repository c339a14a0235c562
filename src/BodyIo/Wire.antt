-- ===== src/BodyIo/Wire.antt =====
-- What a transmission puts on the wire.
use vakya.Prelude.{
  ◌≤◌, min, ◌≡◌, refl, ◌∙◌, Bool, true, false, Option, some, List, [], ◌∷◌, append-nil, arith,
  length, Bytes, u64_max, Result, ok, err,
}
use vakya.Http.{Http}
use vakya.Encode.{EncodeError}
use vakya.Encode.Stream.{BodyEncoder, data_frame, finish}
use vakya.Encode.Fields.{send_trailers}
use vakya.Io.Send.{Attempt, write_all}
use vakya.Io.Written.{write_all-Delivers}
use vakya.BodyIo.Transmit.{
  SendStats, no_stats, SendBodyError, Frame, data_of, trailers_of, Produced, yielded, ended,
  dropped, failed, Turn, Transmitted, count_end, Loop, send_end, send_ended, send_next, send_loop,
  send_body,
}
use vakya.BodyIo.Framed.{
  frames_from, frames_of, encode_frames, Wrote, flush-ok, write-Wrote, data-Wrote, trailers-Wrote,
}

module _ (http : Http) where
  module _ {ℓ} {E : Type ℓ} where
    ended-inj :
        (a b : SendStats)
        → ◌≡◌ {A = Option (Result (SendBodyError E) SendStats)} (some (ok a)) (some (ok b))
        → a ≡ b
    ended-inj a b h = cc

    -- The end of a body.
    end-Wrote :
        (l : Loop) (attempts : List Attempt) (stats : SendStats)
        (r : BodyEncoder × Result EncodeError Bytes)
        → l.trailers_sent ≡ false
        → finish l.encoder ≡ r
        → (send_end {E = E} l attempts r).result ≡ some (ok stats)
        → Wrote http l (some []) (send_end {E = E} l attempts r).wire stats
    unfolding send_end count_end encode_frames
    end-Wrote l attempts stats (e, err error) unsent step h = absurd (cc)
    end-Wrote l attempts stats (e, ok bytes) unsent step h =
        let w = write_all attempts bytes in
        let (written, count, went, wire) =
          write-Wrote http e w bytes
            (λ written left. record {
              wire = [];
              encoder = e;
              result = some (ok (count_end written l.stats));
            })
            stats (write_all-Delivers attempts bytes) h in
        let same : count_end written l.stats ≡ stats =
          ended-inj (count_end written l.stats) stats went in
        let whole : (send_end {E = E} l attempts (e, ok bytes)).wire ≡ bytes =
          wire ∙ append-nil bytes in
        ([], refl, rw (unsent, step, whole) refl, rw (whole, ← same) (omega (arith, count)))

    ended-Wrote :
        (l : Loop) (attempts : List Attempt) (stats : SendStats) (sent : Bool)
        → l.trailers_sent ≡ sent
        → l.stats.wire_bytes ≤ u64_max
        → (send_ended {E = E} sent l attempts).result ≡ some (ok stats)
        → Wrote http l (some []) (send_ended {E = E} sent l attempts).wire stats
    unfolding send_ended encode_frames
    ended-Wrote l attempts stats true sent fits h =
        let same = ended-inj l.stats stats h in
        ([], refl, rw sent refl, rw (← same) (omega (arith, fits)))
    ended-Wrote l attempts stats false unsent fits h =
        end-Wrote l attempts stats (finish l.encoder) unsent refl h

    next-Wrote :
        (produced : Produced http.HeaderMap E) (l : Loop) (attempts : List Attempt)
        (rest : Loop → List Attempt → Transmitted E) (frames : Option (List (Frame http.HeaderMap)))
        (stats : SendStats)
        → ((next : Loop) (left : List Attempt)
            → next.stats.wire_bytes ≤ u64_max
            → (rest next left).result ≡ some (ok stats)
            → Wrote http next frames (rest next left).wire stats)
        → l.stats.wire_bytes ≤ u64_max
        → (send_next http produced l attempts rest).result ≡ some (ok stats)
        → Wrote http l
            (frames_from produced frames)
            (send_next http produced l attempts rest).wire
            stats
    unfolding send_next encode_frames
    next-Wrote (yielded (data_of f)) l attempts rest frames stats after fits h =
        data-Wrote http l f attempts rest frames stats (data_frame l.encoder (length f)) refl after
          h
    next-Wrote (yielded (trailers_of fields)) l attempts rest frames stats after fits h =
        trailers-Wrote http l fields attempts rest frames stats
          (send_trailers http l.encoder fields) refl after h
    next-Wrote ended l attempts rest frames stats after fits h =
        ended-Wrote l attempts stats l.trailers_sent refl fits h
    next-Wrote dropped l attempts rest frames stats after fits h = absurd (cc)
    next-Wrote (failed error) l attempts rest frames stats after fits h = absurd (cc)

    loop-Wrote :
        (turns : List (Turn http.HeaderMap E)) (l : Loop) (attempts : List Attempt)
        (stats : SendStats)
        → l.stats.wire_bytes ≤ u64_max
        → (send_loop http turns l attempts).result ≡ some (ok stats)
        → Wrote http l (frames_of turns) (send_loop http turns l attempts).wire stats
    unfolding send_loop
    loop-Wrote [] l attempts stats fits h = absurd (cc)
    loop-Wrote (turn ∷ turns) l attempts stats fits h =
        let (still, went, wire) =
          flush-ok http turn.pended turn.flushed l
            (λ l. send_next http turn.produced l attempts (send_loop http turns)) stats h in
        rw wire (
          next-Wrote turn.produced (record l { pending_output = still }) attempts
            (send_loop http turns) (frames_of turns) stats
            (λ next left within. loop-Wrote turns next left stats within) fits went)

    -- A transmission that went well, whatever waits, flushes and rounds of writes it took: the
    -- producer yielded some frames and then its end, the wire got exactly the encoding of these
    -- frames and of the end, and the bytes that are counted are those, up to 2^64 - 1.
    pub send_body-Wrote :
        (turns : List (Turn http.HeaderMap E)) (e : BodyEncoder) (attempts : List Attempt)
        (stats : SendStats)
        → (send_body http turns e attempts).result ≡ some (ok stats)
        → (fs : List (Frame http.HeaderMap)) × (frames_of turns ≡ some fs)
          × (encode_frames http false e fs ≡ ok (send_body http turns e attempts).wire)
          × (stats.wire_bytes ≡ min (length (send_body http turns e attempts).wire) u64_max)
    unfolding send_body
    send_body-Wrote turns e attempts stats h =
        let (fs, listed, encoded, total) =
          loop-Wrote turns
            (record { encoder = e; trailers_sent = false; pending_output = true; stats = no_stats })
            attempts stats (omega arith) h in
        (fs, listed, encoded, omega (arith, total))
