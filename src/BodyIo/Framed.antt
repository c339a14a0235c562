-- ===== src/BodyIo/Framed.antt =====
-- What a write of a frame puts on the wire.
use vakya.Prelude.{
  ℕ, ◌+◌, ◌≤◌, ◌≡◌, refl, sym, ap, ◌∙◌, inl, inr, Bool, true, false, ◌&&◌, Option, none, some, List,
  [], ◌∷◌, ◌++◌, append_assoc, arith, if◌then◌else◌, Bool-cases, length, length-append, Bytes,
  u64_max, Result, ok, err, ◌>>=◌,
}
use vakya.Http.{Http}
use vakya.Encode.{EncodeError}
use vakya.Encode.Stream.{BodyEncoder, DataFraming, data_frame, finish}
use vakya.Encode.Fields.{send_trailers}
use vakya.Io.{IoError}
use vakya.Io.Send.{Attempt, Written, write_framed, write_all}
use vakya.Io.Written.{Delivers, write_framed-Delivers, write_all-Delivers}
use vakya.BodyIo.Transmit.{
  SendStats, Frame, data_of, trailers_of, Produced, yielded, ended, dropped, failed, Turn,
  Transmitted, saturating_add, count_data, count_trailers, Loop, wrote, after_write, flushed_then,
  flush, after_data, after_trailers, send_data, send_fields,
}

-- The frames that a producer yields before it ends.
abbrev pub and_frame : {H : Type 0} → Frame H → Option (List (Frame H)) → Option (List (Frame H))
and_frame f none = none
and_frame f (some fs) = some (f ∷ fs)

module _ {ℓ} {H : Type 0} {E : Type ℓ} where
  abbrev pub frames_from : Produced H E → Option (List (Frame H)) → Option (List (Frame H))
  frames_from (yielded f) rest = and_frame f rest
  frames_from ended rest = some []
  frames_from dropped rest = none
  frames_from (failed e) rest = none

  abbrev pub frames_of : List (Turn H E) → Option (List (Frame H))
  frames_of [] = none
  frames_of (turn ∷ turns) = frames_from turn.produced (frames_of turns)

-- The count after a write of `wire`, and then of the rest.
counted :
    (count written : ℕ) (wire rest : Bytes)
    → written ≡ 0 + length wire
    → saturating_add (saturating_add count written) (length rest)
      ≡ saturating_add count (length (wire ++ rest))
counted count written wire rest h = omega (arith, h, length-append wire rest)

module _ (http : Http) where
  -- The bytes of the frames and of the end, apart from any writing.
  unfoldable pub encode_frames :
      (trailers_sent : Bool) → BodyEncoder → List (Frame http.HeaderMap) → Result EncodeError Bytes
  unfolding data_frame finish
  encode_frames sent e [] = if sent then ok [] else (finish e).1
  encode_frames sent e (data_of f ∷ fs) =
      let step = data_frame e (length f) in
      let rest = encode_frames sent step.0 fs in
      step.1 >>= λ framing. rest >>= λ wire. ok (framing.prefix ++ (f ++ (framing.suffix ++ wire)))
  encode_frames sent e (trailers_of fields ∷ fs) =
      let step = send_trailers http e fields in
      let rest = encode_frames true step.0 fs in
      step.1 >>= λ bytes. rest >>= λ wire. ok (bytes ++ wire)

  -- What a transmission that went well has written, from a state of the loop on.
  abbrev pub Wrote :
      Loop → Option (List (Frame http.HeaderMap)) → (wire : Bytes) → SendStats → Type 0
  Wrote l frames wire stats =
      (fs : List (Frame http.HeaderMap)) × (frames ≡ some fs)
      × (encode_frames l.trailers_sent l.encoder fs ≡ ok wire)
      × (stats.wire_bytes ≡ saturating_add l.stats.wire_bytes (length wire))

  module _ {ℓ} {E : Type ℓ} where
    wrote-ok :
        (e : BodyEncoder) (wire : Bytes) (r : Option (Result IoError ℕ)) (rest : ℕ → Transmitted E)
        (stats : SendStats)
        → (wrote e wire r rest).result ≡ some (ok stats)
        → (written : ℕ) × (r ≡ some (ok written))
          × ((rest written).result ≡ some (ok stats))
          × ((wrote e wire r rest).wire ≡ wire ++ (rest written).wire)
    unfolding wrote
    wrote-ok e wire none rest stats h = absurd (cc)
    wrote-ok e wire (some (err error)) rest stats h = absurd (cc)
    wrote-ok e wire (some (ok written)) rest stats h = (written, refl, h, refl)

    -- The flush changes nothing that a transmission that went well has written.
    pub flush-ok :
        (pended : Bool) (flushed : Result IoError (Unit {0})) (l : Loop)
        (rest : Loop → Transmitted E) (stats : SendStats)
        → (flush pended flushed l rest).result ≡ some (ok stats)
        → (pending : Bool) × ((rest (record l { pending_output = pending })).result
            ≡ some (ok stats))
          × ((flush pended flushed l rest).wire
              ≡ (rest (record l { pending_output = pending })).wire)
    unfolding flush flushed_then
    flush-ok pended flushed l rest stats h = elim (Bool-cases (pended && l.pending_output)) [
      | inl flushes ↦ rw flushes (flushed_ok flushed (rw flushes at h))
      | inr keeps ↦ rw keeps (l.pending_output, rw keeps at h, refl)
    ]
      where
        flushed_ok :
            (r : Result IoError (Unit {0}))
            → (flushed_then l r rest).result ≡ some (ok stats)
            → (pending : Bool) × ((rest (record l { pending_output = pending })).result
                ≡ some (ok stats))
              × ((flushed_then l r rest).wire ≡ (rest (record l { pending_output = pending })).wire)
        flushed_ok (err error) h = absurd (cc)
        flushed_ok (ok u) h = (false, h, refl)

    -- What a write and its rest wrote, where the write delivers `part`.
    pub write-Wrote :
        (e : BodyEncoder) (w : Written) (part : Bytes) (rest : ℕ → List Attempt → Transmitted E)
        (stats : SendStats)
        → Delivers 0 part w.wire w.result
        → (after_write e w rest).result ≡ some (ok stats)
        → (written : ℕ) × (written ≡ 0 + length part)
          × ((rest written w.left).result ≡ some (ok stats))
          × ((after_write e w rest).wire ≡ part ++ (rest written w.left).wire)
    unfolding after_write
    write-Wrote e w part rest stats delivers h =
        let (written, went, next, wire) =
          wrote-ok e w.wire w.result (λ written. rest written w.left) stats h in
        let (count, same) : Delivers 0 part w.wire (some (ok written)) = rw went at delivers in
        (written, count, next, wire ∙ ap (λ v. v ++ (rest written w.left).wire) same)

    -- A frame of data, before a rest that wrote.
    pub data-Wrote :
        (l : Loop) (f : Bytes) (attempts : List Attempt)
        (rest : Loop → List Attempt → Transmitted E) (frames : Option (List (Frame http.HeaderMap)))
        (stats : SendStats) (r : BodyEncoder × Result EncodeError DataFraming)
        → data_frame l.encoder (length f) ≡ r
        → ((next : Loop) (left : List Attempt)
            → next.stats.wire_bytes ≤ u64_max
            → (rest next left).result ≡ some (ok stats)
            → Wrote next frames (rest next left).wire stats)
        → (send_data l f attempts rest r).result ≡ some (ok stats)
        → Wrote l (and_frame (data_of f) frames) (send_data l f attempts rest r).wire stats
    unfolding send_data after_data count_data encode_frames
    data-Wrote l f attempts rest frames stats (e, err error) step after h = absurd (cc)
    data-Wrote l f attempts rest frames stats (e, ok framing) step after h =
        let w = write_framed attempts framing.prefix f framing.suffix in
        let part = framing.prefix ++ (f ++ framing.suffix) in
        let (written, count, went, wire) =
          write-Wrote e w part (λ written left. rest (after_data l e written) left) stats
            (write_framed-Delivers attempts framing.prefix f framing.suffix) h in
        let (fs, listed, encoded, bytes) =
          after (after_data l e written) w.left (omega arith) went in
        let tail = (rest (after_data l e written) w.left).wire in
        (
          data_of f ∷ fs,
          ap (and_frame (data_of f)) listed,
          rw (step, encoded, wire)
              (ap ok (
                sym (
                  append_assoc framing.prefix (f ++ framing.suffix) tail
                  ∙ ap (λ v. framing.prefix ++ v) (append_assoc f framing.suffix tail)))),
          rw wire (bytes ∙ counted l.stats.wire_bytes written part tail count),
        )

    -- Trailers, before a rest that wrote.
    pub trailers-Wrote :
        (l : Loop) (fields : http.HeaderMap) (attempts : List Attempt)
        (rest : Loop → List Attempt → Transmitted E) (frames : Option (List (Frame http.HeaderMap)))
        (stats : SendStats) (r : BodyEncoder × Result EncodeError Bytes)
        → send_trailers http l.encoder fields ≡ r
        → ((next : Loop) (left : List Attempt)
            → next.stats.wire_bytes ≤ u64_max
            → (rest next left).result ≡ some (ok stats)
            → Wrote next frames (rest next left).wire stats)
        → (send_fields l attempts rest r).result ≡ some (ok stats)
        → Wrote l (and_frame (trailers_of fields) frames) (send_fields l attempts rest r).wire stats
    unfolding send_fields after_trailers count_trailers encode_frames
    trailers-Wrote l fields attempts rest frames stats (e, err error) step after h = absurd (cc)
    trailers-Wrote l fields attempts rest frames stats (e, ok bytes) step after h =
        let w = write_all attempts bytes in
        let (written, count, went, wire) =
          write-Wrote e w bytes (λ written left. rest (after_trailers l e written) left) stats
            (write_all-Delivers attempts bytes) h in
        let (fs, listed, encoded, total) =
          after (after_trailers l e written) w.left (omega arith) went in
        let tail = (rest (after_trailers l e written) w.left).wire in
        (
          trailers_of fields ∷ fs,
          ap (and_frame (trailers_of fields)) listed,
          rw (step, encoded, wire) refl,
          rw wire (total ∙ counted l.stats.wire_bytes written bytes tail count),
        )
