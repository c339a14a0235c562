-- ===== src/Io/Reading.antt =====
-- What is read into a receive buffer.
use vakya.Prelude.{
  length_eq_zero, ℕ, ◌-◌, ◌≤◌, min, ◌≡◌, refl, sym, ap, ◌∙◌, inl, inr, Bool, true, false, not, ◌&&◌,
  ◌||◌, Option, none, some, [], ◌++◌, append-nil, arith, ltb, leb, ◌==◌, Bool-cases, length, take,
  length-append, length-take, take-append_len, Bytes, Result, ok, err,
}
use vakya.Message.{Error}
use vakya.Io.{IoError}
use vakya.Io.Recv.{
  range, RecvBuffer, storage_bytes, bytes, make_portable, ReadStatus, received, at_eof, ReadAnswer,
  report_status, read_status, read_portable, read, checked_lease, leased_status, read_managed,
  is_held,
}
use vakya.Io.Retained.{IsSound}

-- What the status of a read says of the bytes that came.
abbrev pub Tells : Result Error ReadStatus → Bytes → Type 0
Tells (err e) arrived = Unit
Tells (ok at_eof) arrived = arrived ≡ []
Tells (ok (received count)) arrived = (length arrived ≡ count) × (1 ≤ count)

-- What a read leaves: the input that was there, and behind it what came.
abbrev pub Appends : RecvBuffer → RecvBuffer × Result Error ReadStatus → Type 0
Appends b (b', status) =
    (arrived : Bytes) × (bytes b' ≡ bytes b ++ arrived) × Tells status arrived × IsSound b'

-- A read that takes nothing leaves the input as it was.
same_input : (b : RecvBuffer) → bytes b ≡ bytes b ++ []
same_input b = sym (append-nil (bytes b))

module _ (error_of : IoError → Error) where
  report-Tells :
      (report : Result IoError ℕ) (arrived : Bytes) (target : ℕ)
      → Tells (report_status error_of report (length arrived) target) arrived
  unfolding report_status
  report-Tells (err e) arrived target = tt
  report-Tells (ok count) arrived target =
      elim (Bool-cases (ltb target count || not (length arrived == count))) [
        | inl bad ↦ rw bad tt
        | inr fine ↦ elim (Bool-cases (count == 0)) [
          | inl none_came ↦ rw (fine, none_came) (length_eq_zero arrived (ground arith))
          | inr some_came ↦ rw (fine, some_came) (ground arith, ground arith)
        ]
      ]

  portable-Appends :
      (answer : ReadAnswer) (b : RecvBuffer)
      → IsSound b
      → Appends b (read_portable error_of answer b)
  unfolding read_portable read_status bytes storage_bytes
  portable-Appends answer b sound = elim (Bool-cases (b.max_retained - length (bytes b) == 0)) [
    | inl full ↦ rw full (([], same_input b, tt, sound))
    | inr free ↦
        let target = min (b.max_retained - length (bytes b)) b.preferred_read in
        let arrived = take target answer.appended in
        rw free (
          arrived,
          refl,
          report-Tells answer.report arrived target,
          record {
            fits = tt;
            bounded = omega (
              arith,
              sound.bounded,
              length-append (bytes b) arrived,
              length-take target answer.appended,
            );
            ordered = sound.ordered;
            asks = sound.asks;
          },
        )
  ]

  pub read-Appends :
      (cancel : Bool) (answer : ReadAnswer) (b : RecvBuffer)
      → IsSound b
      → Appends b (read error_of cancel answer b)
  unfolding read make_portable bytes storage_bytes
  read-Appends true answer b sound = ([], same_input b, tt, sound)
  read-Appends false answer b sound =
      portable-Appends answer (make_portable b)
        (record { fits = tt; bounded = sound.bounded; ordered = sound.ordered; asks = sound.asks })

  lease-Appends :
      (requested : ℕ) (lease : Result IoError (Option Bytes)) (b : RecvBuffer)
      → IsSound b
      → bytes b ≡ []
      → is_held b.permit ≡ false
      → requested ≡ min b.preferred_read b.max_retained
      → Appends b (leased_status error_of b (checked_lease error_of requested lease))
  unfolding leased_status checked_lease bytes storage_bytes
  lease-Appends requested (err e) b sound empty free asked = ([], same_input b, tt, sound)
  lease-Appends requested (ok none) b sound empty free asked = ([], same_input b, refl, sound)
  lease-Appends requested (ok (some buffer)) b sound empty free asked =
      elim (Bool-cases (length buffer == 0)) [
        | inl nothing ↦ rw nothing (([], same_input b, tt, sound))
        | inr something ↦
            elim (Bool-cases (not (requested == 0) && ltb requested (length buffer))) [
              | inl over ↦ rw (something, over) (([], same_input b, tt, sound))
              | inr fits ↦
                  rw (something, fits)
                    (leased b buffer sound empty free (ground (arith, sound.asks, sound.ordered))
                      (ground arith))
            ]
      ]
    where
      whole : (xs : Bytes) → range xs 0 (length xs) ≡ xs
      whole xs =
          ap (take (length xs - 0)) (sym (append-nil xs))
          ∙ take-append_len (length xs - 0) xs [] (omega arith)

      leased :
          (b : RecvBuffer) (buffer : Bytes)
          → IsSound b
          → bytes b ≡ []
          → is_held b.permit ≡ false
          → length buffer ≤ b.max_retained
          → 1 ≤ length buffer
          → Appends b (leased_status error_of b (ok (some buffer)))
      leased b buffer sound empty free within some_input = (
        buffer,
        rw empty (whole buffer),
        (refl, some_input),
        record {
          fits = (omega arith, omega arith, ap some free);
          bounded = rw (whole buffer) within;
          ordered = sound.ordered;
          asks = sound.asks;
        },
      )

  -- A read of either kind appends: the input that was retained stays as it was, what came stands
  -- behind it, and the bound on what is retained is kept, whatever the reader reports, also when
  -- it fails or is canceled. A count that is answered is that of the bytes that came, and is not
  -- zero; at the end of the input nothing came.
  pub read_managed-Appends :
      (cancel : Bool) (answer : ReadAnswer) (lease : Result IoError (Option Bytes)) (b : RecvBuffer)
      → IsSound b
      → Appends b (read_managed error_of cancel answer lease b)
  unfolding read_managed
  read_managed-Appends true answer lease b sound = ([], same_input b, tt, sound)
  read_managed-Appends false answer lease b sound =
      elim (Bool-cases (is_held b.permit || leb 1 (length (bytes b)))) [
        | inl plain ↦ rw plain (read-Appends false answer b sound)
        | inr leasing ↦
            let (free, empty) = neither (is_held b.permit) (leb 1 (length (bytes b))) leasing in
            rw leasing (
              lease-Appends (min b.preferred_read b.max_retained) lease b sound
                (length_eq_zero (bytes b) (ground arith)) free refl)
      ]
    where
      neither : (p q : Bool) → (p || q) ≡ false → (p ≡ false) × (q ≡ false)
      neither true q h = absurd (cc)
      neither false q h = (refl, h)
