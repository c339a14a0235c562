-- ===== src/Io/Written.antt =====
-- What the write loops put on the wire.
use vakya.Prelude.{
  ℕ, zero, suc, ◌+◌, ◌-◌, ◌≤◌, ◌<◌, ◌≡◌, refl, sym, ap, ◌∙◌, inl, inr, false, Option, none, some,
  List, [], ◌∷◌, ◌++◌, append-nil, arith, ltb, if◌then◌else◌, ltb→lt, Bool-cases, length, take,
  drop, length-drop, take-append-drop, drop-drop, take-add, Bytes, Result, ok, err, Result-cases,
  ok-inj,
}
use mathlib.Core.Path.{subst}
use vakya.Io.{IoError}
use vakya.Io.Send.{
  Attempt, Written, checked_progress, is_interrupted, put, after_progress, write_loop, write_scalar,
  total_length, joined, vectors_of, write_vectors, write_all, write_framed,
}

-- What a result says of the wire, for the bytes that are left to write.
abbrev pub Delivers : (written : ℕ) → (left wire : Bytes) → Option (Result IoError ℕ) → Type 0
Delivers written left wire (some (ok n)) = (n ≡ written + length left) × (wire ≡ left)
Delivers written left wire (some (err e)) = (k : ℕ) × (wire ≡ take k left)
Delivers written left wire none = (k : ℕ) × (wire ≡ take k left) × (k < length left)

put-ok : (a : Attempt) (n : ℕ) (view : Bytes) → a.report ≡ ok n → put a view ≡ take n view
unfolding put
put-ok a n view h = rw h refl

put-err :
    (a : Attempt) (e : IoError) (view : Bytes)
    → a.report ≡ err e
    → put a view ≡ (if is_interrupted e then [] else take a.moved view)
unfolding put
put-err a e view h = rw h refl

progress-put :
    (a : Attempt) (view : Bytes) (count : ℕ)
    → checked_progress a.report (length view) ≡ ok count
    → (put a view ≡ take count view) × (count ≤ length view)
unfolding checked_progress
progress-put a view count h = elim (Result-cases a.report) [
  | inl (n, reported) ↦
      let k : checked_progress (ok n) (length view) ≡ ok count = rw reported at h in
      let same : (n ≡ count) × (count ≤ length view) = ground (arith, k) in
      (put-ok a n view reported ∙ ap (λ m. take m view) same.0, same.1)
  | inr (e, reported) ↦ elim (Bool-cases (is_interrupted e)) [
    | inl again ↦
        let zero_count : 0 ≡ count = ok-inj 0 count (rw (reported, again) at h) in
        rw (← zero_count) (put-err a e view reported ∙ (rw again refl), omega arith)
    | inr not_again ↦ absurd (let k = rw (reported, not_again) at h in cc)
  ]
]

failed-put : (a : Attempt) (view : Bytes) → (k : ℕ) × (put a view ≡ take k view)
failed-put a view = elim (Result-cases a.report) [
  | inl (n, reported) ↦ (n, put-ok a n view reported)
  | inr (e, reported) ↦ elim (Bool-cases (is_interrupted e)) [
    | inl again ↦ (0, put-err a e view reported ∙ (rw again refl))
    | inr not_again ↦ (a.moved, put-err a e view reported ∙ (rw not_again refl))
  ]
]

-- A part that was put, before what the rest of the loop puts.
put-Delivers :
    (written count : ℕ) (left wire : Bytes) (result : Option (Result IoError ℕ))
    → count ≤ length left
    → Delivers (written + count) (drop count left) wire result
    → Delivers written left (take count left ++ wire) result
put-Delivers written count left wire (some (ok n)) le (at, same) =
    (omega (arith, at, length-drop count left), rw same (take-append-drop count left))
put-Delivers written count left wire (some (err e)) le (k, same) =
    (count + k, rw (same, take-add count k left) refl)
put-Delivers written count left wire none le (k, same, short) =
    (count + k, rw (same, take-add count k left) refl, omega (arith, short, length-drop count left))

drop_all {ℓ} : {A : Type ℓ} (n : ℕ) (xs : List A) → length xs ≤ n → drop n xs ≡ []
drop_all zero [] le = refl
drop_all zero (x ∷ xs) le = absurd (omega arith)
drop_all (suc n) [] le = refl
drop_all (suc n) (x ∷ xs) le = drop_all n xs (omega arith)

finished-Delivers :
    (written : ℕ) (buffer : Bytes)
    → written ≤ length buffer
    → ltb written (length buffer) ≡ false
    → Delivers written (drop written buffer) [] (some (ok written))
finished-Delivers written buffer le full =
    let all : length buffer ≤ written = ground arith in
    (omega (arith, all, length-drop written buffer), sym (drop_all written buffer all))

round-Delivers :
    (a : Attempt) (attempts : List Attempt) (written : ℕ) (buffer : Bytes) (next : ℕ → Written)
    → written ≤ length buffer
    → ((count : ℕ)
        → written + count ≤ length buffer
        → Delivers
            (written + count)
            (drop (written + count) buffer)
            (next count).wire
            (next count).result)
    → let view = drop written buffer in
      let w =
        after_progress
          (put a view)
          attempts
          (checked_progress a.report (length buffer - written))
          next in
      Delivers written view w.wire w.result
unfolding after_progress
round-Delivers a attempts written buffer next le go_on =
    let view = drop written buffer in
    let same : length buffer - written ≡ length view = omega (arith, length-drop written buffer) in
    rw same (elim (Result-cases (checked_progress a.report (length view))) [
      | inl (count, e) ↦
          let (puts, fits) = progress-put a view count e in
          let after = go_on count (omega (arith, fits, length-drop written buffer)) in
          rw (e, puts)
            (put-Delivers written count view (next count).wire (next count).result fits
              (rw (← drop-drop written count buffer) at after))
      | inr (e, failed) ↦ rw failed (failed-put a view)
    ])

-- A write loop puts what is left of its buffer, and nothing else.
pub write_loop-Delivers :
    (attempts : List Attempt) (written : ℕ) (buffer : Bytes)
    → written ≤ length buffer
    → Delivers written
        (drop written buffer)
        (write_loop attempts written buffer).wire
        (write_loop attempts written buffer).result
unfolding write_loop
write_loop-Delivers [] written buffer le = elim (Bool-cases (ltb written (length buffer))) [
  | inl more ↦ rw more (0, refl, omega (arith, ltb→lt _ _ more, length-drop written buffer))
  | inr full ↦ rw full (finished-Delivers written buffer le full)
]
write_loop-Delivers (attempt ∷ attempts) written buffer le =
    elim (Bool-cases (ltb written (length buffer))) [
      | inl more ↦ elim (Bool-cases attempt.canceled) [
        | inl canceled ↦ rw (more, canceled) (0, refl)
        | inr active ↦
            rw (more, active)
              (round-Delivers attempt attempts written buffer
                (λ count. write_loop attempts (written + count) buffer) le
                (λ count within. write_loop-Delivers attempts (written + count) buffer within))
      ]
      | inr full ↦ rw full (finished-Delivers written buffer le full)
    ]

vectors_of-Delivers :
    (attempts : List Attempt) (buffer : Bytes) (length : Option ℕ)
    → let w = vectors_of attempts buffer length in Delivers 0 buffer w.wire w.result
unfolding vectors_of
vectors_of-Delivers attempts buffer none = (0, refl)
vectors_of-Delivers attempts buffer (some length) =
    write_loop-Delivers attempts 0 buffer (omega arith)

-- However the transport splits a write of a prefix, a frame and a suffix into rounds: where the
-- write succeeds, exactly these three went on the wire, one after the other, and their length is
-- reported; and where it fails or is pending, no more than a front of them did.
pub write_framed-Delivers :
    (attempts : List Attempt) (prefix frame suffix : Bytes)
    → let w = write_framed attempts prefix frame suffix in
      Delivers 0 (prefix ++ (frame ++ suffix)) w.wire w.result
unfolding write_framed write_vectors
write_framed-Delivers attempts prefix frame suffix =
    let parts = prefix ∷ frame ∷ suffix ∷ [] in
    let w = write_framed attempts prefix frame suffix in
    subst (λ s. Delivers 0 (prefix ++ (frame ++ s)) w.wire w.result) (append-nil suffix)
      (vectors_of-Delivers attempts (joined parts) (total_length 0 parts))

pub write_all-Delivers :
    (attempts : List Attempt) (buffer : Bytes)
    → let w = write_all attempts buffer in Delivers 0 buffer w.wire w.result
unfolding write_all write_scalar
write_all-Delivers attempts buffer = write_loop-Delivers attempts 0 buffer (omega arith)
