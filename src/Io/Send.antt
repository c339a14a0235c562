-- ===== src/Io/Send.antt =====
-- src/io/send.rs: owned buffers that are written completely.
use vakya.Prelude.{
  ℕ, ◌+◌, ◌-◌, Bool, true, false, Option, none, some, List, [], ◌∷◌, ◌++◌, ltb, ◌==◌, if◌then◌else◌,
  length, take, drop, Bytes, u64_max, Result, ok, err,
}
use vakya.Io.{
  IoError, write_zero, invalid_data, invalid_input, interrupted, operation_canceled, other,
}

-- One round of a write loop: whether the token asks for cancellation before it, what the writer
-- reports, and how many bytes it moved where it fails.
pub record Attempt : Type 0 where
  pub canceled : Bool
  pub report : Result IoError ℕ
  pub moved : ℕ

-- A write, with what it put on the wire and the attempts that it left; it is pending without a
-- result.
pub record Written : Type 0 where
  pub wire : Bytes
  pub left : List Attempt
  pub result : Option (Result IoError ℕ)

unfoldable pub is_interrupted : IoError → Bool
is_interrupted interrupted = true
is_interrupted write_zero = false
is_interrupted invalid_data = false
is_interrupted invalid_input = false
is_interrupted operation_canceled = false
is_interrupted other = false

unfoldable pub checked_progress : Result IoError ℕ → (remaining : ℕ) → Result IoError ℕ
unfolding is_interrupted
checked_progress (ok count) remaining =
    if count == 0
    then err write_zero
    else if ltb remaining count
    then err invalid_data
    else ok count
checked_progress (err e) remaining = if is_interrupted e then ok 0 else err e

-- What a writer puts on the wire of a view: a report of `n` bytes means the first `n`, an
-- interrupted operation has put none, and one that fails otherwise may have put some, as one that
-- ends after its deadline has.
unfoldable pub put : Attempt → (view : Bytes) → Bytes
unfolding is_interrupted
put attempt view = elim attempt.report [
  | ok count ↦ take count view
  | err e ↦ if is_interrupted e then [] else take attempt.moved view
]

abbrev pub after_put : Bytes → Written → Written
after_put bytes w = record w { wire = bytes ++ w.wire }

abbrev pub stopped : Bytes → List Attempt → Result IoError ℕ → Written
stopped bytes left result = record { wire = bytes; left = left; result = some result }

-- After one round: the loop goes on, or it stops at an error.
unfoldable pub after_progress : Bytes → List Attempt → Result IoError ℕ → (ℕ → Written) → Written
after_progress bytes left (ok count) next = after_put bytes (next count)
after_progress bytes left (err e) next = stopped bytes left (err e)

-- The loop of `write_scalar` and of `write_vectors`, whose views go on behind what was written.
unfoldable pub write_loop : List Attempt → (written : ℕ) → (buffer : Bytes) → Written
unfolding checked_progress put after_progress
write_loop [] written buffer = record {
  wire = [];
  left = [];
  result = if ltb written (length buffer) then none else some (ok written);
}
write_loop (attempt ∷ attempts) written buffer =
    if ltb written (length buffer)
    then if attempt.canceled
      then stopped [] attempts (err operation_canceled)
      else after_progress (put attempt (drop written buffer)) attempts
          (checked_progress attempt.report (length buffer - written))
          (λ count. write_loop attempts (written + count) buffer)
    else stopped [] (attempt ∷ attempts) (ok written)

unfoldable pub write_scalar : List Attempt → Bytes → Written
unfolding write_loop
write_scalar attempts buffer = write_loop attempts 0 buffer

-- `try_fold` with `checked_add`
unfoldable pub total_length : (total : ℕ) → List Bytes → Option ℕ
total_length total [] = some total
total_length total (part ∷ parts) =
    let rest = total_length (total + length part) parts in
    if ltb u64_max (total + length part) then none else rest

abbrev pub joined : List Bytes → Bytes
joined [] = []
joined (part ∷ parts) = part ++ joined parts

-- By the length of the buffers.
unfoldable pub vectors_of : List Attempt → Bytes → (length : Option ℕ) → Written
unfolding write_loop
vectors_of attempts buffer none = stopped [] attempts (err invalid_input)
vectors_of attempts buffer (some length) = write_loop attempts 0 buffer

unfoldable pub write_vectors : List Attempt → List Bytes → Written
unfolding vectors_of total_length
write_vectors attempts buffers = vectors_of attempts (joined buffers) (total_length 0 buffers)

-- `write_all`; a token that is canceled shows in the attempts.
unfoldable pub write_all : List Attempt → Bytes → Written
unfolding write_scalar
write_all attempts buffer = write_scalar attempts buffer

unfoldable pub write_framed : List Attempt → (prefix frame suffix : Bytes) → Written
unfolding write_vectors
write_framed attempts prefix frame suffix = write_vectors attempts (prefix ∷ frame ∷ suffix ∷ [])
