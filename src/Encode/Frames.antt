-- ===== src/Encode/Frames.antt =====
-- What a body encoder writes for the frames of a body.
use vakya.Prelude.{
  ℕ, ◌+◌, ◌-◌, ◌≤◌, ◌≡◌, refl, sym, ap, ◌∙◌, ◌≢◌, ◌↔◌, ◌⊎◌, inl, inr, true, false, Option, none,
  some, List, [], ◌∷◌, ◌++◌, arith, Bool-cases, length, length-append, Bytes, Result, ok, err,
  ◌>>=◌,
}
use vakya.Encode.{EncodeError, length_mismatch}
use vakya.Encode.Stream.{
  DataFraming, BodyState, no_body, fixed_body, chunked_body, close_delimited, finished, broken,
  BodyEncoder, exceeds, reduce, fail, framing_of, data_within, data_in, data_frame, end_chunk,
  finish_within, finish_in, finish,
}

-- A frame between what frames it, before the rest.
abbrev around : DataFraming → (frame rest : Bytes) → Bytes
around framing frame rest = framing.prefix ++ (frame ++ (framing.suffix ++ rest))

-- The use of an encoder: `data` for each frame, one after the other, then `finish`. The frame
-- stands between its prefix and its suffix.
unfoldable pub encode_body : BodyEncoder → List Bytes → Result EncodeError Bytes
unfolding data_frame finish
encode_body e [] = (finish e).1
encode_body e (frame ∷ frames) =
    let (next, reply) = data_frame e (length frame) in
    let rest = encode_body next frames in
    reply >>= λ framing. rest >>= λ wire. ok (around framing frame wire)

abbrev pub concat : List Bytes → Bytes
concat [] = []
concat (frame ∷ frames) = frame ++ concat frames

abbrev pub total : List Bytes → ℕ
total [] = 0
total (frame ∷ frames) = length frame + total frames

pub length-concat : (frames : List Bytes) → length (concat frames) ≡ total frames
length-concat [] = refl
length-concat (f ∷ fs) = omega (arith, length-append f (concat fs), length-concat fs)

abbrev pub Below : ℕ → Option ℕ → Type 0
Below n none = Unit
Below n (some upper) = n ≤ upper

-- `n` bytes in all keep the bounds that the encoder was given.
abbrev pub WithinBounds : BodyEncoder → ℕ → Type 0
WithinBounds e n = (e.remaining_lower ≤ n) × Below n e.remaining_upper

abbrev pub IsOpen : BodyState → Type 0
IsOpen fixed_body = Unit
IsOpen chunked_body = Unit
IsOpen close_delimited = Unit
IsOpen _ = ⊥

abbrev reduced : BodyEncoder → ℕ → BodyEncoder
reduced e length = record e {
  remaining_lower = e.remaining_lower - length;
  remaining_upper = reduce length e.remaining_upper;
}

-- In an open state only the bounds decide.
open_data : (s : BodyState) (e : BodyEncoder) (n : ℕ) → IsOpen s → data_in s e n ≡ data_within e n
unfolding data_in
open_data fixed_body e n h = refl
open_data chunked_body e n h = refl
open_data close_delimited e n h = refl
open_data no_body e n h = absurd h
open_data finished e n h = absurd h
open_data (broken error) e n h = absurd h

exceeds-Below : (n : ℕ) (upper : Option ℕ) → (exceeds n upper ≡ false) ↔ Below n upper
exceeds-Below n none = (λ _. tt, λ _. refl)
exceeds-Below n (some upper) = ground arith

data_within_fits :
    (e : BodyEncoder) (n : ℕ)
    → exceeds n e.remaining_upper ≡ false
    → data_within e n ≡ (reduced e n, ok (framing_of e.state n))
unfolding data_within
data_within_fits e n h = rw h refl

data_within_over :
    (e : BodyEncoder) (n : ℕ)
    → exceeds n e.remaining_upper ≡ true
    → data_within e n ≡ fail e length_mismatch
unfolding data_within
data_within_over e n h = rw h refl

-- A frame in an open state is over the upper bound, or it reduces both bounds.
data_frame-cases :
    (e : BodyEncoder) (n : ℕ)
    → IsOpen e.state
    → ((exceeds n e.remaining_upper ≡ false)
        × (data_frame e n ≡ (reduced e n, ok (framing_of e.state n))))
      ⊎ ((exceeds n e.remaining_upper ≡ true) × (data_frame e n ≡ fail e length_mismatch))
unfolding data_frame
data_frame-cases e n is_open =
    rw (open_data e.state e n is_open) (elim (Bool-cases (exceeds n e.remaining_upper)) [
      | inl over ↦ inr (over, data_within_over e n over)
      | inr fits ↦ inl (fits, data_within_fits e n fits)
    ])

-- The bytes of the frames in an open state, and those of the end.
abbrev pub wire_of : BodyState → List Bytes → Bytes
wire_of chunked_body [] = end_chunk
wire_of s [] = []
wire_of s (frame ∷ frames) = around (framing_of s (length frame)) frame (wire_of s frames)

finish_within-ok :
    (e : BodyEncoder) (bytes : Bytes) → e.remaining_lower ≡ 0 → (finish_within e bytes).1 ≡ ok bytes
unfolding finish_within
finish_within-ok e bytes h = ground arith

finish_within-err :
    (e : BodyEncoder) (bytes : Bytes)
    → e.remaining_lower ≢ 0
    → (finish_within e bytes).1 ≡ err length_mismatch
unfolding finish_within
finish_within-err e bytes h = ground arith

open_finish :
    (s : BodyState) (e : BodyEncoder) → IsOpen s → finish_in s e ≡ finish_within e (wire_of s [])
unfolding finish_in
open_finish fixed_body e h = refl
open_finish chunked_body e h = refl
open_finish close_delimited e h = refl
open_finish no_body e h = absurd h
open_finish finished e h = absurd h
open_finish (broken error) e h = absurd h

no_frames :
    (e : BodyEncoder) → IsOpen e.state → encode_body e [] ≡ (finish_within e (wire_of e.state [])).1
unfolding encode_body finish
no_frames e is_open = ap (λ r. r.1) (open_finish e.state e is_open)

Below-zero : (upper : Option ℕ) → Below 0 upper
Below-zero none = tt
Below-zero (some upper) = omega arith

wire_of_step :
    (s : BodyState) (frame : Bytes) (frames : List Bytes)
    → wire_of s (frame ∷ frames) ≡ around (framing_of s (length frame)) frame (wire_of s frames)
wire_of_step chunked_body frame frames = refl
wire_of_step no_body frame frames = refl
wire_of_step fixed_body frame frames = refl
wire_of_step close_delimited frame frames = refl
wire_of_step finished frame frames = refl
wire_of_step (broken error) frame frames = refl

failed_frames :
    (e : BodyEncoder) (error : EncodeError) (frame : Bytes) (frames : List Bytes)
    → data_frame e (length frame) ≡ fail e error
    → encode_body e (frame ∷ frames) ≡ err error
unfolding encode_body
failed_frames e error frame frames h = rw h refl

good_frames :
    (e : BodyEncoder) (frame : Bytes) (frames : List Bytes)
    → data_frame e (length frame)
      ≡ (reduced e (length frame), ok (framing_of e.state (length frame)))
    → encode_body e (frame ∷ frames) ≡ (
        encode_body (reduced e (length frame)) frames >>= λ wire.
        ok (around (framing_of e.state (length frame)) frame wire))
unfolding encode_body
good_frames e frame frames h = rw h refl

reduce-Below :
    (n m : ℕ) (upper : Option ℕ)
    → exceeds n upper ≡ false
    → Below (n + m) upper ↔ Below m (reduce n upper)
reduce-Below n m none h = (λ _. tt, λ _. tt)
reduce-Below n m (some upper) h = ground arith

over-Below : (n m : ℕ) (upper : Option ℕ) → exceeds n upper ≡ true → ¬ Below (n + m) upper
over-Below n m none h = absurd (cc)
over-Below n m (some upper) h = ground arith

reduced-WithinBounds :
    (e : BodyEncoder) (n m : ℕ)
    → exceeds n e.remaining_upper ≡ false
    → WithinBounds e (n + m) ↔ WithinBounds (reduced e n) m
reduced-WithinBounds e n m h =
    let (to, from) = reduce-Below n m e.remaining_upper h in
    (λ (l, u). (omega arith, to u), λ (l, u). (omega arith, from u))

-- From an open state, an encoder accepts a sequence of frames exactly when their bytes in all
-- keep its bounds, and then it writes every frame in its framing, in order, and the end of the
-- body; otherwise it answers `length_mismatch`.
pub encode_body-WithinBounds :
    (e : BodyEncoder) (frames : List Bytes)
    → IsOpen e.state
    → (WithinBounds e (total frames) → encode_body e frames ≡ ok (wire_of e.state frames))
      × (¬ WithinBounds e (total frames) → encode_body e frames ≡ err length_mismatch)
encode_body-WithinBounds e [] is_open = (
  λ (l, u). no_frames e is_open ∙ finish_within-ok e (wire_of e.state []) (omega arith),
  λ over.
      no_frames e is_open
      ∙ finish_within-err e (wire_of e.state [])
          (λ z. over (omega arith, Below-zero e.remaining_upper)),
)
encode_body-WithinBounds e (frame ∷ frames) is_open =
    let n = length frame in
    elim (data_frame-cases e n is_open) [
      | inl (fits, step) ↦
          let (good, bad) = encode_body-WithinBounds (reduced e n) frames is_open in
          let (to, from) = reduced-WithinBounds e n (total frames) fits in
          let unrolled = good_frames e frame frames step in
          (
            λ h.
                unrolled
                ∙ ap (λ r. r >>= λ wire. ok (around (framing_of e.state n) frame wire))
                    (good (to h))
                ∙ ap ok (sym (wire_of_step e.state frame frames)),
            λ h.
                unrolled
                ∙ ap (λ r. r >>= λ wire. ok (around (framing_of e.state n) frame wire))
                    (bad (λ k. h (from k))),
          )
      | inr (over, step) ↦ (
        λ (l, u). absurd (over-Below n (total frames) e.remaining_upper over u),
        λ h. failed_frames e length_mismatch frame frames step,
      )
    ]
