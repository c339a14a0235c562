-- ===== src/Encode.antt =====
-- src/proto/h1/encode.rs: the writer of heads and trailers, and the framing of message bodies.
pub mod Stream
pub mod Digits
pub mod Frames
pub mod RoundTrip
pub mod ReadBack
pub mod Fields
pub mod Heads
pub mod Writer
pub mod Limits
pub mod Plan
pub mod Agreement
pub mod Planned
pub mod Lines
pub mod Prepared
pub mod Pushed
use vakya.Prelude.{
  ℕ, zero, suc, ◌+◌, ◌-◌, ◌*◌, ◌/◌, ◌%◌, ◌^◌, ◌≤◌, ◌<◌, min, ◌≡◌, refl, sym, ap, ◌∙◌, ◌≢◌, ◌↔◌, ◌⊎◌,
  inl, inr, Bool, true, false, not, ◌&&◌, ◌||◌, Option, none, some, List, [], ◌∷◌, ◌++◌, map,
  append-nil, append_assoc, arith, ltb, leb, ◌==◌, if◌then◌else◌, ltb→lt, lt→ltb, leb→le, ==_iff,
  Bool-cases, Option-cases, length, get_elem?, take, drop, length-append, length-take, length-drop,
  take-append-drop, take-append_len, drop-append_len, drop-append_le, take-append_le, drop-nil,
  take-nil, drop-drop, take-add, take-take_le, All, All-append, Bytes, u64_max, Result, ok, err,
  ◌>>=◌, ◌>>◌, map_err, ok_or, is_some, Result-cases, >>=-eq-ok,
}
use vakya.Message.{BodyMode, empty, fixed, chunked, until_eof, TrailerHint, LimitKind, head_bytes}
use vakya.Chunk.{checked}
use vakya.Body.{SizeHint, exact}

pub record BodyMetadata : Type 0 where
  pub size : SizeHint
  pub trailers : TrailerHint

pub record EncodeConfig : Type 0 where
  pub max_head_bytes : ℕ
  pub max_trailer_bytes : ℕ
  pub title_case_headers : Bool

pub data EncodeError : Type 0 where
  invalid_head invalid_framing length_mismatch body_forbidden : EncodeError
  trailers_forbidden frame_after_end unsupported allocation : EncodeError
  limit : LimitKind → EncodeError

-- A growable buffer that refuses to grow beyond a limit.
pub record BoundedWriter : Type 0 where
  pub kind : LimitKind
  pub bytes : Bytes
  pub limit_bytes : ℕ

unfoldable pub new_writer : (limit_bytes : ℕ) → BoundedWriter
new_writer limit_bytes = record { kind = head_bytes; bytes = []; limit_bytes = limit_bytes }

-- The room check of both pushes, and then the bytes that are appended.
unfoldable pub append_bytes : BoundedWriter → (count : ℕ) → Bytes → Result EncodeError BoundedWriter
append_bytes w count value = elim (checked (length w.bytes + count)) [
  | none ↦ err (limit w.kind)
  | some total ↦
      if ltb w.limit_bytes total
      then err (limit w.kind)
      else ok (record w { bytes = w.bytes ++ value })
]

unfoldable pub push : BoundedWriter → Bytes → Result EncodeError BoundedWriter
unfolding append_bytes
push w value = append_bytes w (length value) value

unfoldable pub to_ascii_uppercase : ℕ → ℕ
to_ascii_uppercase b = if leb b'a' b && leb b b'z' then b - 32 else b

-- The loop of `push_title_case`.
unfoldable pub title_case : (capitalize : Bool) → Bytes → Bytes
unfolding to_ascii_uppercase
title_case capitalize [] = []
title_case capitalize (b ∷ bs) =
    (if capitalize then to_ascii_uppercase b else b) ∷ title_case (b == b'-') bs

unfoldable pub push_title_case : BoundedWriter → Bytes → Result EncodeError BoundedWriter
unfolding append_bytes title_case
push_title_case w value = append_bytes w (length value) (title_case true value)

unfoldable pub write_header_name :
    BoundedWriter
    → (name : Bytes) → (original : Option Bytes) → (title : Bool) → Result EncodeError BoundedWriter
unfolding push push_title_case
write_header_name w name (some original) title = push w original
write_header_name w name none title = if title then push_title_case w name else push w name
