-- ===== src/Io.antt =====
-- src/io: what the transport does for the protocol. An operation of the transport is an answer
-- that stands in the list of the answers to come; where the list ends, the operation is pending.
pub mod Send
pub mod Written
pub mod Recv
pub mod Retained
pub mod Payload
pub mod Reading
use vakya.Prelude.{
  ℕ, zero, suc, ◌+◌, ◌-◌, ◌*◌, ◌/◌, ◌%◌, ◌^◌, ◌≤◌, ◌<◌, min, ◌≡◌, refl, sym, ap, ◌∙◌, ◌≢◌, ◌↔◌, ◌⊎◌,
  inl, inr, Bool, true, false, not, ◌&&◌, ◌||◌, Option, none, some, List, [], ◌∷◌, ◌++◌, map,
  append-nil, append_assoc, arith, ltb, leb, ◌==◌, if◌then◌else◌, ltb→lt, lt→ltb, leb→le, ==_iff,
  Bool-cases, Option-cases, length, get_elem?, take, drop, length-append, length-take, length-drop,
  take-append-drop, take-append_len, drop-append_len, drop-append_le, take-append_le, drop-nil,
  take-nil, drop-drop, take-add, take-take_le, All, All-append, Bytes, u64_max, Result, ok, err,
  Poll, pending, now, ◌>>=◌, ◌>>◌, map_err, ok_or, is_some, Result-cases, >>=-eq-ok, ok-inj,
  map_err-eq-ok,
}

-- `io::ErrorKind`, as far as the code asks for it. An operation that was canceled is told apart
-- by the runtime.
pub data IoError : Type 0 where
  write_zero invalid_data invalid_input interrupted operation_canceled other : IoError
