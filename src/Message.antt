-- ===== src/Message.antt =====
-- src/proto/h1.rs and src/error.rs: the types that the protocol modules share.
use vakya.Prelude.{none, ℕ, Option}

-- `BodyMode`
pub data BodyMode : Type 0 where
  empty : BodyMode
  fixed : ℕ → BodyMode
  chunked : BodyMode
  until_eof : BodyMode

pub data Persistence : Type 0 where
  reusable close : Persistence

pub data UpgradeKind : Type 0 where
  protocol tunnel : UpgradeKind

pub data TargetForm : Type 0 where
  origin absolute authority asterisk : TargetForm

-- `Expectation::None` is `no_expectation`.
pub data Expectation : Type 0 where
  no_expectation continue : Expectation

pub data TrailerHint : Type 0 where
  no_trailers may_have : TrailerHint

pub data ErrorKind : Type 0 where
  io tls invalid_message local_message body service busy limit : ErrorKind
  timeout unsupported closed canceled upgrade internal : ErrorKind

pub data LimitKind : Type 0 where
  head_bytes header_count head_map_capacity : LimitKind
  chunk_line_bytes chunk_extension_bytes : LimitKind
  trailer_bytes trailer_count trailer_map_capacity : LimitKind
  retained_input informational_responses drain_payload drain_wire : LimitKind

pub data BusyReason : Type 0 where
  request_admission reservation_waiter informational_write : BusyReason

pub data TimeoutPhase : Type 0 where
  transport head body_progress write_progress drain shutdown : TimeoutPhase

pub data ErrorDetail : Type 0 where
  busy_reason : BusyReason → ErrorDetail
  incoming_limit outgoing_limit : LimitKind → ErrorDetail
  timeout_phase : TimeoutPhase → ErrorDetail
  allocation driver_lost : ErrorDetail

-- `Error` without its text and its source, which only diagnostics read.
pub record Error : Type 0 where
  pub kind : ErrorKind
  pub detail : Option ErrorDetail

abbrev pub plain_error : ErrorKind → Error
plain_error kind = record { kind = kind; detail = none }
