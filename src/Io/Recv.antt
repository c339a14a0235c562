-- ===== src/Io/Recv.antt =====
-- src/io/recv.rs: input that is retained for the parsers. `none` is a panic.
use vakya.Prelude.{
  ℕ, ◌+◌, ◌-◌, min, Bool, true, false, not, ◌&&◌, ◌||◌, Option, none, some, [], ◌++◌, ltb, leb,
  ◌==◌, if◌then◌else◌, length, take, drop, Bytes, Result, ok, err,
}
use vakya.Message.{plain_error, Error, io, limit, internal, retained_input, incoming_limit}
use vakya.Io.{IoError, operation_canceled}

-- `IncomingData`, by its storage.
pub data IncomingData : Type 0 where
  shared : Bytes → IncomingData
  leased : (buffer : Bytes) (start stop : ℕ) → IncomingData

abbrev pub range : Bytes → (start stop : ℕ) → Bytes
range buffer start stop = take (stop - start) (drop start buffer)

-- `AsRef<[u8]>`
unfoldable pub data_bytes : IncomingData → Bytes
data_bytes (shared bytes) = bytes
data_bytes (leased buffer start stop) = range buffer start stop

pub data ReceiveStorage : Type 0 where
  portable : Bytes → ReceiveStorage
  managed : (buffer : Bytes) (start stop : ℕ) → ReceiveStorage

-- `permit` says whether the lease is held, once there is one; the data that holds it clears it
-- when it is dropped.
pub record RecvBuffer : Type 0 where
  pub storage : ReceiveStorage
  pub permit : Option Bool
  pub preferred_read : ℕ
  pub max_retained : ℕ

unfoldable pub new_buffer : (preferred_read max_retained : ℕ) → Result Error RecvBuffer
new_buffer preferred_read max_retained =
    if preferred_read == 0 || ltb max_retained preferred_read
    then err (plain_error limit)
    else ok record {
      storage = portable [];
      permit = none;
      preferred_read = preferred_read;
      max_retained = max_retained;
    }

unfoldable pub storage_bytes : ReceiveStorage → Bytes
storage_bytes (portable bytes) = bytes
storage_bytes (managed buffer start stop) = range buffer start stop

-- `bytes`; `len` is its length.
unfoldable pub bytes : RecvBuffer → Bytes
unfolding storage_bytes
bytes b = storage_bytes b.storage

-- `compact_if_empty`, which releases a managed buffer. What it does to a portable one changes
-- its capacity only.
unfoldable pub compacted : ReceiveStorage → ReceiveStorage
compacted (portable bytes) = portable bytes
compacted (managed buffer start stop) =
    if start == stop then portable [] else managed buffer start stop

abbrev pub with_storage : RecvBuffer → ReceiveStorage → RecvBuffer
with_storage b storage = record b { storage = storage }

unfoldable pub advance : ℕ → ReceiveStorage → ReceiveStorage
advance count (portable bytes) = portable (drop count bytes)
advance count (managed buffer start stop) = managed buffer (start + count) stop

unfoldable pub consume : ℕ → RecvBuffer → RecvBuffer × Result Error (Unit {0})
unfolding bytes compacted advance
consume count b =
    if ltb (length (bytes b)) count
    then (b, err (plain_error internal))
    else (with_storage b (compacted (advance count b.storage)), ok tt)

unfoldable pub prefix_of : ℕ → ReceiveStorage → Bytes
prefix_of count (portable bytes) = take count bytes
prefix_of count (managed buffer start stop) = range buffer start (start + count)

unfoldable pub take_shared_prefix : ℕ → RecvBuffer → RecvBuffer × Result Error Bytes
unfolding bytes compacted advance prefix_of
take_shared_prefix count b =
    if ltb (length (bytes b)) count
    then (b, err (plain_error internal))
    else (with_storage b (compacted (advance count b.storage)), ok (prefix_of count b.storage))

-- `IncomingData::from_managed`, with the permit after it.
unfoldable pub from_managed :
    (buffer : Bytes) (start stop : ℕ) → (held : Bool) → Bool × Result Error IncomingData
from_managed buffer start stop held =
    if ltb stop start || ltb (length buffer) stop
    then (held, err (plain_error internal))
    else if held
    then (true, err (plain_error internal))
    else (true, ok (leased buffer start stop))

-- The part of a managed buffer that stays after a payload was taken.
unfoldable pub suffix_of : (buffer : Bytes) (start stop : ℕ) → ReceiveStorage
suffix_of buffer start stop =
    if start == stop then portable [] else portable (range buffer start stop)

unfoldable pub take_leased :
    RecvBuffer
    → (buffer : Bytes) (start stop from to consumed : ℕ) → Option Bool
    → Option (RecvBuffer × Result Error IncomingData)
unfolding from_managed suffix_of
take_leased b buffer start stop from to consumed none = none
take_leased b buffer start stop from to consumed (some held) =
    let data_of = from_managed buffer (start + from) (start + to) held in
    some (
      record b { storage = suffix_of buffer (start + consumed) stop; permit = some data_of.0 },
      data_of.1,
    )

unfoldable pub take_from :
    RecvBuffer
    → (from to consumed : ℕ) → ReceiveStorage
    → Option (RecvBuffer × Result Error IncomingData)
unfolding take_leased
take_from b from to consumed (portable bytes) = some (
  with_storage b (portable (drop consumed bytes)),
  ok (shared (drop from (take to (take consumed bytes)))),
)
take_from b from to consumed (managed buffer start stop) =
    take_leased b buffer start stop from to consumed b.permit

unfoldable pub take_payload :
    (from to consumed : ℕ) → RecvBuffer → Option (RecvBuffer × Result Error IncomingData)
unfolding bytes take_from
take_payload from to consumed b =
    if ltb to from || ltb consumed to || ltb (length (bytes b)) consumed
    then some (b, err (plain_error internal))
    else take_from b from to consumed b.storage

unfoldable pub take_all : RecvBuffer → RecvBuffer × Bytes
unfolding bytes
take_all b = (with_storage b (portable []), bytes b)

unfoldable pub make_portable : RecvBuffer → RecvBuffer
unfolding bytes
make_portable b = with_storage b (portable (bytes b))

pub data ReadStatus : Type 0 where
  received : ℕ → ReadStatus
  at_eof : ReadStatus

-- What a reader answers: what it reports, and what it put into the buffer that it was lent, which
-- has room for so many bytes as it was asked for.
pub record ReadAnswer : Type 0 where
  pub report : Result IoError ℕ
  pub appended : Bytes

abbrev pub is_held : Option Bool → Bool
is_held none = false
is_held (some held) = held

module _ (error_of : IoError → Error) where
  -- The status of a read of at most `target` bytes, by its report and how many bytes came.
  unfoldable pub report_status : Result IoError ℕ → (came target : ℕ) → Result Error ReadStatus
  report_status (err e) came target = err (error_of e)
  report_status (ok count) came target =
      if ltb target count || not (came == count)
      then err (plain_error io)
      else if count == 0
      then ok at_eof
      else ok (received count)

  unfoldable pub read_status : ReadAnswer → (target : ℕ) → Result Error ReadStatus
  unfolding report_status
  read_status answer target =
      report_status answer.report (length (take target answer.appended)) target

  -- `read`, from the buffer on that is made portable.
  unfoldable pub read_portable : ReadAnswer → RecvBuffer → RecvBuffer × Result Error ReadStatus
  unfolding bytes read_status
  read_portable answer b =
      let available = b.max_retained - length (bytes b) in
      if available == 0
      then (b, err record { kind = limit; detail = some (incoming_limit retained_input) })
      else let target = min available b.preferred_read in
        (
          with_storage b (portable (bytes b ++ take target answer.appended)),
          read_status answer target,
        )

  unfoldable pub read :
      (cancel : Bool) → ReadAnswer → RecvBuffer → RecvBuffer × Result Error ReadStatus
  unfolding make_portable read_portable
  read cancel answer b =
      if cancel
      then (b, err (error_of operation_canceled))
      else read_portable answer (make_portable b)

  -- The checks of `managed::read` in src/io/managed.rs.
  unfoldable pub checked_lease :
      (requested : ℕ) → Result IoError (Option Bytes) → Result Error (Option Bytes)
  checked_lease requested (err e) = err (error_of e)
  checked_lease requested (ok none) = ok none
  checked_lease requested (ok (some buffer)) =
      if length buffer == 0
      then err (plain_error internal)
      else if not (requested == 0) && ltb requested (length buffer)
      then err (plain_error internal)
      else ok (some buffer)

  -- What `managed::read` answers: a buffer of the pool, the end of the input, or an error.
  unfoldable pub leased_status :
      RecvBuffer → Result Error (Option Bytes) → RecvBuffer × Result Error ReadStatus
  leased_status b (err e) = (b, err e)
  leased_status b (ok none) = (b, ok at_eof)
  leased_status b (ok (some buffer)) = (
    record b { storage = managed buffer 0 (length buffer); permit = some (is_held b.permit) },
    ok (received (length buffer)),
  )

  unfoldable pub read_managed :
      (cancel : Bool)
      → ReadAnswer
      → (lease : Result IoError (Option Bytes)) → RecvBuffer
      → RecvBuffer × Result Error ReadStatus
  unfolding read bytes leased_status checked_lease
  read_managed cancel answer lease b =
      if cancel
      then (b, err (error_of operation_canceled))
      else if is_held b.permit || leb 1 (length (bytes b))
      then read cancel answer b
      else leased_status b (checked_lease (min b.preferred_read b.max_retained) lease)
