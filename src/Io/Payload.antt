-- ===== src/Io/Payload.antt =====
-- What is taken out of a receive buffer.
use vakya.Prelude.{
  ℕ, ◌+◌, ◌-◌, ◌≤◌, ◌≡◌, refl, sym, ap, ◌∙◌, inl, inr, Bool, true, false, ◌||◌, Option, some, ◌++◌,
  arith, ltb, ◌==◌, ==_iff, Bool-cases, length, take, drop, take-append-drop, take-take_le, Bytes,
  Result, ok, err,
}
use vakya.Message.{Error}
use vakya.Io.Recv.{
  IncomingData, shared, leased, range, data_bytes, ReceiveStorage, portable, managed, RecvBuffer,
  storage_bytes, bytes, compacted, with_storage, advance, prefix_of, take_shared_prefix,
  from_managed, suffix_of, take_leased, take_from, take_payload,
}
use vakya.Io.Retained.{
  Fits, IsSound, advance-Fits, shorter-IsSound, range-range, drop-range, empty_range, length-range,
  drop-take, same_count,
}

drop-take-take :
    (from to consumed : ℕ) (input : Bytes)
    → to ≤ consumed
    → drop from (take to (take consumed input)) ≡ range input from to
drop-take-take from to consumed input within =
    ap (drop from) (take-take_le to consumed input within) ∙ drop-take from to input

suffix-bytes :
    (buffer : Bytes) (start stop : ℕ) (permit : Option Bool)
    → Fits (suffix_of buffer start stop) permit
      × (storage_bytes (suffix_of buffer start stop) ≡ range buffer start stop)
unfolding suffix_of storage_bytes
suffix-bytes buffer start stop permit = elim (Bool-cases (start == stop)) [
  | inl empty ↦
      let same : start ≡ stop = (==_iff start stop).0 empty in
      rw empty (tt, rw same (sym (empty_range buffer stop)))
  | inr more ↦ rw more (tt, refl)
]

-- The answer of a call that takes a payload.
abbrev pub Takes :
    RecvBuffer → (from to consumed : ℕ) → Option (RecvBuffer × Result Error IncomingData) → Type 0
Takes b from to consumed answer =
    (b' : RecvBuffer) × (taken : IncomingData) × (answer ≡ some (b', ok taken))
    × (data_bytes taken ≡ range (bytes b) from to)
    × (bytes b' ≡ drop consumed (bytes b))
    × IsSound b'

from_managed-ok :
    (buffer : Bytes) (start stop : ℕ)
    → start ≤ stop
    → stop ≤ length buffer
    → from_managed buffer start stop false ≡ (true, ok (leased buffer start stop))
unfolding from_managed
from_managed-ok buffer start stop le within = ground arith

leased-Takes :
    (b : RecvBuffer) (buffer : Bytes) (start stop from to consumed : ℕ) (permit : Option Bool)
    → permit ≡ some false
    → IsSound b
    → bytes b ≡ range buffer start stop
    → start ≤ stop
    → stop ≤ length buffer
    → from ≤ to
    → to ≤ consumed
    → consumed ≤ stop - start
    → Takes b from to consumed (take_leased b buffer start stop from to consumed permit)
unfolding take_leased data_bytes bytes
leased-Takes b buffer start stop from to consumed permit free sound whole ordered room le within
      inside =
    let (fits, rest) = suffix-bytes buffer (start + consumed) stop (some true) in
    let left =
      rest ∙ sym (drop-range buffer start stop consumed) ∙ ap (drop consumed) (sym whole) in
    rw (free, from_managed-ok buffer (start + from) (start + to) (omega arith) (omega arith))
      (
        record b { storage = suffix_of buffer (start + consumed) stop; permit = some true },
        leased buffer (start + from) (start + to),
        refl,
        sym (range-range buffer start stop from to (omega arith))
            ∙ ap (λ v. range v from to) (sym whole),
        left,
        shorter-IsSound b (suffix_of buffer (start + consumed) stop) (some true) consumed sound fits
            left,
      )

storage-Takes :
    (b : RecvBuffer) (s : ReceiveStorage) (from to consumed : ℕ)
    → b.storage ≡ s
    → IsSound b
    → Fits s b.permit
    → from ≤ to
    → to ≤ consumed
    → consumed ≤ length (bytes b)
    → Takes b from to consumed (take_from b from to consumed s)
unfolding take_from bytes storage_bytes data_bytes
storage-Takes b (portable input) from to consumed at sound fits le within inside =
    let whole : bytes b ≡ input = ap storage_bytes at in
    (
      with_storage b (portable (drop consumed input)),
      shared (drop from (take to (take consumed input))),
      refl,
      drop-take-take from to consumed input within ∙ ap (λ v. range v from to) (sym whole),
      ap (drop consumed) (sym whole),
      shorter-IsSound b (portable (drop consumed input)) b.permit consumed sound tt
          (ap (drop consumed) (sym whole)),
    )
storage-Takes b (managed buffer start stop) from to consumed at sound (le', room, free) le within
      inside =
    let whole : bytes b ≡ range buffer start stop = ap storage_bytes at in
    leased-Takes b buffer start stop from to consumed b.permit free sound whole le' room le within
      (omega (arith, inside, ap length whole, length-range buffer start stop room))

-- A payload that lies within the input is taken: the data holds exactly the bytes of its range,
-- whether they are shared or leased, the front that is consumed with it leaves the buffer, and
-- what is behind it stays. No lease is handed on twice, so there is neither an error nor a panic.
pub take_payload-Takes :
    (b : RecvBuffer) (from to consumed : ℕ)
    → IsSound b
    → from ≤ to
    → to ≤ consumed
    → consumed ≤ length (bytes b)
    → Takes b from to consumed (take_payload from to consumed b)
unfolding take_payload
take_payload-Takes b from to consumed sound le within inside =
    let accepted : (ltb to from || ltb consumed to || ltb (length (bytes b)) consumed) ≡ false =
      ground arith in
    rw accepted (storage-Takes b b.storage from to consumed refl sound sound.fits le within inside)

-- What a prefix that is taken leaves: together they are the input that was there.
abbrev pub Splits : RecvBuffer → RecvBuffer × Result Error Bytes → Type 0
Splits b (b', err e) = (bytes b' ≡ bytes b) × IsSound b'
Splits b (b', ok prefix) = (bytes b ≡ prefix ++ bytes b') × IsSound b'

prefix_of-take :
    (count : ℕ) (s : ReceiveStorage) (permit : Option Bool)
    → Fits s permit
    → count ≤ length (storage_bytes s)
    → prefix_of count s ≡ take count (storage_bytes s)
unfolding prefix_of storage_bytes
prefix_of-take count (portable input) permit fits within = refl
prefix_of-take count (managed buffer start stop) permit (le, inside, free) within =
    let size = length-range buffer start stop inside in
    same_count (start + count - start) count (drop start buffer) (omega arith)
    ∙ sym (take-take_le count (stop - start) (drop start buffer) (omega (arith, size, within)))

pub take_shared_prefix-Splits :
    (count : ℕ) (b : RecvBuffer) → IsSound b → Splits b (take_shared_prefix count b)
unfolding take_shared_prefix bytes
take_shared_prefix-Splits count b sound = elim (Bool-cases (ltb (length (bytes b)) count)) [
  | inl beyond ↦ rw beyond (refl, sound)
  | inr inside ↦
      let within : count ≤ length (bytes b) = ground arith in
      let (fits, same) = advance-Fits count b.storage b.permit sound.fits within in
      rw inside (
        sym (take-append-drop count (bytes b))
            ∙ ap (λ v. v ++ drop count (bytes b))
                (sym (prefix_of-take count b.storage b.permit sound.fits within))
            ∙ ap (λ v. prefix_of count b.storage ++ v) (sym same),
        shorter-IsSound b (compacted (advance count b.storage)) b.permit count sound fits same,
      )
]
