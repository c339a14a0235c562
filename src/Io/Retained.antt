-- ===== src/Io/Retained.antt =====
-- A receive buffer is a queue of bytes: what is taken leaves at its front, what is read comes at its
-- end, and it keeps within its bound.
use vakya.Prelude.{
  ℕ, zero, suc, ◌+◌, ◌-◌, ◌≤◌, ◌≡◌, refl, sym, ap, ◌∙◌, inl, inr, Bool, false, Option, some, List,
  [], ◌∷◌, arith, ◌==◌, ==_iff, Bool-cases, length, take, drop, length-take, length-drop, take-nil,
  drop-drop, take-take_le, Bytes, ok,
}
use vakya.Io.Recv.{
  range, ReceiveStorage, portable, managed, RecvBuffer, storage_bytes, bytes, compacted,
  with_storage, advance, consume,
}

-- What a storage needs to be read: a managed one has a range within its buffer, and its lease was
-- not handed on.
abbrev pub Fits : ReceiveStorage → Option Bool → Type 0
Fits (portable bytes) permit = Unit
Fits (managed buffer start stop) permit =
    (start ≤ stop) × (stop ≤ length buffer) × (permit ≡ some false)

-- A sound buffer fits, and retains no more than its bound.
pub record IsSound (b : RecvBuffer) : Type 0 where
  pub fits : Fits b.storage b.permit
  pub bounded : length (bytes b) ≤ b.max_retained
  pub ordered : b.preferred_read ≤ b.max_retained
  pub asks : 1 ≤ b.preferred_read

pub same_count {ℓ} : {A : Type ℓ} (m n : ℕ) (xs : List A) → m ≡ n → take m xs ≡ take n xs
same_count m n xs h = ap (λ k. take k xs) h

pub drop-take {ℓ} :
    {A : Type ℓ} (m n : ℕ) (xs : List A) → drop m (take n xs) ≡ take (n - m) (drop m xs)
drop-take zero n xs = same_count n (n - 0) xs (omega arith)
drop-take (suc m) zero xs = same_count 0 (0 - suc m) (drop (suc m) xs) (omega arith)
drop-take (suc m) (suc n) [] = sym (take-nil (suc n - suc m))
drop-take (suc m) (suc n) (x ∷ xs) =
    drop-take m n xs ∙ same_count (n - m) (suc n - suc m) (drop m xs) (omega arith)

pub range-range :
    (buffer : Bytes) (start stop from to : ℕ)
    → to ≤ stop - start
    → range (range buffer start stop) from to ≡ range buffer (start + from) (start + to)
range-range buffer start stop from to within =
    ap (take (to - from)) (drop-take from (stop - start) (drop start buffer))
    ∙ take-take_le (to - from) (stop - start - from) (drop from (drop start buffer)) (omega arith)
    ∙ ap (take (to - from)) (drop-drop start from buffer)
    ∙ same_count (to - from) (start + to - (start + from)) (drop (start + from) buffer)
        (omega arith)

pub drop-range :
    (buffer : Bytes) (start stop count : ℕ)
    → drop count (range buffer start stop) ≡ range buffer (start + count) stop
drop-range buffer start stop count =
    drop-take count (stop - start) (drop start buffer)
    ∙ ap (take (stop - start - count)) (drop-drop start count buffer)
    ∙ same_count (stop - start - count) (stop - (start + count)) (drop (start + count) buffer)
        (omega arith)

pub length-range :
    (buffer : Bytes) (start stop : ℕ)
    → stop ≤ length buffer
    → length (range buffer start stop) ≡ stop - start
length-range buffer start stop within =
    omega (arith, length-take (stop - start) (drop start buffer), length-drop start buffer)

pub empty_range : (buffer : Bytes) (start : ℕ) → range buffer start start ≡ []
empty_range buffer start = same_count (start - start) 0 (drop start buffer) (omega arith)

-- A storage behind a front of `count` bytes.
pub advance-Fits :
    (count : ℕ) (s : ReceiveStorage) (permit : Option Bool)
    → Fits s permit
    → count ≤ length (storage_bytes s)
    → Fits (compacted (advance count s)) permit
      × (storage_bytes (compacted (advance count s)) ≡ drop count (storage_bytes s))
unfolding compacted advance storage_bytes
advance-Fits count (portable bytes) permit fits within = (tt, refl)
advance-Fits count (managed buffer start stop) permit (le, inside, free) within =
    let size = length-range buffer start stop inside in
    elim (Bool-cases (start + count == stop)) [
      | inl empty ↦
          let same : start + count ≡ stop = (==_iff (start + count) stop).0 empty in
          rw empty
            (tt, sym (drop-range buffer start stop count ∙ (rw same (empty_range buffer stop))))
      | inr more ↦ rw more (
        (omega (arith, size, within, le), inside, free),
        sym (drop-range buffer start stop count),
      )
    ]

-- What is behind a front of the input is sound too.
pub shorter-IsSound :
    (b : RecvBuffer) (s : ReceiveStorage) (permit : Option Bool) (count : ℕ)
    → IsSound b
    → Fits s permit
    → storage_bytes s ≡ drop count (bytes b)
    → IsSound (record b { storage = s; permit = permit })
unfolding bytes
shorter-IsSound b s permit count sound fits same = record {
  fits = fits;
  bounded = omega (arith, sound.bounded, ap length same, length-drop count (bytes b));
  ordered = sound.ordered;
  asks = sound.asks;
}

-- To consume a front of the input is to drop it.
pub consume-drops :
    (count : ℕ) (b : RecvBuffer)
    → IsSound b
    → count ≤ length (bytes b)
    → (b' : RecvBuffer) × (consume count b ≡ (b', ok tt))
      × (bytes b' ≡ drop count (bytes b))
      × IsSound b'
unfolding consume bytes
consume-drops count b sound within =
    let (fits, same) = advance-Fits count b.storage b.permit sound.fits within in
    (
      with_storage b (compacted (advance count b.storage)),
      ground arith,
      same,
      shorter-IsSound b (compacted (advance count b.storage)) b.permit count sound fits same,
    )
