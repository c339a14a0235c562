-- ===== src/Head/Resume.antt =====
-- The search for the end of a head does not depend on how the input arrives.
use vakya.Prelude.{
  ℕ, suc, ◌+◌, ◌-◌, ◌≤◌, ◌<◌, min, ◌≡◌, refl, sym, ap, ◌∙◌, inl, inr, true, false, Option, none,
  some, [], ◌∷◌, ◌++◌, arith, ltb, leb, Bool-cases, length, take, drop, length-append,
  drop-append_len, take-append_le, take-add, Bytes, Result, ok, err, ok-inj,
}
use vakya.Head.{HeadError, limit}
use vakya.Head.Scan.{
  ScanLine, leading, HeadScan, scanning, complete, default, ends_head, next_line, scan_loop,
  find_end, answer, head_len,
}

-- Go on from where a search stopped.
abbrev resume : HeadScan × Option ℕ → Bytes → HeadScan × Option ℕ
resume (scan, some found) more = (scan, some found)
resume (scanning scanned line, none) more = scan_loop more scanned line
resume (complete found, none) more = (complete found, none)

scan_loop-append :
    (xs ys : Bytes) (scanned : ℕ) (line : ScanLine)
    → scan_loop (xs ++ ys) scanned line ≡ resume (scan_loop xs scanned line) ys
unfolding scan_loop
scan_loop-append [] ys scanned line = refl
scan_loop-append (x ∷ xs) ys scanned line = elim (Bool-cases (ends_head line x)) [
  | inl ends ↦ rw ends refl
  | inr goes_on ↦ rw goes_on (scan_loop-append xs ys (scanned + 1) (next_line line x))
]

-- What a search from `scanned` on over `len` bytes leaves.
abbrev Stops : (scanned len : ℕ) → HeadScan × Option ℕ → Type 0
Stops scanned len (scanning k line, none) = k ≡ scanned + len
Stops scanned len (complete k, some found) =
    (k ≡ found) × (scanned < found) × (found ≤ scanned + len)
Stops scanned len _ = ⊥

scan_loop-Stops :
    (xs : Bytes) (scanned : ℕ) (line : ScanLine)
    → Stops scanned (length xs) (scan_loop xs scanned line)
unfolding scan_loop
scan_loop-Stops [] scanned line = omega arith
scan_loop-Stops (x ∷ xs) scanned line = elim (Bool-cases (ends_head line x)) [
  | inl ends ↦ rw ends (refl, omega arith, omega arith)
  | inr goes_on ↦ rw goes_on (
      later (scan_loop xs (scanned + 1) (next_line line x))
        (scan_loop-Stops xs (scanned + 1) (next_line line x)))
]
  where
    later :
        (r : HeadScan × Option ℕ)
        → Stops (scanned + 1) (length xs) r
        → Stops scanned (suc (length xs)) r
    later (scanning k line, none) h = omega (arith, h)
    later (complete k, some found) h = (h.0, omega (arith, h.1), omega (arith, h.2))
    later (scanning k line, some found) h = absurd h
    later (complete k, none) h = absurd h

find_end-fresh : (xs : Bytes) → find_end default xs ≡ scan_loop xs 0 leading
unfolding find_end
find_end-fresh xs = let from_start : ltb (length xs) 0 ≡ false = ground arith in rw from_start refl

-- What one search found, a search on the same bytes and more finds.
find_end-extended :
    (xs ys : Bytes) (r : HeadScan × Option ℕ)
    → scan_loop xs 0 leading ≡ r
    → Stops 0 (length xs) r
    → find_end r.0 (xs ++ ys) ≡ scan_loop (xs ++ ys) 0 leading
unfolding find_end
find_end-extended xs ys (scanning k line, none) same stops =
    let inside : ltb (length (xs ++ ys)) k ≡ false = ground (arith, length-append xs ys) in
    rw (inside, drop-append_len k xs ys (omega arith))
      (sym (scan_loop-append xs ys 0 leading ∙ ap (λ r. resume r ys) same))
find_end-extended xs ys (complete k, some found) same stops =
    let inside : leb k (length (xs ++ ys)) ≡ true = ground (arith, length-append xs ys) in
    rw inside (
      ap (λ n. (complete k, some n)) stops.0
      ∙ sym (scan_loop-append xs ys 0 leading ∙ ap (λ r. resume r ys) same))
find_end-extended xs ys (scanning k line, some found) same stops = absurd stops
find_end-extended xs ys (complete k, none) same stops = absurd stops

find_end-again :
    (xs ys : Bytes) → find_end (find_end default xs).0 (xs ++ ys) ≡ find_end default (xs ++ ys)
find_end-again xs ys =
    rw (find_end-fresh xs, find_end-fresh (xs ++ ys))
      (find_end-extended xs ys (scan_loop xs 0 leading) refl (scan_loop-Stops xs 0 leading))

-- An answer that is not an error comes from the state that it leaves.
answer-state :
    (max_bytes : ℕ) (input : Bytes) (r : HeadScan × Option ℕ) (scan : HeadScan) (o : Option ℕ)
    → answer max_bytes input r ≡ (scan, ok o)
    → (r.0 ≡ scan) × (r.1 ≡ o)
unfolding answer
answer-state max_bytes input (s, some n) scan o h =
    (ap (λ r. r.0) h, ok-inj (some n) o (ap (λ r. r.1) h))
answer-state max_bytes input (s, none) scan o h = elim (Bool-cases (ltb max_bytes (length input))) [
  | inl over ↦ absurd (
      let k : ◌≡◌ {A = Result HeadError (Option ℕ)} (err (limit vakya.Head.bytes)) (ok o) =
        ap (λ r. r.1) (rw over at h) in
      cc)
  | inr within ↦
      let k : ◌≡◌ {A = HeadScan × Result HeadError (Option ℕ)} (s, ok none) (scan, ok o) =
        rw within at h in
      (ap (λ r. r.0) k, ok-inj none o (ap (λ r. r.1) k))
]

-- However the input arrives, `head_len` answers what it answers to all of it at once: after a
-- call on some bytes that ended without an error, a call on these and more bytes leaves the same
-- state and gives the same answer as a first call on all of them.
pub head_len-resumes :
    (max_bytes : ℕ) (xs ys : Bytes) (scan : HeadScan) (o : Option ℕ)
    → head_len max_bytes default xs ≡ (scan, ok o)
    → head_len max_bytes scan (xs ++ ys) ≡ head_len max_bytes default (xs ++ ys)
unfolding head_len
head_len-resumes max_bytes xs ys scan o h =
    let cut = take (min (length xs) max_bytes) xs in
    let (state, _) = answer-state max_bytes xs (find_end default cut) scan o h in
    let a = min (length xs) max_bytes in
    let b = min (length (xs ++ ys)) max_bytes in
    let more = take (b - a) (drop a (xs ++ ys)) in
    let grown : take b (xs ++ ys) ≡ cut ++ more =
      ap (λ n. take n (xs ++ ys)) (omega (arith, length-append xs ys))
      ∙ take-add a (b - a) (xs ++ ys)
      ∙ ap (λ v. v ++ more) (take-append_le a xs ys (omega arith)) in
    ap (answer max_bytes (xs ++ ys)) (rw (grown, ← state) (find_end-again cut more))
