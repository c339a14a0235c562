-- ===== src/Decode/Reach.antt =====
-- How far the scans of the decoder reach: what they answer lies within their input.
use vakya.Prelude.{
  ℕ, zero, suc, ◌+◌, ◌-◌, ◌≤◌, ◌<◌, min, ◌≡◌, refl, sym, ap, ◌∙◌, ◌≢◌, ◌⊎◌, inl, inr, true, some,
  [], ◌∷◌, ◌++◌, arith, ltb, if◌then◌else◌, ==_iff, Bool-cases, Option-cases, length, take, Bytes,
  ok, >>=-eq-ok,
}
use vakya.Chunk.{parse_size_line}
use vakya.Decode.Scan.{
  LineScan, found, byte_is, after_byte, broken, unfinished, line_scan, trailer_scan,
}
use vakya.Decode.Input.{
  BodyDecoder, charge_extensions, whole, partial, line_at, parse_chunk_line, block_of, trailer_end,
}

pub line_scan-reach :
    (input : Bytes) (rounds index i : ℕ)
    → line_scan input rounds index ≡ found i
    → (index ≤ i)
      × (i < index + rounds)
      × (byte_is b'\n' input i ≡ true)
      × (after_byte b'\r' input i ≡ true)
unfolding line_scan
line_scan-reach input zero index i h = absurd (cc)
line_scan-reach input (suc rounds) index i h =
    ground (arith, line_scan-reach input rounds (suc index) i)

abbrev pub crlf : Bytes
crlf = b'\r' ∷ b'\n' ∷ []

-- The bytes up to a line feed behind a carriage return end in both.
take-crlf :
    (input : Bytes) (i : ℕ)
    → byte_is b'\n' input (suc i) ≡ true
    → byte_is b'\r' input i ≡ true
    → take (suc (suc i)) input ≡ take i input ++ crlf
unfolding byte_is
take-crlf [] i h h' = absurd (cc)
take-crlf (b ∷ []) zero h h' = absurd (cc)
take-crlf (b ∷ c ∷ cs) zero h h' =
    cc (ap (λ x. x ∷ take 1 (c ∷ cs)) ((==_iff _ _).0 h'), ap (λ x. x ∷ []) ((==_iff _ _).0 h))
take-crlf (b ∷ bs) (suc i) h h' = ap (◌∷◌ b) (take-crlf bs i h h')

pub trailer_scan-reach :
    (input : Bytes) (rounds index n : ℕ)
    → trailer_scan input rounds index ≡ some n
    → (index < n) × (n ≤ index + rounds)
unfolding trailer_scan
trailer_scan-reach input zero index n h = absurd (cc)
trailer_scan-reach input (suc rounds) index n h =
    ground (arith, trailer_scan-reach input rounds (suc index) n)

-- The budget for chunk extensions is kept, and the limits are the same.
pub record Within (d d' : BodyDecoder) : Type 0 where
  pub same_limits : d'.limits ≡ d.limits
  pub budget :
      d.extension_bytes ≤ d.limits.max_chunk_extension_bytes
      → d'.extension_bytes ≤ d.limits.max_chunk_extension_bytes
  pub grows : d.extension_bytes ≤ d'.extension_bytes

pub charge-Within :
    (d d' : BodyDecoder) (line : Bytes) → charge_extensions d line ≡ ok d' → Within d d'
unfolding charge_extensions
charge-Within d d' line h = ground arith

pub line_at-reach :
    (d d' : BodyDecoder) (input : Bytes) (i size consumed : ℕ)
    → line_at d input i ≡ ok (whole size consumed d')
    → (consumed ≡ i + 1)
      × (consumed ≤ d.limits.max_chunk_line_bytes)
      × (parse_size_line (take (i - 1) input) ≡ ok size)
      × Within d d'
unfolding line_at
line_at-reach d d' input i size consumed h =
    elim (Bool-cases (ltb d.limits.max_chunk_line_bytes (i + 1))) [
      | inl over ↦ absurd (ground arith)
      | inr fits ↦
          let line = take (i - 1) input in
          let (value, parsed, later) = >>=-eq-ok (parse_size_line line) _ (rw fits at h) in
          let (charged, paid, same) = >>=-eq-ok (charge_extensions d line) _ later in
          (
            ground arith,
            ground arith,
            ground (arith, parsed),
            charge-Within d d' line (ground (arith, paid, same)),
          )
    ]

line_at-ne-partial :
    (d : BodyDecoder) (input : Bytes) (i scanned : ℕ) → line_at d input i ≢ ok (partial scanned)
unfolding line_at
line_at-ne-partial d input i scanned h = ground arith

-- What a chunk line that was read whole tells.
pub record LineRead (d d' : BodyDecoder) (input : Bytes) (size consumed : ℕ) : Type 0 where
  pub taken : consumed ≤ length input
  pub some_byte : 1 ≤ consumed
  pub line_limit : consumed ≤ d.limits.max_chunk_line_bytes
  pub parsed : parse_size_line (take (consumed - 2) input) ≡ ok size
  pub ends : take consumed input ≡ take (consumed - 2) input ++ crlf
  pub within : Within d d'

pub LineScan-cases : (s : LineScan) → ((i : ℕ) × (s ≡ found i)) ⊎ ((s ≡ broken) ⊎ (s ≡ unfinished))
LineScan-cases (found i) = inl (i, refl)
LineScan-cases broken = inr (inl refl)
LineScan-cases unfinished = inr (inr refl)

line_at-LineRead :
    (d d' : BodyDecoder) (input : Bytes) (i size consumed : ℕ)
    → i < length input
    → byte_is b'\n' input i ≡ true
    → after_byte b'\r' input i ≡ true
    → line_at d input i ≡ ok (whole size consumed d')
    → LineRead d d' input size consumed
unfolding after_byte
line_at-LineRead d d' input zero size consumed inside feed return h = absurd (cc)
line_at-LineRead d d' input (suc i) size consumed inside feed return h =
    let (taken, line_limit, parsed, within) = line_at-reach d d' input (suc i) size consumed h in
    let whole_line : suc (suc i) ≡ consumed = omega arith in
    let before : suc i - 1 ≡ consumed - 2 = omega arith in
    let before' : i ≡ consumed - 2 = omega arith in
    record {
      taken = omega arith;
      some_byte = omega arith;
      line_limit = line_limit;
      parsed = ap (λ n. parse_size_line (take n input)) (sym before) ∙ parsed;
      ends =
          ap (λ n. take n input) (sym whole_line)
          ∙ take-crlf input i feed return
          ∙ ap (λ n. take n input ++ crlf) before';
      within = within;
    }

pub parse_chunk_line-LineRead :
    (d d' : BodyDecoder) (input : Bytes) (scanned size consumed : ℕ)
    → parse_chunk_line d input scanned ≡ ok (whole size consumed d')
    → LineRead d d' input size consumed
unfolding parse_chunk_line
parse_chunk_line-LineRead d d' input scanned size consumed h =
    let from = if ltb (length input) scanned then 0 else scanned in
    elim (LineScan-cases (line_scan input (length input - from) from)) [
      | inl (i, e) ↦
          line_at-LineRead d d' input i size consumed
            (ground (arith, line_scan-reach input (length input - from) from i e))
            (line_scan-reach input (length input - from) from i e).2
            (line_scan-reach input (length input - from) from i e).3 (rw (e, parse_chunk_line) at h)
      | inr (inl e) ↦ absurd (cc (rw (e, parse_chunk_line) at h))
      | inr (inr e) ↦ absurd (ground arith)
    ]

pub trailer_end-reach :
    (d : BodyDecoder) (input : Bytes) (scanned bytes : ℕ)
    → trailer_end d input scanned ≡ ok (block_of bytes)
    → (1 ≤ bytes) × (bytes ≤ length input) × (bytes ≤ d.limits.max_trailer_bytes)
unfolding trailer_end
trailer_end-reach d input scanned bytes h =
    let from = if ltb (length input) scanned then 0 else scanned in
    let bounded = min (length input) d.limits.max_trailer_bytes in
    let first = min from bounded in
    elim (Option-cases (trailer_scan input (bounded - first) first)) [
      | inl e ↦ absurd (ground arith)
      | inr (n, e) ↦ ground (arith, trailer_scan-reach input (bounded - first) first n e)
    ]
