-- ===== src/Decode/Scan.antt =====
-- src/proto/h1/decode.rs: the scans of `parse_chunk_line` and `trailer_end` for the end of what
-- they parse, which go on where the last scan of the same input stopped.
use vakya.Prelude.{
  ℕ, zero, suc, ◌+◌, ◌-◌, Bool, false, ◌&&◌, ◌||◌, Option, none, some, [], ◌∷◌, leb, ◌==◌,
  if◌then◌else◌, Bytes,
}

-- `input[index] == byte`, for an index within the input.
unfoldable pub byte_is : ℕ → Bytes → ℕ → Bool
byte_is byte [] index = false
byte_is byte (b ∷ bs) zero = b == byte
byte_is byte (b ∷ bs) (suc index) = byte_is byte bs index

-- `index > 0 && input[index - 1] == byte`
unfoldable pub after_byte : ℕ → Bytes → ℕ → Bool
unfolding byte_is
after_byte byte input zero = false
after_byte byte input (suc index) = byte_is byte input index

-- The line feed that ends the line, a byte that may not stand where it does, or neither so far.
pub data LineScan : Type 0 where
  found : (index : ℕ) → LineScan
  broken unfinished : LineScan

-- The loop of `parse_chunk_line`, over the indices from `index` on.
unfoldable pub line_scan : Bytes → (rounds index : ℕ) → LineScan
unfolding byte_is after_byte
line_scan input zero index = unfinished
line_scan input (suc rounds) index =
    let rest = line_scan input rounds (suc index) in
    if byte_is b'\n' input index
    then if after_byte b'\r' input index then found index else broken
    else if after_byte b'\r' input index
    then broken
    else rest

-- The line feed at `index` ends an empty line.
unfoldable pub empty_line : Bytes → ℕ → Bool
unfolding byte_is after_byte
empty_line input index =
    index == 0
    || (index == 1 && byte_is b'\r' input 0)
    || after_byte b'\n' input index
    || (leb 2 index && byte_is b'\n' input (index - 2) && after_byte b'\r' input index)

-- The loop of `trailer_end`, over the indices from `index` on.
unfoldable pub trailer_scan : Bytes → (rounds index : ℕ) → Option ℕ
unfolding byte_is empty_line
trailer_scan input zero index = none
trailer_scan input (suc rounds) index =
    let rest = trailer_scan input rounds (suc index) in
    if byte_is b'\n' input index
    then if empty_line input index then some (index + 1) else rest
    else rest
