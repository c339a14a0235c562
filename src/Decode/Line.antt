-- ===== src/Decode/Line.antt =====
-- The decoder's search finds a line of plain bytes, and reads it.
use vakya.Prelude.{
  ℕ, suc, ◌+◌, ◌-◌, ◌≤◌, ◌≡◌, refl, ap, ◌∙◌, true, false, [], ◌∷◌, ◌++◌, append_assoc, arith, ltb,
  ◌==◌, length, take, length-append, take-append_len, Bytes, ok,
}
use vakya.Chunk.{position, parse_size_line}
use vakya.Chunk.Hex.{IsHexDigit, IsHex}
use vakya.Decode.Scan.{byte_is, after_byte, found, line_scan}
use vakya.Decode.Input.{BodyDecoder, whole, charge_extensions, line_at, parse_chunk_line}
use vakya.Decode.Reach.{crlf}

byte_is-append :
    (byte c : ℕ) (before behind : Bytes)
    → byte_is byte (before ++ (c ∷ behind)) (length before) ≡ (c == byte)
unfolding byte_is
byte_is-append byte c [] behind = refl
byte_is-append byte c (b ∷ bs) behind = byte_is-append byte c bs behind

byte_is-next :
    (byte c d : ℕ) (before behind : Bytes)
    → byte_is byte (before ++ (c ∷ d ∷ behind)) (suc (length before)) ≡ (d == byte)
unfolding byte_is
byte_is-next byte c d [] behind = refl
byte_is-next byte c d (b ∷ bs) behind = byte_is-next byte c d bs behind

after_byte-append :
    (byte c : ℕ) (before behind : Bytes)
    → after_byte byte (before ++ (c ∷ behind)) (suc (length before)) ≡ (c == byte)
unfolding after_byte
after_byte-append byte c before behind = byte_is-append byte c before behind

line_scan-step :
    (input : Bytes) (rounds index : ℕ)
    → byte_is b'\n' input index ≡ false
    → after_byte b'\r' input index ≡ false
    → line_scan input (suc rounds) index ≡ line_scan input rounds (suc index)
unfolding line_scan
line_scan-step input rounds index feed return = rw (line_scan, feed, return) refl

line_scan-found :
    (input : Bytes) (rounds index : ℕ)
    → byte_is b'\n' input index ≡ true
    → after_byte b'\r' input index ≡ true
    → line_scan input (suc rounds) index ≡ found index
unfolding line_scan
line_scan-found input rounds index feed return = rw (line_scan, feed, return) refl

hex_byte :
    (b : ℕ) → IsHexDigit b → ((b == b'\r') ≡ false) × ((b == b'\n') ≡ false) × ((b == b';') ≡ false)
hex_byte b h = (ground arith, ground arith, ground arith)

-- From the end of `before` on, over a line of digits.
scan_digits :
    (line before rest : Bytes) (rounds : ℕ)
    → IsHex line
    → after_byte b'\r' (before ++ (line ++ (crlf ++ rest))) (length before) ≡ false
    → line_scan (before ++ (line ++ (crlf ++ rest))) (length line + 2 + rounds) (length before)
      ≡ found (length before + length line + 1)
scan_digits [] before rest rounds hex_line return =
    let input = before ++ (crlf ++ rest) in
    ap (λ k. line_scan input k (length before)) {x = 2 + rounds} {y = suc (suc rounds)}
      (omega arith)
    ∙ line_scan-step input (suc rounds) (length before)
        (byte_is-append b'\n' b'\r' before (b'\n' ∷ rest)) return
    ∙ line_scan-found input rounds (suc (length before))
        (byte_is-next b'\n' b'\r' b'\n' before rest)
        (after_byte-append b'\r' b'\r' before (b'\n' ∷ rest))
    ∙ ap found (omega arith)
scan_digits (b ∷ bs) before rest rounds (first, others) return =
    let input = before ++ (b ∷ (bs ++ (crlf ++ rest))) in
    let (no_return, no_feed, _) = hex_byte b first in
    let same = append_assoc before (b ∷ []) (bs ++ (crlf ++ rest)) in
    let grown : length (before ++ (b ∷ [])) ≡ suc (length before) =
      omega (arith, length-append before (b ∷ [])) in
    let behind = after_byte-append b'\r' b before (bs ++ (crlf ++ rest)) ∙ no_return in
    let later =
      rw (same, grown) at
        (scan_digits bs (before ++ (b ∷ [])) rest rounds others (rw (same, grown) behind)) in
    ap (λ k. line_scan input k (length before)) {y = suc (length bs + 2 + rounds)} (omega arith)
    ∙ line_scan-step input (length bs + 2 + rounds) (length before)
        (byte_is-append b'\n' b before (bs ++ (crlf ++ rest)) ∙ no_feed) return
    ∙ later
    ∙ ap found (omega arith)

no_extension : (line : Bytes) → IsHex line → position b';' line ≡ length line
unfolding position
no_extension [] hex_line = refl
no_extension (b ∷ bs) (first, others) =
    let (_, _, no_semicolon) = hex_byte b first in rw no_semicolon (ap suc (no_extension bs others))

uncharged : (d : BodyDecoder) (line : Bytes) → IsHex line → charge_extensions d line ≡ ok d
unfolding charge_extensions
uncharged d line hex_line =
    let all_of_it : (position b';' line == length line) ≡ true =
      ground (arith, no_extension line hex_line) in
    rw all_of_it refl

line_at-whole :
    (d : BodyDecoder) (line rest : Bytes) (size : ℕ)
    → IsHex line
    → parse_size_line line ≡ ok size
    → length line + 2 ≤ d.limits.max_chunk_line_bytes
    → line_at d (line ++ (crlf ++ rest)) (length line + 1) ≡ ok (whole size (length line + 2) d)
unfolding line_at
line_at-whole d line rest size hex_line parsed fits =
    let text : take (length line + 1 - 1) (line ++ (crlf ++ rest)) ≡ line =
      take-append_len (length line + 1 - 1) line (crlf ++ rest) (omega arith) in
    let short : ltb d.limits.max_chunk_line_bytes (length line + 1 + 1) ≡ false = ground arith in
    rw (short, text, parsed, uncharged d line hex_line)
      (ap (λ n. ok (whole size n d)) (omega arith))

-- A size line of digits in front of anything is read as a whole.
pub parse_chunk_line-digits :
    (d : BodyDecoder) (line rest : Bytes) (size : ℕ)
    → IsHex line
    → parse_size_line line ≡ ok size
    → length line + 2 ≤ d.limits.max_chunk_line_bytes
    → parse_chunk_line d (line ++ (crlf ++ rest)) 0 ≡ ok (whole size (length line + 2) d)
unfolding parse_chunk_line after_byte
parse_chunk_line-digits d line rest size hex_line parsed fits =
    let input = line ++ (crlf ++ rest) in
    let start : ltb (length input) 0 ≡ false = ground arith in
    let at : line_scan input (length input - 0) 0 ≡ found (length line + 1) =
      ap (λ k. line_scan input k 0) {y = length line + 2 + length rest}
        (omega (arith, length-append line (crlf ++ rest)))
      ∙ scan_digits line [] rest (length rest) hex_line refl
      ∙ ap found (omega arith) in
    rw (parse_chunk_line, start, at) (line_at-whole d line rest size hex_line parsed fits)
