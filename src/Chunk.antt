-- ===== src/Chunk.antt =====
-- src/proto/h1/decode.rs: the syntax of one chunk-size line, and the decoder's errors.
pub mod Size
pub mod Extensions
pub mod Hex
use vakya.Prelude.{
  ℕ, zero, suc, ◌+◌, ◌-◌, ◌*◌, ◌≡◌, Bool, true, false, not, ◌&&◌, ◌||◌, Option, none, some, List,
  [], ◌∷◌, ltb, leb, ◌==◌, if◌then◌else◌, length, take, drop, get_elem?, min, Bytes, u64_max,
  Result, ok, err, ◌>>=◌, ◌>>◌,
}
use vakya.Syntax.{is_digit, is_tchar, trim_ows, trim_end, token_len, quoted_string_len}

pub data DecodeLimit : Type 0 where
  chunk_line_bytes chunk_extension_bytes trailer_bytes trailers trailer_map : DecodeLimit

pub data DecodeError : Type 0 where
  unexpected_eof invalid_chunk_size invalid_chunk_extension : DecodeError
  invalid_chunk_terminator invalid_trailer forbidden_trailer : DecodeError
  limit : DecodeLimit → DecodeError

-- `position(|byte| *byte == wanted).unwrap_or(len)`
unfoldable pub position : ℕ → Bytes → ℕ
position wanted [] = 0
position wanted (b ∷ bs) = let rest = position wanted bs in if b == wanted then 0 else suc rest

abbrev pub all : (ℕ → Bool) → Bytes → Bool
all p [] = true
all p (b ∷ bs) = p b && all p bs

unfoldable pub is_hexdigit : ℕ → Bool
is_hexdigit b = is_digit b || (leb b'a' b && leb b b'f') || (leb b'A' b && leb b b'F')

-- `hex`, whose last case is unreachable unless `is_hexdigit` holds.
unfoldable pub hex : ℕ → ℕ
hex b =
    if is_digit b
    then b - b'0'
    else if leb b'a' b && leb b b'f'
    then b - b'a' + 10
    else b - b'A' + 10

-- `checked_mul` and `checked_add` of `u64`, on the exact result
abbrev pub checked : ℕ → Option ℕ
checked n = if leb n u64_max then some n else none

-- One round of the `try_fold`, `none` on overflow.
unfoldable pub add_hex_digit : ℕ → ℕ → Option ℕ
add_hex_digit acc digit = elim (checked (acc * 16)) [
  | none ↦ none
  | some scaled ↦ checked (scaled + hex digit)
]

unfoldable pub fold_hex : ℕ → Bytes → Result DecodeError ℕ
unfolding add_hex_digit hex
fold_hex acc [] = ok acc
fold_hex acc (digit ∷ digits) = elim (add_hex_digit acc digit) [
  | none ↦ err invalid_chunk_size
  | some next ↦ fold_hex next digits
]

abbrev pub first_is : ℕ → Bytes → Bool
first_is b [] = false
first_is b (c ∷ cs) = c == b

-- The length of an extension's value, a quoted string or a token.
extension_value : Bytes → Result DecodeError ℕ
unfolding token_len quoted_string_len
extension_value input =
    if first_is b'"' input
    then elim (quoted_string_len input) [ none ↦ err invalid_chunk_extension | some n ↦ ok n ]
    else if token_len input == 0
    then err invalid_chunk_extension
    else ok (token_len input)

-- The check at the end of a round.
after_extension : Bytes → Result DecodeError Bytes
after_extension [] = ok []
after_extension (b ∷ bs) = if b == b';' then ok (b ∷ bs) else err invalid_chunk_extension

-- A round from behind the name of an extension on.
after_name : Bytes → Result DecodeError Bytes
unfolding extension_value after_extension trim_ows
after_name input =
    if first_is b'=' input
    then (let input = trim_ows (drop 1 input) in
        extension_value input >>= λ value. after_extension (trim_ows (drop value input)))
    else after_extension input

-- A round from behind the semicolon on.
after_semicolon : Bytes → Result DecodeError Bytes
unfolding after_name token_len trim_ows
after_semicolon input =
    let name = token_len input in
    if name == 0 then err invalid_chunk_extension else after_name (trim_ows (drop name input))

-- One round of the loop of `validate_extensions`: what is left of the input.
pub extension_round : Bytes → Result DecodeError Bytes
unfolding after_semicolon trim_ows
extension_round given =
    let input = trim_ows given in
    if first_is b';' input
    then after_semicolon (trim_ows (drop 1 input))
    else err invalid_chunk_extension

-- The loop, on fuel.
extension_loop : ℕ → Bytes → Result DecodeError (Unit {0})
unfolding extension_round
extension_loop fuel [] = ok tt
extension_loop zero (b ∷ bs) = err invalid_chunk_extension
extension_loop (suc fuel) (b ∷ bs) = do rest ← extension_round (b ∷ bs); extension_loop fuel rest

-- Each round takes a byte at least, so the length of the input is fuel enough.
unfoldable pub validate_extensions : Bytes → Result DecodeError (Unit {0})
unfolding extension_loop
validate_extensions input = extension_loop (length input) input

abbrev is_empty : Bytes → Bool
is_empty [] = true
is_empty (b ∷ bs) = false

-- The free function `parse_chunk_line`.
unfoldable pub parse_size_line : Bytes → Result DecodeError ℕ
parse_size_line line =
    let extension = position b';' line in
    let size_text = trim_end (take extension line) in
    if is_empty size_text || not (all is_hexdigit size_text)
    then err invalid_chunk_size
    else (do value ← fold_hex 0 size_text; validate_extensions (drop extension line); ok value)
