-- ===== src/Syntax.antt =====
-- src/proto/h1/syntax.rs: optional white space, token characters, quoted strings.
pub mod Trim
pub mod Quoted
use vakya.Prelude.{
  ℕ, suc, ◌+◌, Bool, true, false, not, ◌&&◌, ◌||◌, Option, none, some, List, [], ◌∷◌, ltb, leb,
  ◌==◌, if◌then◌else◌, Bytes,
}

-- `matches!(byte, b' ' | b'\t')`
abbrev pub is_ows : ℕ → Bool
is_ows b = b == b' ' || b == b'\t'

-- The first loop of `trim_ows`.
pub trim_start : Bytes → Bytes
trim_start [] = []
trim_start (b ∷ bs) = let rest = trim_start bs in if is_ows b then rest else b ∷ bs

-- Put a byte that is kept, or white space with something kept behind it, in front of the rest.
abbrev keep_unless_blank : ℕ → Bytes → Bytes
keep_unless_blank b [] = if is_ows b then [] else b ∷ []
keep_unless_blank b (c ∷ cs) = b ∷ c ∷ cs

-- The second loop of `trim_ows`, and `trim_end` of decode.rs: white space goes while it is last,
-- so a byte goes if it is white space and everything behind it goes.
unfoldable pub trim_end : Bytes → Bytes
trim_end [] = []
trim_end (b ∷ bs) = keep_unless_blank b (trim_end bs)

unfoldable pub trim_ows : Bytes → Bytes
unfolding trim_start trim_end
trim_ows value = trim_end (trim_start value)

-- `u8::is_ascii_digit`, and the rest of `u8::is_ascii_alphanumeric`.
abbrev pub is_digit : ℕ → Bool
is_digit b = leb b'0' b && leb b b'9'

abbrev pub is_alphanumeric : ℕ → Bool
is_alphanumeric b = is_digit b || (leb b'a' b && leb b b'z') || (leb b'A' b && leb b b'Z')

unfoldable pub is_tchar : ℕ → Bool
is_tchar b =
    is_alphanumeric b
    || b == b'!'
    || b == b'#'
    || b == b'$'
    || b == b'%'
    || b == b'&'
    || b == 39
    || b == b'*'
    || b == b'+'
    || b == b'-'
    || b == b'.'
    || b == b'^'
    || b == b'_'
    || b == b'`'
    || b == b'|'
    || b == b'~'

-- `take_while(is_tchar).count()`
unfoldable pub token_len : Bytes → ℕ
unfolding is_tchar
token_len [] = 0
token_len (b ∷ bs) = let rest = token_len bs in if is_tchar b then suc rest else 0

-- Bytes that a quoted string may not hold unescaped.
abbrev is_refused : ℕ → Bool
is_refused b = b == b'\r' || b == b'\n' || b == 0x7f || (ltb b 0x20 && not (b == b'\t'))

-- The loop, at `index`, with the `escaped` flag.
pub quoted_scan : Bool → ℕ → Bytes → Option ℕ
quoted_scan escaped index [] = none
quoted_scan true index (b ∷ bs) =
    let rest = quoted_scan false (suc index) bs in if b == b'\r' || b == b'\n' then none else rest
quoted_scan false index (b ∷ bs) =
    let after_escape = quoted_scan true (suc index) bs in
    let rest = quoted_scan false (suc index) bs in
    if b == b'\\'
    then after_escape
    else if b == b'"'
    then some (index + 1)
    else if is_refused b
    then none
    else rest

-- The first byte, the opening quote at each call, is skipped.
unfoldable pub quoted_string_len : Bytes → Option ℕ
unfolding quoted_scan
quoted_string_len [] = none
quoted_string_len (b ∷ bs) = quoted_scan false 1 bs
