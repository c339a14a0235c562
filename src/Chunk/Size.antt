-- ===== src/Chunk/Size.antt =====
-- Which size a chunk line stands for.
use vakya.Prelude.{
  ℕ, suc, ◌≤◌, ◌≡◌, refl, sym, ap, ◌∙◌, ◌≢◌, ◌↔◌, inl, inr, false, not, ◌||◌, [], ◌∷◌, ◌++◌, arith,
  ◌==◌, if◌then◌else◌, ==_iff, Bool-cases, length, take, drop, take-append-drop, take-append_len,
  drop-append_len, All, All-append, Bytes, u64_max, ok, err, ◌>>=◌, >>=-eq-ok,
}
use vakya.Syntax.{is_ows, trim_end}
use vakya.Syntax.Trim.{IsBlank, trim_end_split, trim_end-append}
use vakya.Chunk.{
  invalid_chunk_size, position, all, is_empty, is_hexdigit, fold_hex, validate_extensions,
  parse_size_line,
}
use vakya.Chunk.Hex.{IsHexDigit, IsHex, hex_value, fold_hex_fits, all_hexdigits_iff, fold_hex-eq-ok}

-- No extension, or extensions from their first semicolon on.
abbrev Opens : Bytes → Type 0
Opens [] = Unit
Opens (b ∷ bs) = b ≡ b';'

-- The line `line` gives the chunk size `n`.
pub record SizeLine (line : Bytes) (n : ℕ) : Type 0 where
  pub text : Bytes
  pub blank : Bytes
  pub extensions : Bytes
  pub splits : line ≡ (text ++ blank) ++ extensions
  pub some_digit : text ≢ []
  pub digits : IsHex text
  pub is_blank : IsBlank blank
  pub opens : Opens extensions
  pub valid : validate_extensions extensions ≡ ok tt
  pub value : n ≡ hex_value 0 text
  pub fits : n ≤ u64_max

position_split :
    (line : Bytes)
    → All (λ b. (b == b';') ≡ false) (take (position b';' line) line)
      × Opens (drop (position b';' line) line)
unfolding position
position_split [] = (tt, tt)
position_split (b ∷ bs) = elim (Bool-cases (b == b';')) [
  | inl semicolon ↦ rw semicolon (tt, (==_iff _ _).0 semicolon)
  | inr other ↦ rw other ((other, (position_split bs).0), (position_split bs).1)
]

position-append :
    (before after : Bytes)
    → All (λ b. (b == b';') ≡ false) before
    → Opens after
    → position b';' (before ++ after) ≡ length before
unfolding position
position-append [] [] h o = refl
position-append [] (b ∷ bs) h o = rw o
position-append (b ∷ bs) after (h, hs) o = rw h (ap suc (position-append bs after hs o))

hexdigit_solid : (b : ℕ) → IsHexDigit b → (is_ows b ≡ false) × ((b == b';') ≡ false)
hexdigit_solid b h = ground arith

hex_solid : (v : Bytes) → IsHex v → All (λ b. is_ows b ≡ false) v
hex_solid [] h = tt
hex_solid (b ∷ bs) (h, hs) = ((hexdigit_solid b h).0, hex_solid bs hs)

hex_no_semicolon : (v : Bytes) → IsHex v → All (λ b. (b == b';') ≡ false) v
hex_no_semicolon [] h = tt
hex_no_semicolon (b ∷ bs) (h, hs) = ((hexdigit_solid b h).1, hex_no_semicolon bs hs)

blank_no_semicolon : (v : Bytes) → IsBlank v → All (λ b. (b == b';') ≡ false) v
blank_no_semicolon [] h = tt
blank_no_semicolon (b ∷ bs) (h, hs) = (ground arith, blank_no_semicolon bs hs)

not_empty : (v : Bytes) → v ≢ [] → is_empty v ≡ false
not_empty [] h = absurd (h refl)
not_empty (b ∷ bs) h = refl

-- The extensions start where the line's first semicolon stands.
line_parts :
    (line : Bytes) {n : ℕ} (s : SizeLine line n)
    → (trim_end (take (position b';' line) line) ≡ s.text)
      × (drop (position b';' line) line ≡ s.extensions)
line_parts line s =
    let before = s.text ++ s.blank in
    let none_before =
      All-append _ s.text s.blank (hex_no_semicolon s.text s.digits)
        (blank_no_semicolon s.blank s.is_blank) in
    let at = position-append before s.extensions none_before s.opens in
    rw s.splits (
      ap trim_end (take-append_len _ before s.extensions at)
          ∙ trim_end-append s.text s.blank (hex_solid s.text s.digits) s.is_blank,
      drop-append_len _ before s.extensions at,
    )

SizeLine-parses : (line : Bytes) (n : ℕ) → SizeLine line n → parse_size_line line ≡ ok n
unfolding parse_size_line
SizeLine-parses line n s =
    let (text, extensions) = line_parts line s in
    let fits : hex_value 0 s.text ≤ u64_max = omega (arith, s.value, s.fits) in
    rw
      (
        text,
        extensions,
        not_empty s.text s.some_digit,
        (all_hexdigits_iff s.text).1 s.digits,
        fold_hex_fits 0 s.text s.digits fits,
        s.valid,
      )
      (ap ok (sym s.value))

-- The checks of a line that parses, with the size text and the extensions as variables.
parsed_parts :
    (text extensions : Bytes) (n : ℕ)
    → (if is_empty text || not (all is_hexdigit text)
        then err invalid_chunk_size
        else fold_hex 0 text >>= λ value. validate_extensions extensions >>= λ _. ok value)
      ≡ ok n
    → (text ≢ []) × IsHex text × (validate_extensions extensions ≡ ok tt) × (fold_hex 0 text ≡ ok n)
parsed_parts [] extensions n h = absurd (cc)
parsed_parts (b ∷ bs) extensions n h = elim (Bool-cases (all is_hexdigit (b ∷ bs))) [
  | inr bad ↦ absurd (ground arith)
  | inl digits ↦
      let (value, e, later) = >>=-eq-ok (fold_hex 0 (b ∷ bs)) _ (rw digits at h) in
      let (unit, valid, same) = >>=-eq-ok (validate_extensions extensions) _ later in
      (λ e. cc, (all_hexdigits_iff (b ∷ bs)).0 digits, valid, e ∙ same)
]

parsed-SizeLine : (line : Bytes) (n : ℕ) → parse_size_line line ≡ ok n → SizeLine line n
unfolding parse_size_line
parsed-SizeLine line n h =
    let at = position b';' line in
    let (blank, e, is_blank, ends) = trim_end_split (take at line) in
    let (some_digit, digits, valid, folded) = parsed_parts _ _ n h in
    let (value, fits) = fold_hex-eq-ok _ n digits folded in
    record {
      text = trim_end (take at line);
      blank = blank;
      extensions = drop at line;
      splits = sym (take-append-drop at line) ∙ ap (λ v. v ++ drop at line) e;
      some_digit = some_digit;
      digits = digits;
      is_blank = is_blank;
      opens = (position_split line).1;
      valid = valid;
      value = value;
      fits = fits;
    }

-- A chunk line gives the size `n` exactly when it is hexadecimal digits of either case, at least
-- one, then white space, then nothing or extensions from a semicolon on that `validate_extensions` accepts, and
-- `n` is the number that the digits stand for and fits 64 bits.
pub parse_size_line-SizeLine :
    (line : Bytes) (n : ℕ) → (parse_size_line line ≡ ok n) ↔ SizeLine line n
parse_size_line-SizeLine line n = (parsed-SizeLine line n, SizeLine-parses line n)
