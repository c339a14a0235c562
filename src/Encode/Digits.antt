-- ===== src/Encode/Digits.antt =====
-- The prefix of a chunk reads back as its length.
use vakya.Prelude.{
  ℕ, zero, suc, ◌+◌, ◌/◌, ◌%◌, ◌≤◌, ◌<◌, ◌≡◌, refl, sym, ap, ◌∙◌, ◌≢◌, inl, inr, false, [], ◌∷◌,
  ◌++◌, append-nil, arith, ◌==◌, if◌then◌else◌, ==_iff, Bool-cases, length, All, Bytes, u64_max, ok,
}
use vakya.Chunk.{position, parse_size_line}
use vakya.Chunk.Extensions.{validate_extensions_nil}
use vakya.Chunk.Size.{parse_size_line-SizeLine}
use vakya.Chunk.Hex.{IsHexDigit, digit_value, hex_value, IsHex}
use vakya.Encode.Stream.{hex_digit, bit_len, write_digits, prefix_digits, chunk_prefix}
use vakya.Decode.Reach.{crlf}

-- `count` hexadecimal digits are enough for `n`.
abbrev Fits : (count n : ℕ) → Type 0
Fits zero n = n ≡ 0
Fits (suc count) n = Fits count (n / 16)

abbrev four : ℕ → ℕ
four zero = zero
four (suc k) = suc (suc (suc (suc (four k))))

bit_len_zero : (w : ℕ) → bit_len w 0 ≡ 0
unfolding bit_len
bit_len_zero zero = refl
bit_len_zero (suc w) = refl

bit_len_step :
    (w n : ℕ)
    → (bit_len (suc (suc (suc (suc w)))) n + 3) / 4
      ≡ (if n == 0 then 0 else suc ((bit_len w (n / 16) + 3) / 4))
unfolding bit_len
bit_len_step w n =
    let same : bit_len w (n / 2 / 2 / 2 / 2) ≡ bit_len w (n / 16) = ap (bit_len w) (omega arith) in
    let none_left : (n / 16 ≡ 0) → bit_len w (n / 16) ≡ 0 =
      λ e. ap (bit_len w) e ∙ bit_len_zero w in
    ground arith

digit_value-hex_digit : (v : ℕ) → v < 16 → digit_value (hex_digit v) ≡ v
digit_value-hex_digit v h = ground arith

hex_digit-IsHex : (v : ℕ) → v < 16 → IsHexDigit (hex_digit v)
hex_digit-IsHex v h = ground arith

hex_value-write_digits :
    (count n : ℕ) (behind : Bytes)
    → Fits count n
    → hex_value 0 (write_digits count n behind) ≡ hex_value n behind
unfolding write_digits
hex_value-write_digits zero n behind h = ap (λ k. hex_value k behind) (sym h)
hex_value-write_digits (suc count) n behind h =
    hex_value-write_digits count (n / 16) (hex_digit (n % 16) ∷ behind) h
    ∙ ap (λ k. hex_value k behind) (omega (arith, digit_value-hex_digit (n % 16) (omega arith)))

write_digits-append :
    (count n : ℕ) (xs ys : Bytes) → write_digits count n (xs ++ ys) ≡ write_digits count n xs ++ ys
unfolding write_digits
write_digits-append zero n xs ys = refl
write_digits-append (suc count) n xs ys =
    write_digits-append count (n / 16) (hex_digit (n % 16) ∷ xs) ys

write_digits-IsHex :
    (count n : ℕ) (behind : Bytes) → IsHex behind → IsHex (write_digits count n behind)
unfolding write_digits
write_digits-IsHex zero n behind h = h
write_digits-IsHex (suc count) n behind h =
    write_digits-IsHex count (n / 16) (hex_digit (n % 16) ∷ behind)
      (hex_digit-IsHex (n % 16) (omega arith), h)

length-write_digits :
    (count n : ℕ) (behind : Bytes) → length (write_digits count n behind) ≡ count + length behind
unfolding write_digits
length-write_digits zero n behind = omega arith
length-write_digits (suc count) n behind =
    omega (arith, length-write_digits count (n / 16) (hex_digit (n % 16) ∷ behind))

rounds_fit : (k n : ℕ) → Fits k n → Fits ((bit_len (four k) n + 3) / 4) n
unfolding bit_len
rounds_fit zero n h = h
rounds_fit (suc k) n h = rw (bit_len_step (four k) n) (elim (Bool-cases (n == 0)) [
  | inl e ↦ rw e ((==_iff n 0).0 e)
  | inr e ↦ rw e (rounds_fit k (n / 16) h)
])

prefix_digits-Fits : (n : ℕ) → n ≤ u64_max → Fits (prefix_digits n) n
unfolding prefix_digits
prefix_digits-Fits n h = rounds_fit 16 n (omega arith)

position_absent :
    (wanted : ℕ) (bs : Bytes) → All (λ b. (b == wanted) ≡ false) bs → position wanted bs ≡ length bs
unfolding position
position_absent wanted [] h = refl
position_absent wanted (b ∷ bs) h = ground (arith, position_absent wanted bs h.1)

prefix_some : (n : ℕ) → n ≢ 0 → 1 ≤ prefix_digits n
unfolding prefix_digits bit_len
prefix_some n h = ground arith

-- A size line that is nothing but digits.
pub digits-parse :
    (text : Bytes)
    → text ≢ []
    → IsHex text
    → hex_value 0 text ≤ u64_max
    → parse_size_line text ≡ ok (hex_value 0 text)
digits-parse text some_digit digits fits =
    (parse_size_line-SizeLine text (hex_value 0 text)).1 record {
      text = text;
      blank = [];
      extensions = [];
      splits = sym (append-nil (text ++ []) ∙ append-nil text);
      some_digit = some_digit;
      digits = digits;
      is_blank = tt;
      opens = tt;
      valid = validate_extensions_nil;
      value = refl;
      fits = fits;
    }

-- A size line for `n` and a line end, within the capacity of `InlineBuf`.
pub record ChunkPrefix (n : ℕ) (prefix : Bytes) : Type 0 where
  pub line : Bytes
  pub splits : prefix ≡ line ++ crlf
  pub parsed : parse_size_line line ≡ ok n
  pub hex_line : IsHex line
  pub capacity : length prefix ≤ 18

bit_len_le : (w n : ℕ) → bit_len w n ≤ w
unfolding bit_len
bit_len_le zero n = omega arith
bit_len_le (suc w) n = ground (arith, bit_len_le w (n / 2))

digits_bound : (n : ℕ) → prefix_digits n ≤ 16
unfolding prefix_digits
digits_bound n = omega (arith, bit_len_le 64 n)

-- The prefix of a chunk of `n` bytes, at least one and at most 2^64 - 1, is a size line that reads
-- back as `n` and a line end, and no longer than the 18 bytes that `InlineBuf` holds for it.
pub chunk_prefix-ChunkPrefix : (n : ℕ) → n ≢ 0 → n ≤ u64_max → ChunkPrefix n (chunk_prefix n)
unfolding chunk_prefix
chunk_prefix-ChunkPrefix n nonzero fits =
    let line = write_digits (prefix_digits n) n [] in
    let value = hex_value-write_digits (prefix_digits n) n [] (prefix_digits-Fits n fits) in
    let counted = length-write_digits (prefix_digits n) n [] in
    record {
      line = line;
      splits = write_digits-append (prefix_digits n) n [] crlf;
      hex_line = write_digits-IsHex (prefix_digits n) n [] tt;
      parsed =
          digits-parse line
            (λ e. absurd (omega (arith, ap length e, counted, prefix_some n nonzero)))
            (write_digits-IsHex (prefix_digits n) n [] tt) (omega (arith, value))
          ∙ ap ok value;
      capacity = omega (arith, length-write_digits (prefix_digits n) n crlf, digits_bound n);
    }
