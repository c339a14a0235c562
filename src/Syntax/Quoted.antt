-- ===== src/Syntax/Quoted.antt =====
-- `quoted_string_len` finds the closing quote of the quoted strings of HTTP, and of nothing else.
use vakya.Prelude.{
  ◌⊎◌, ℕ, suc, ◌+◌, ◌≤◌, ◌≡◌, ap, ◌∙◌, inl, inr, ◌↔◌, ==_iff, Bool, true, false, ◌||◌, [], ◌∷◌,
  some, ◌++◌, arith, ◌==◌, Bool-cases, length, length-append, Bytes,
}
use vakya.Syntax.{quoted_scan, quoted_string_len}

-- `qdtext` of RFC 9110, by its codes: tab, space to `~` without the quote and the backslash, and
-- all from 0x80 on.
abbrev pub IsPlain : ℕ → Type 0
IsPlain b =
    (b ≡ 0x09)
    ⊎ ((0x20 ≤ b) × (b ≤ 0x21))
    ⊎ ((0x23 ≤ b) × (b ≤ 0x5b))
    ⊎ ((0x5d ≤ b) × (b ≤ 0x7e))
    ⊎ (0x80 ≤ b)

-- What may stand between the quotes; the flag says that a backslash stands in front.
pub data QuotedText : Bool → Bytes → Type 0 where
  end : QuotedText false []
  plain : {b : ℕ} {bs : Bytes} → IsPlain b → QuotedText false bs → QuotedText false (b ∷ bs)
  escape : {b : ℕ} {bs : Bytes} → b ≡ b'\\' → QuotedText true bs → QuotedText false (b ∷ bs)
  escaped :
      {b : ℕ} {bs : Bytes}
      → (b == b'\r' || b == b'\n') ≡ false
      → QuotedText false bs
      → QuotedText true (b ∷ bs)

pub record Closes (escaped : Bool) (input : Bytes) (len : ℕ) : Type 0 where
  pub text : Bytes
  pub rest : Bytes
  pub splits : input ≡ text ++ (b'"' ∷ rest)
  pub quoted : QuotedText escaped text
  pub counted : len ≡ length text + 1

Closes-cons :
    {e e' : Bool} (b : ℕ) (bs : Bytes) {n : ℕ}
    → Closes e bs n
    → ((text : Bytes) → QuotedText e text → QuotedText e' (b ∷ text))
    → Closes e' (b ∷ bs) (suc n)
Closes-cons b bs c f = record {
  text = b ∷ c.text;
  rest = c.rest;
  splits = ap (◌∷◌ b) c.splits;
  quoted = f c.text c.quoted;
  counted = omega (arith, c.counted);
}

abbrev Found : Bool → ℕ → Bytes → ℕ → Type 0
Found e i bs n = (k : ℕ) × (n ≡ i + k) × Closes e bs k

Found-cons :
    {e e' : Bool} (i b : ℕ) (bs : Bytes) {n : ℕ}
    → Found e (suc i) bs n
    → ((text : Bytes) → QuotedText e text → QuotedText e' (b ∷ text))
    → Found e' i (b ∷ bs) n
Found-cons i b bs (k, h, c) f = (suc k, omega arith, Closes-cons b bs c f)

Found-quote : (i : ℕ) (bs : Bytes) (b n : ℕ) → b ≡ b'"' → n ≡ i + 1 → Found false i (b ∷ bs) n
Found-quote i bs b n e h = (
  1,
  h,
  record { text = []; rest = bs; splits = ap (λ x. x ∷ bs) e; quoted = end; counted = omega arith },
)

quoted_scan-Found :
    (e : Bool) (i : ℕ) (bs : Bytes) {n : ℕ} → quoted_scan e i bs ≡ some n → Found e i bs n
unfolding quoted_scan
quoted_scan-Found true i [] h = absurd (cc)
quoted_scan-Found false i [] h = absurd (cc)
quoted_scan-Found true i (b ∷ bs) h = elim (Bool-cases (b == b'\r' || b == b'\n')) [
  | inl bad ↦ absurd (ground arith)
  | inr fine ↦
      Found-cons i b bs (quoted_scan-Found false (suc i) bs (ground arith)) (λ t q. escaped fine q)
]
quoted_scan-Found false i (b ∷ bs) {n} h = elim (Bool-cases (b == b'\\')) [
  | inl slash ↦
      Found-cons i b bs (quoted_scan-Found true (suc i) bs (ground arith))
        (λ t q. escape ((==_iff _ _).0 slash) q)
  | inr other ↦ elim (Bool-cases (b == b'"')) [
    | inl quote ↦ Found-quote i bs b n ((==_iff _ _).0 quote) (ground arith)
    | inr fine ↦
        Found-cons i b bs (quoted_scan-Found false (suc i) bs (ground arith))
          (λ t q. plain (ground arith) q)
  ]
]

quoted_scan-QuotedText :
    {e : Bool} {text : Bytes} (i : ℕ) (rest : Bytes)
    → QuotedText e text
    → quoted_scan e i (text ++ (b'"' ∷ rest)) ≡ some (i + length text + 1)
unfolding quoted_scan
quoted_scan-QuotedText i rest end = ground arith
quoted_scan-QuotedText i rest (plain h q) = ground (arith, quoted_scan-QuotedText (suc i) rest q)
quoted_scan-QuotedText i rest (escape h q) = ground (arith, quoted_scan-QuotedText (suc i) rest q)
quoted_scan-QuotedText i rest (escaped h q) = ground (arith, quoted_scan-QuotedText (suc i) rest q)

-- What `quoted_string_len` measures behind the first byte: text of a quoted string and its quote.
pub record Measures (input : Bytes) (len : ℕ) : Type 0 where
  pub first : ℕ
  pub text : Bytes
  pub rest : Bytes
  pub splits : input ≡ first ∷ (text ++ (b'"' ∷ rest))
  pub quoted : QuotedText false text
  pub counted : len ≡ length text + 2

measures : (input : Bytes) (len : ℕ) → quoted_string_len input ≡ some len → Measures input len
unfolding quoted_string_len
measures [] len h = absurd (cc)
measures (b ∷ bs) len h =
    let (k, e, c) = quoted_scan-Found false 1 bs h in
    record {
      first = b;
      text = c.text;
      rest = c.rest;
      splits = ap (◌∷◌ b) c.splits;
      quoted = c.quoted;
      counted = omega (arith, c.counted);
    }

Measures-quoted_string_len :
    (input : Bytes) (len : ℕ) → Measures input len → quoted_string_len input ≡ some len
unfolding quoted_string_len
Measures-quoted_string_len input len m =
    rw m.splits (quoted_scan-QuotedText 1 m.rest m.quoted ∙ ap some (omega (arith, m.counted)))

-- `quoted_string_len` answers a length exactly when the input is its first byte, the text of a
-- quoted string, the closing quote, and anything behind it; the length is that of the first three.
-- In the text a backslash stands with the byte behind it, which is any byte but CR and LF; the
-- other bytes are neither quotes nor backslashes nor control bytes, tab excepted.
pub quoted_string_len-Measures :
    (input : Bytes) (len : ℕ) → (quoted_string_len input ≡ some len) ↔ Measures input len
quoted_string_len-Measures input len = (measures input len, Measures-quoted_string_len input len)

pub quoted_string_len_bounds :
    (input : Bytes) (len : ℕ)
    → quoted_string_len input ≡ some len
    → (2 ≤ len) × (len ≤ length input)
quoted_string_len_bounds input len h =
    let m = measures input len h in
    (
      omega (arith, m.counted),
      omega (arith, m.counted, ap length m.splits, length-append m.text (b'"' ∷ m.rest)),
    )
