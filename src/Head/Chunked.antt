-- ===== src/Head/Chunked.antt =====
-- A member of `Transfer-Encoding` that is the coding `chunked`.
use vakya.Prelude.{
  map, ◌++◌, append-nil, append_assoc, take, drop, take-append-drop, All, All-append, ok-inj, ◌+◌,
  ◌≡◌, refl, sym, ap, ◌∙◌, ◌⊎◌, inl, inr, true, [], ◌∷◌, arith, Bool-cases, Bytes, ok,
}
use vakya.Syntax.{trim_ows}
use vakya.Head.{is_nil}
use vakya.Syntax.Trim.{IsBlank, trim_ows-Trimmed}
use vakya.Chunk.{position}
use vakya.Head.Framing.{lower, same_bytes, split_coding, eq_ignore_ascii_case, chunked_token}

-- The text is a word in lower-case letters, in any case: each letter is the word's, or its
-- upper-case letter, 32 codes below.
abbrev pub Spells : (text word : Bytes) → Type 0
Spells [] [] = Unit
Spells (c ∷ cs) (w ∷ ws) = ((c ≡ w) ⊎ (c + 32 ≡ w)) × Spells cs ws
Spells _ _ = ⊥

-- The member is the word `chunked` in any case between white space, and nothing else: it has no
-- parameters.
pub record IsChunked (member : Bytes) : Type 0 where
  pub before : Bytes
  pub coding : Bytes
  pub after : Bytes
  pub splits : member ≡ before ++ (coding ++ after)
  pub before_blank : IsBlank before
  pub after_blank : IsBlank after
  pub named : Spells coding (b'c' ∷ b'h' ∷ b'u' ∷ b'n' ∷ b'k' ∷ b'e' ∷ b'd' ∷ [])

same_bytes-Spells :
    (text word : Bytes)
    → All (λ w. lower w ≡ w) word
    → same_bytes (map lower text) (map lower word) ≡ true
    → Spells text word
unfolding lower
same_bytes-Spells [] [] lowered h = tt
same_bytes-Spells [] (w ∷ ws) lowered h = absurd (cc)
same_bytes-Spells (c ∷ cs) [] lowered h = absurd (cc)
same_bytes-Spells (c ∷ cs) (w ∷ ws) (low, lowered) h =
    elim (Bool-cases (same_bytes (map lower cs) (map lower ws))) [
      | inl same ↦ (ground arith, same_bytes-Spells cs ws lowered same)
      | inr other ↦ absurd (ground arith)
    ]

eq_ignore_ascii_case-Spells :
    (text : Bytes)
    → eq_ignore_ascii_case text chunked_token ≡ true
    → Spells text (b'c' ∷ b'h' ∷ b'u' ∷ b'n' ∷ b'k' ∷ b'e' ∷ b'd' ∷ [])
unfolding eq_ignore_ascii_case lower
eq_ignore_ascii_case-Spells text h =
    same_bytes-Spells text chunked_token (refl, (refl, (refl, (refl, (refl, (refl, (refl, tt)))))))
      h

-- Where a member has no parameters, its coding is all of it.
split_coding-whole : (m coding : Bytes) → split_coding m ≡ ok (coding, []) → trim_ows m ≡ coding
unfolding split_coding
split_coding-whole m coding h = elim (Bool-cases (is_nil (trim_ows (take (position b';' m) m)))) [
  | inl empty ↦ absurd (let k = rw empty at h in cc)
  | inr some_coding ↦
      let same : ◌≡◌ {A = Bytes × Bytes}
          (trim_ows (take (position b';' m) m), drop (position b';' m) m) (coding, []) =
        ok-inj _ (coding, []) (rw some_coding at h) in
      let all_of_it : take (position b';' m) m ≡ m =
        sym (append-nil (take (position b';' m) m))
        ∙ ap (λ v. take (position b';' m) m ++ v) (sym (ap (λ p. p.1) same))
        ∙ take-append-drop (position b';' m) m in
      ap trim_ows (sym all_of_it) ∙ ap (λ p. p.0) same
]

-- White space around a trimmed member, and around its coding.
pub parts-IsChunked :
    (m coding : Bytes)
    → split_coding (trim_ows m) ≡ ok (coding, [])
    → eq_ignore_ascii_case coding chunked_token ≡ true
    → IsChunked m
parts-IsChunked m coding parts same =
    let outer = trim_ows-Trimmed m in
    let inner = trim_ows-Trimmed (trim_ows m) in
    let whole = split_coding-whole (trim_ows m) coding parts in
    record {
      before = outer.before ++ inner.before;
      coding = coding;
      after = inner.after ++ outer.after;
      splits =
          outer.splits
          ∙ ap (λ v. outer.before ++ (v ++ outer.after))
              (inner.splits ∙ ap (λ v. inner.before ++ (v ++ inner.after)) whole)
          ∙ simp (append_assoc);
      before_blank = All-append _ outer.before inner.before outer.before_blank inner.before_blank;
      after_blank = All-append _ inner.after outer.after inner.after_blank outer.after_blank;
      named = eq_ignore_ascii_case-Spells coding same;
    }
