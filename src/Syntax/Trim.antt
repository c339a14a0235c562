-- ===== src/Syntax/Trim.antt =====
-- `trim_ows` takes off the longest runs of white space at both ends and nothing else.
use vakya.Prelude.{
  ℕ, ◌≤◌, arith, length, length-append, ◌≡◌, refl, ap, ◌∙◌, inl, inr, true, false, [], ◌∷◌, ◌++◌,
  Bool-cases, All, Bytes,
}
use vakya.Syntax.{is_ows, keep_unless_blank, trim_start, trim_end, trim_ows}

abbrev pub IsBlank : Bytes → Type 0
IsBlank = All (λ b. is_ows b ≡ true)

-- The text begins and ends with a byte that is no white space, or is empty.
abbrev pub StartsSolid : Bytes → Type 0
StartsSolid [] = Unit
StartsSolid (b ∷ bs) = is_ows b ≡ false

abbrev pub EndsSolid : Bytes → Type 0
EndsSolid [] = Unit
EndsSolid (b ∷ []) = is_ows b ≡ false
EndsSolid (b ∷ c ∷ cs) = EndsSolid (c ∷ cs)

pub record Trimmed (value text : Bytes) : Type 0 where
  pub before : Bytes
  pub after : Bytes
  pub splits : value ≡ before ++ (text ++ after)
  pub before_blank : IsBlank before
  pub after_blank : IsBlank after
  pub starts : StartsSolid text
  pub ends : EndsSolid text

trim_start_split :
    (v : Bytes) → (a : Bytes) × (v ≡ a ++ trim_start v) × IsBlank a × StartsSolid (trim_start v)
unfolding trim_start
trim_start_split [] = ([], refl, tt, tt)
trim_start_split (b ∷ bs) = elim (Bool-cases (is_ows b)) [
  | inl blank ↦
      let (a, e, h, s) = trim_start_split bs in
      rw (blank, trim_start) (b ∷ a, ap (◌∷◌ b) e, (blank, h), s)
  | inr solid ↦ rw (solid, trim_start) ([], refl, tt, solid)
]

keep_split :
    (b : ℕ) (r a : Bytes)
    → IsBlank a
    → EndsSolid r
    → (c : Bytes) × (b ∷ (r ++ a) ≡ keep_unless_blank b r ++ c)
      × IsBlank c
      × EndsSolid (keep_unless_blank b r)
keep_split b [] a h s = elim (Bool-cases (is_ows b)) [
  | inl blank ↦ rw blank (b ∷ a, refl, (blank, h), tt)
  | inr solid ↦ rw solid (a, refl, h, solid)
]
keep_split b (c ∷ cs) a h s = (a, refl, h, s)

pub trim_end_split :
    (v : Bytes) → (a : Bytes) × (v ≡ trim_end v ++ a) × IsBlank a × EndsSolid (trim_end v)
unfolding trim_end
trim_end_split [] = ([], refl, tt, tt)
trim_end_split (b ∷ bs) =
    let (a, e, h, s) = trim_end_split bs in
    let (c, e', h', s') = keep_split b (trim_end bs) a h s in (c, ap (◌∷◌ b) e ∙ e', h', s')

keep-solid : (b : ℕ) (r : Bytes) → is_ows b ≡ false → StartsSolid (keep_unless_blank b r)
keep-solid b [] h = rw h h
keep-solid b (c ∷ cs) h = h

trim_end-StartsSolid : (v : Bytes) → StartsSolid v → StartsSolid (trim_end v)
unfolding trim_end
trim_end-StartsSolid [] h = tt
trim_end-StartsSolid (b ∷ bs) h = keep-solid b (trim_end bs) h

-- `trim_ows` splits its input into white space, the result, and white space, and the result
-- neither begins nor ends with white space.
pub trim_ows-Trimmed : (value : Bytes) → Trimmed value (trim_ows value)
unfolding trim_ows
trim_ows-Trimmed value =
    let (a, e, h, s) = trim_start_split value in
    let (c, e', h', s') = trim_end_split (trim_start value) in
    record {
      before = a;
      after = c;
      splits = e ∙ ap (◌++◌ a) e';
      before_blank = h;
      after_blank = h';
      starts = trim_end-StartsSolid (trim_start value) s;
      ends = s';
    }

keep_solid : (b : ℕ) (r : Bytes) → is_ows b ≡ false → keep_unless_blank b r ≡ b ∷ r
keep_solid b [] h = rw h
keep_solid b (c ∷ cs) h = refl

-- Text with no white space in it stays as it is.
pub trim_end-solid : (v : Bytes) → All (λ b. is_ows b ≡ false) v → trim_end v ≡ v
unfolding trim_end
trim_end-solid [] h = refl
trim_end-solid (b ∷ []) h = rw h.0
trim_end-solid (b ∷ c ∷ cs) h = let e = trim_end-solid (c ∷ cs) h.1 in ap (keep_unless_blank b) e

trim_end-IsBlank : (v : Bytes) → IsBlank v → trim_end v ≡ []
unfolding trim_end
trim_end-IsBlank [] h = refl
trim_end-IsBlank (b ∷ bs) (h, hs) = rw (trim_end-IsBlank bs hs) (rw h)

-- White space behind solid text goes.
pub trim_end-append :
    (v blank : Bytes) → All (λ b. is_ows b ≡ false) v → IsBlank blank → trim_end (v ++ blank) ≡ v
unfolding trim_end
trim_end-append [] blank h hb = trim_end-IsBlank blank hb
trim_end-append (b ∷ bs) blank (h, hs) hb =
    let e = trim_end-append bs blank hs hb in ap (keep_unless_blank b) e ∙ keep_solid b bs h

pub length-trim_ows : (v : Bytes) → length (trim_ows v) ≤ length v
length-trim_ows v =
    let t = trim_ows-Trimmed v in
    omega (
      arith,
      ap length t.splits,
      length-append t.before (trim_ows v ++ t.after),
      length-append (trim_ows v) t.after,
    )

-- Text without white space stays as it is.
pub trim_ows-solid : (v : Bytes) → All (λ b. is_ows b ≡ false) v → trim_ows v ≡ v
unfolding trim_ows trim_start
trim_ows-solid [] h = refl
trim_ows-solid (b ∷ bs) h =
    ap trim_end {x = trim_start (b ∷ bs)} {y = b ∷ bs} (rw (h.0) refl) ∙ trim_end-solid (b ∷ bs) h
