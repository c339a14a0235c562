-- ===== src/Encode/Writer.antt =====
-- What the writes of heads and trailers add to a writer.
use vakya.Prelude.{
  ℕ, ◌+◌, ◌≤◌, ◌≡◌, refl, sym, ap, ◌∙◌, inl, inr, Bool, true, false, Option, none, some, List, [],
  ◌∷◌, ◌++◌, append-nil, append_assoc, arith, ltb, ◌==◌, Bool-cases, Option-cases, length,
  length-append, Bytes, ok, >>=-eq-ok, ok-inj,
}
use vakya.Http.{Http, HeaderName}
use vakya.Chunk.{checked}
use vakya.Encode.{BoundedWriter, append_bytes, push, push_title_case, title_case, write_header_name}
use vakya.Encode.Fields.{
  write_line, write_values, write_keys, write_pairs, write_headers, first_of, rest_of,
}
use vakya.Encode.Heads.{push_all}

-- `w'` has what `w` had and more, within the same limit.
pub record Grows (w w' : BoundedWriter) : Type 0 where
  pub more : Bytes
  pub grown : w'.bytes ≡ w.bytes ++ more
  pub same_limit : w'.limit_bytes ≡ w.limit_bytes
  pub within : length w.bytes ≤ w.limit_bytes → length w'.bytes ≤ w'.limit_bytes

pub Grows-refl : (w : BoundedWriter) → Grows w w
Grows-refl w = record {
  more = [];
  grown = sym (append-nil w.bytes);
  same_limit = refl;
  within = λ h. h;
}

pub Grows-trans : {u v w : BoundedWriter} → Grows u v → Grows v w → Grows u w
Grows-trans {u} {v} {w} a b = record {
  more = a.more ++ b.more;
  grown = b.grown ∙ ap (λ bs. bs ++ b.more) a.grown ∙ append_assoc u.bytes a.more b.more;
  same_limit = b.same_limit ∙ a.same_limit;
  within = λ h. b.within (a.within h);
}

pub appended :
    (w w' : BoundedWriter) (count : ℕ) (value : Bytes)
    → append_bytes w count value ≡ ok w'
    → (record w { bytes = w.bytes ++ value } ≡ w') × (length w.bytes + count ≤ w.limit_bytes)
unfolding append_bytes
appended w w' count value h = elim (Option-cases (checked (length w.bytes + count))) [
  | inl over ↦ absurd (let k = rw (append_bytes, over) at h in cc)
  | inr (total, sum) ↦ elim (Bool-cases (ltb w.limit_bytes total)) [
    | inl over ↦ absurd (let k = rw (append_bytes, sum, over) at h in cc)
    | inr fits ↦ (
      ok-inj (record w { bytes = w.bytes ++ value }) w' (rw (append_bytes, sum, fits) at h),
      ground arith,
    )
  ]
]

append_bytes-Grows :
    (w w' : BoundedWriter) (count : ℕ) (value : Bytes)
    → length value ≡ count
    → append_bytes w count value ≡ ok w'
    → Grows w w'
append_bytes-Grows w w' count value counted h =
    let (same, fits) = appended w w' count value h in
    rw (← same) (record {
      more = value;
      grown = refl;
      same_limit = refl;
      within = λ _. omega (arith, length-append w.bytes value);
    })

length-title_case :
    (capitalize : Bool) (value : Bytes) → length (title_case capitalize value) ≡ length value
unfolding title_case
length-title_case capitalize [] = refl
length-title_case capitalize (b ∷ bs) = omega (arith, length-title_case (b == b'-') bs)

pub push-Grows : (w w' : BoundedWriter) (value : Bytes) → push w value ≡ ok w' → Grows w w'
unfolding push
push-Grows w w' value h = append_bytes-Grows w w' (length value) value refl h

name-Grows :
    (w w' : BoundedWriter) (name : Bytes) (original : Option Bytes) (title : Bool)
    → write_header_name w name original title ≡ ok w'
    → Grows w w'
unfolding write_header_name push_title_case
name-Grows w w' name (some original) title h = push-Grows w w' original h
name-Grows w w' name none true h =
    append_bytes-Grows w w' (length name) (title_case true name) (length-title_case true name) h
name-Grows w w' name none false h = push-Grows w w' name h

line-Grows :
    (w w' : BoundedWriter) (name : Bytes) (spelling : Option Bytes) (title : Bool) (value : Bytes)
    → write_line w name spelling title value ≡ ok w'
    → Grows w w'
unfolding write_line
line-Grows w w' name spelling title value h =
    let (a, ha, h1) = >>=-eq-ok (write_header_name w name spelling title) _ h in
    let (b, hb, h2) = >>=-eq-ok (push a (b':' ∷ b' ' ∷ [])) _ h1 in
    let (c, hc, h3) = >>=-eq-ok (push b value) _ h2 in
    Grows-trans (name-Grows w a name spelling title ha) (
      Grows-trans (push-Grows a b _ hb)
        (Grows-trans (push-Grows b c value hc) (push-Grows c w' _ h3)))

values-Grows :
    (w w' : BoundedWriter) (name : Bytes) (spellings : List Bytes) (title : Bool)
    (values : List Bytes)
    → write_values w name spellings title values ≡ ok w'
    → Grows w w'
unfolding write_values
values-Grows w w' name spellings title [] h = rw (← ok-inj w w' h) (Grows-refl w)
values-Grows w w' name spellings title (value ∷ values) h =
    let (next, first, later) = >>=-eq-ok (write_line w name (first_of spellings) title value) _ h in
    Grows-trans (line-Grows w next name _ title value first)
      (values-Grows next w' name (rest_of spellings) title values later)

pub push_all-Grows :
    (w w' : BoundedWriter) (parts : List Bytes) → push_all w parts ≡ ok w' → Grows w w'
unfolding push_all
push_all-Grows w w' [] h = rw (← ok-inj w w' h) (Grows-refl w)
push_all-Grows w w' (part ∷ parts) h =
    let (next, first, later) = >>=-eq-ok (push w part) _ h in
    Grows-trans (push-Grows w next part first) (push_all-Grows next w' parts later)

module _ (http : Http) where
  keys-Grows :
      (w w' : BoundedWriter) (fields : http.HeaderMap) (spellings : HeaderName → List Bytes)
      (title : Bool) (names : List HeaderName)
      → write_keys http w fields spellings title names ≡ ok w'
      → Grows w w'
  unfolding write_keys
  keys-Grows w w' fields spellings title [] h = rw (← ok-inj w w' h) (Grows-refl w)
  keys-Grows w w' fields spellings title (name ∷ names) h =
      let (next, first, later) =
        >>=-eq-ok
          (write_values w (http.as_str name) (spellings name) title (http.get_all fields name)) _
          h in
      Grows-trans (values-Grows w next _ _ title _ first)
        (keys-Grows next w' fields spellings title names later)

  pairs-Grows :
      (w w' : BoundedWriter) (title : Bool) (pairs : List (HeaderName × Bytes))
      → write_pairs http w title pairs ≡ ok w'
      → Grows w w'
  unfolding write_pairs
  pairs-Grows w w' title [] h = rw (← ok-inj w w' h) (Grows-refl w)
  pairs-Grows w w' title ((name, value) ∷ pairs) h =
      let (next, first, later) = >>=-eq-ok (write_line w (http.as_str name) none title value) _ h in
      Grows-trans (line-Grows w next _ none title value first)
        (pairs-Grows next w' title pairs later)

  pub write_headers-Grows :
      (w w' : BoundedWriter) (fields : http.HeaderMap) (original : Option (HeaderName → List Bytes))
      (title : Bool)
      → write_headers http w fields original title ≡ ok w'
      → Grows w w'
  unfolding write_headers
  write_headers-Grows w w' fields (some spellings) title h =
      keys-Grows w w' fields spellings title _ h
  write_headers-Grows w w' fields none title h = pairs-Grows w w' title _ h
