-- ===== src/Encode/Lines.antt =====
-- The lines that a map of fields is written as, apart from the writer.
use vakya.Prelude.{
  ◌≡◌, refl, ap, ◌∙◌, inl, inr, Bool, true, false, Option, none, some, List, [], ◌∷◌, ◌++◌,
  if◌then◌else◌, Bool-cases, Bytes,
}
use vakya.Http.{Http, HeaderName, content_length, transfer_encoding}
use vakya.Encode.{title_case}
use vakya.Encode.Fields.{first_of, rest_of}

-- A field on the wire: whose it is, how its name is spelled, and its value.
pub record FieldLine : Type 0 where
  pub name : HeaderName
  pub spelled : Bytes
  pub value : Bytes

-- Name, colon, value, line end; one after the other.
abbrev pub joined_lines : List FieldLine → Bytes
joined_lines [] = []
joined_lines (l ∷ ls) = l.spelled ++ (b':' ∷ b' ' ∷ (l.value ++ (b'\r' ∷ b'\n' ∷ joined_lines ls)))

abbrev pub is_length : HeaderName → Bool
is_length content_length = true
is_length _ = false

abbrev pub is_coding : HeaderName → Bool
is_coding transfer_encoding = true
is_coding _ = false

-- The values of the fields with such a name, in order: of lines, and of pairs.
abbrev pub values_in : (HeaderName → Bool) → List FieldLine → List Bytes
values_in p [] = []
values_in p (l ∷ ls) = if p l.name then l.value ∷ values_in p ls else values_in p ls

abbrev pub picked : (HeaderName → Bool) → List (HeaderName × Bytes) → List Bytes
picked p [] = []
picked p ((name, value) ∷ pairs) = if p name then value ∷ picked p pairs else picked p pairs

-- A spelling that was kept, or the name, with capitals where they are asked for.
abbrev pub spelling : Bytes → (kept : Option Bytes) → (title : Bool) → Bytes
spelling name (some kept) title = kept
spelling name none true = title_case true name
spelling name none false = name

-- The values of one name, in front of `behind`: as pairs, and as lines.
abbrev pub pair_up :
    HeaderName → List Bytes → (behind : List (HeaderName × Bytes)) → List (HeaderName × Bytes)
pair_up name [] behind = behind
pair_up name (v ∷ vs) behind = (name, v) ∷ pair_up name vs behind

module _ (http : Http) where
  abbrev pub value_lines :
      HeaderName
      → (kept : List Bytes) → (title : Bool) → List Bytes
      → (behind : List FieldLine) → List FieldLine
  value_lines name kept title [] behind = behind
  value_lines name kept title (v ∷ vs) behind =
      record { name = name; spelled = spelling (http.as_str name) (first_of kept) title; value = v }
      ∷ value_lines name (rest_of kept) title vs behind

  abbrev pub pair_lines : (title : Bool) → List (HeaderName × Bytes) → List FieldLine
  pair_lines title [] = []
  pair_lines title ((name, v) ∷ pairs) =
      record { name = name; spelled = spelling (http.as_str name) none title; value = v }
      ∷ pair_lines title pairs

  -- All values name by name: as pairs, and as lines with the spellings that were kept.
  abbrev pub key_pairs : http.HeaderMap → List HeaderName → List (HeaderName × Bytes)
  key_pairs fields [] = []
  key_pairs fields (name ∷ names) = pair_up name (http.get_all fields name) (key_pairs fields names)

  abbrev pub key_lines :
      http.HeaderMap
      → (kept : HeaderName → List Bytes) → (title : Bool) → List HeaderName
      → List FieldLine
  key_lines fields kept title [] = []
  key_lines fields kept title (name ∷ names) =
      value_lines name (kept name) title (http.get_all fields name)
        (key_lines fields kept title names)

  abbrev pub field_lines :
      http.HeaderMap
      → (original : Option (HeaderName → List Bytes)) → (title : Bool) → List FieldLine
  field_lines fields none title = pair_lines title (http.iter fields)
  field_lines fields (some kept) title = key_lines fields kept title (http.keys fields)

-- What the crate `http` documents of the iterators of its field map: `iter` yields the values of a
-- name in their order, and `keys` each name once.
pub record Listed (http : Http) : Type 0 where
  pub iter_lengths :
      (fields : http.HeaderMap)
      → picked is_length (http.iter fields) ≡ http.get_all fields content_length
  pub iter_codings :
      (fields : http.HeaderMap)
      → picked is_coding (http.iter fields) ≡ http.get_all fields transfer_encoding
  pub keys_lengths :
      (fields : http.HeaderMap)
      → picked is_length (key_pairs http fields (http.keys fields))
        ≡ http.get_all fields content_length
  pub keys_codings :
      (fields : http.HeaderMap)
      → picked is_coding (key_pairs http fields (http.keys fields))
        ≡ http.get_all fields transfer_encoding

module _ (http : Http) where
  values_in-pair_lines :
      (p : HeaderName → Bool) (title : Bool) (pairs : List (HeaderName × Bytes))
      → values_in p (pair_lines http title pairs) ≡ picked p pairs
  values_in-pair_lines p title [] = refl
  values_in-pair_lines p title ((name, value) ∷ pairs) = elim (Bool-cases (p name)) [
    | inl such ↦ rw such (ap (λ vs. value ∷ vs) (values_in-pair_lines p title pairs))
    | inr other ↦ rw other (values_in-pair_lines p title pairs)
  ]

  values_in-value_lines :
      (p : HeaderName → Bool) (name : HeaderName) (kept : List Bytes) (title : Bool)
      (values : List Bytes) (lines : List FieldLine) (pairs : List (HeaderName × Bytes))
      → values_in p lines ≡ picked p pairs
      → values_in p (value_lines http name kept title values lines)
        ≡ picked p (pair_up name values pairs)
  values_in-value_lines p name kept title [] lines pairs same = same
  values_in-value_lines p name kept title (v ∷ vs) lines pairs same =
      let others = values_in-value_lines p name (rest_of kept) title vs lines pairs same in
      elim (Bool-cases (p name)) [
        | inl such ↦ rw such (ap (λ us. v ∷ us) others)
        | inr other ↦ rw other others
      ]

  values_in-key_lines :
      (p : HeaderName → Bool) (fields : http.HeaderMap) (kept : HeaderName → List Bytes)
      (title : Bool) (names : List HeaderName)
      → values_in p (key_lines http fields kept title names)
        ≡ picked p (key_pairs http fields names)
  values_in-key_lines p fields kept title [] = refl
  values_in-key_lines p fields kept title (name ∷ names) =
      values_in-value_lines p name (kept name) title (http.get_all fields name)
        (key_lines http fields kept title names) (key_pairs http fields names)
        (values_in-key_lines p fields kept title names)

  -- The lines have the values of the map.
  pub lines-lengths :
      Listed http
      → (fields : http.HeaderMap) (original : Option (HeaderName → List Bytes)) (title : Bool)
      → values_in is_length (field_lines http fields original title)
        ≡ http.get_all fields content_length
  lines-lengths listed fields none title =
      values_in-pair_lines is_length title (http.iter fields) ∙ listed.iter_lengths fields
  lines-lengths listed fields (some kept) title =
      values_in-key_lines is_length fields kept title (http.keys fields)
      ∙ listed.keys_lengths fields

  pub lines-codings :
      Listed http
      → (fields : http.HeaderMap) (original : Option (HeaderName → List Bytes)) (title : Bool)
      → values_in is_coding (field_lines http fields original title)
        ≡ http.get_all fields transfer_encoding
  lines-codings listed fields none title =
      values_in-pair_lines is_coding title (http.iter fields) ∙ listed.iter_codings fields
  lines-codings listed fields (some kept) title =
      values_in-key_lines is_coding fields kept title (http.keys fields)
      ∙ listed.keys_codings fields
