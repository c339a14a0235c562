-- ===== src/Encode/Pushed.antt =====
-- The writer writes the lines of a map of fields.
use vakya.Prelude.{
  ◌≡◌, sym, ap, ◌∙◌, Bool, true, false, Option, none, some, List, [], ◌∷◌, ◌++◌, append_assoc,
  append-nil, Bytes, ok, >>=-eq-ok, ok-inj, length,
}
use vakya.Http.{Http, HeaderName}
use vakya.Encode.{BoundedWriter, push, push_title_case, title_case, write_header_name}
use vakya.Encode.Fields.{
  write_line, write_values, write_keys, write_pairs, write_headers, first_of, rest_of,
}
use vakya.Encode.Heads.{push_all}
use vakya.Encode.Writer.{appended}
use vakya.Encode.Lines.{
  FieldLine, joined_lines, spelling, value_lines, pair_lines, key_lines, field_lines,
}

-- A push appends its bytes.
pub push-bytes : (w w' : BoundedWriter) (v : Bytes) → push w v ≡ ok w' → w'.bytes ≡ w.bytes ++ v
unfolding push
push-bytes w w' v h = sym (ap (λ u. u.bytes) (appended w w' (length v) v h).0)

abbrev pub all_parts : List Bytes → Bytes
all_parts [] = []
all_parts (part ∷ parts) = part ++ all_parts parts

pub push_all-bytes :
    (w w' : BoundedWriter) (parts : List Bytes)
    → push_all w parts ≡ ok w'
    → w'.bytes ≡ w.bytes ++ all_parts parts
unfolding push_all
push_all-bytes w w' [] h = ap (λ u. u.bytes) (sym (ok-inj w w' h)) ∙ sym (append-nil w.bytes)
push_all-bytes w w' (part ∷ parts) h =
    let (next, first, later) = >>=-eq-ok (push w part) _ h in
    push_all-bytes next w' parts later
    ∙ ap (λ v. v ++ all_parts parts) (push-bytes w next part first)
    ∙ append_assoc w.bytes part (all_parts parts)

name-bytes :
    (w w' : BoundedWriter) (name : Bytes) (kept : Option Bytes) (title : Bool)
    → write_header_name w name kept title ≡ ok w'
    → w'.bytes ≡ w.bytes ++ spelling name kept title
unfolding write_header_name push_title_case
name-bytes w w' name (some kept) title h = push-bytes w w' kept h
name-bytes w w' name none true h =
    sym (ap (λ u. u.bytes) (appended w w' (length name) (title_case true name) h).0)
name-bytes w w' name none false h = push-bytes w w' name h

line-bytes :
    (w w' : BoundedWriter) (name : Bytes) (kept : Option Bytes) (title : Bool) (value rest : Bytes)
    → write_line w name kept title value ≡ ok w'
    → w'.bytes ++ rest
      ≡ w.bytes ++ (spelling name kept title ++ (b':' ∷ b' ' ∷ (value ++ (b'\r' ∷ b'\n' ∷ rest))))
unfolding write_line
line-bytes w w' name kept title value rest h =
    let (a, ha, h1) = >>=-eq-ok (write_header_name w name kept title) _ h in
    let (b, hb, h2) = >>=-eq-ok (push a (b':' ∷ b' ' ∷ [])) _ h1 in
    let (c, hc, h3) = >>=-eq-ok (push b value) _ h2 in
    rw
      (
        push-bytes c w' (b'\r' ∷ b'\n' ∷ []) h3,
        push-bytes b c value hc,
        push-bytes a b (b':' ∷ b' ' ∷ []) hb,
        name-bytes w a name kept title ha,
      )
      (simp (append_assoc))

module _ (http : Http) where
  pairs-bytes :
      (w w' : BoundedWriter) (title : Bool) (pairs : List (HeaderName × Bytes))
      → write_pairs http w title pairs ≡ ok w'
      → w'.bytes ≡ w.bytes ++ joined_lines (pair_lines http title pairs)
  unfolding write_pairs
  pairs-bytes w w' title [] h = ap (λ u. u.bytes) (sym (ok-inj w w' h)) ∙ sym (append-nil w.bytes)
  pairs-bytes w w' title ((name, value) ∷ pairs) h =
      let (next, first, later) = >>=-eq-ok (write_line w (http.as_str name) none title value) _ h in
      pairs-bytes next w' title pairs later
      ∙ line-bytes w next (http.as_str name) none title value _ first

  values-bytes :
      (w w' : BoundedWriter) (name : HeaderName) (kept : List Bytes) (title : Bool)
      (values : List Bytes) (behind : List FieldLine)
      → write_values w (http.as_str name) kept title values ≡ ok w'
      → w'.bytes ++ joined_lines behind
        ≡ w.bytes ++ joined_lines (value_lines http name kept title values behind)
  unfolding write_values
  values-bytes w w' name kept title [] behind h =
      ap (λ u. u.bytes ++ joined_lines behind) (sym (ok-inj w w' h))
  values-bytes w w' name kept title (value ∷ values) behind h =
      let (next, first, later) =
        >>=-eq-ok (write_line w (http.as_str name) (first_of kept) title value) _ h in
      values-bytes next w' name (rest_of kept) title values behind later
      ∙ line-bytes w next (http.as_str name) (first_of kept) title value _ first

  keys-bytes :
      (w w' : BoundedWriter) (fields : http.HeaderMap) (kept : HeaderName → List Bytes)
      (title : Bool) (names : List HeaderName)
      → write_keys http w fields kept title names ≡ ok w'
      → w'.bytes ≡ w.bytes ++ joined_lines (key_lines http fields kept title names)
  unfolding write_keys
  keys-bytes w w' fields kept title [] h =
      ap (λ u. u.bytes) (sym (ok-inj w w' h)) ∙ sym (append-nil w.bytes)
  keys-bytes w w' fields kept title (name ∷ names) h =
      let (next, first, later) =
        >>=-eq-ok (write_values w (http.as_str name) (kept name) title (http.get_all fields name)) _
          h in
      keys-bytes next w' fields kept title names later
      ∙ values-bytes w next name (kept name) title (http.get_all fields name) _ first

  pub write_headers-bytes :
      (w w' : BoundedWriter) (fields : http.HeaderMap) (original : Option (HeaderName → List Bytes))
      (title : Bool)
      → write_headers http w fields original title ≡ ok w'
      → w'.bytes ≡ w.bytes ++ joined_lines (field_lines http fields original title)
  unfolding write_headers
  write_headers-bytes w w' fields (some kept) title h =
      keys-bytes w w' fields kept title (http.keys fields) h
  write_headers-bytes w w' fields none title h = pairs-bytes w w' title (http.iter fields) h
