-- ===== src/Encode/Planned.antt =====
-- The fields that a plan of the framing leaves.
use vakya.Prelude.{
  ℕ, ◌≤◌, ◌≡◌, refl, ap, ◌∙◌, inl, inr, true, false, Option, none, some, List, [], ◌∷◌, arith, ◌==◌,
  if◌then◌else◌, ==_iff, Bool-cases, length, Bytes, u64_max, ok, map_err, is_some, >>=-eq-ok,
  ok-inj, map_err-eq-ok,
}
use vakya.Message.{BodyMode, fixed, chunked}
use vakya.Body.{exact-eq_some}
use vakya.Http.{Http, Version, content_length, transfer_encoding}
use vakya.Head.{HeadError, for_each_value, for_each_list_member, members_loop, scan_byte, is_token}
use vakya.Head.Framing.{
  TransferFraming, chunked_framing, parse_content_length, parse_transfer_encoding, coding_member,
  coded, split_coding, count_coding, eq_ignore_ascii_case, lower, validate_transfer_parameters,
}
use vakya.Head.Options.{is_http_11}
use vakya.Head.Length.{DecimalText}
use vakya.Head.Decimal.{DecimalText-parse_content_length}
use vakya.Head.Request.{framed, framing_of}
use mathlib.Core.Path.{subst}
use vakya.Encode.{BodyMetadata}
use vakya.Encode.Stream.{has_trailers}
use vakya.Encode.Plan.{
  map_head_error, chunked_value, plain_length, declare_length, set_exact_length, set_chunked,
  plan_fixed, plan_chunked,
}

-- What the crate `http` documents of its field map: a field that was inserted has that value and
-- no other, the other fields stay, a field without values is absent, and a number is written in
-- decimal.
pub record Lawful (http : Http) : Type 0 where
  pub length_set :
      (fields : http.HeaderMap) (v : Bytes)
      → http.get_all (http.insert fields content_length v) content_length ≡ v ∷ []
  pub coding_set :
      (fields : http.HeaderMap) (v : Bytes)
      → http.get_all (http.insert fields transfer_encoding v) transfer_encoding ≡ v ∷ []
  pub coding_kept :
      (fields : http.HeaderMap) (v : Bytes)
      → http.get_all (http.insert fields content_length v) transfer_encoding
        ≡ http.get_all fields transfer_encoding
  pub length_kept :
      (fields : http.HeaderMap) (v : Bytes)
      → http.get_all (http.insert fields transfer_encoding v) content_length
        ≡ http.get_all fields content_length
  pub absent :
      (fields : http.HeaderMap)
      → http.contains_key fields content_length ≡ false
      → http.get_all fields content_length ≡ []
  pub coding_absent :
      (fields : http.HeaderMap)
      → http.contains_key fields transfer_encoding ≡ false
      → http.get_all fields transfer_encoding ≡ []
  pub in_decimal : (n : ℕ) → n ≤ u64_max → DecimalText (http.decimal n) n

-- Both fields parsed.
framing_of-parsed :
    (lengths codings : List Bytes) (version : Version) (length : Option ℕ)
    (coding : Option TransferFraming) (mode : BodyMode)
    → parse_content_length lengths ≡ ok length
    → parse_transfer_encoding codings ≡ ok coding
    → framed length coding version ≡ ok (some mode)
    → framing_of lengths codings version ≡ ok (some mode)
unfolding framing_of
framing_of-parsed lengths codings version length coding mode l c h = rw (l, c) h

chunked_value-parse : parse_transfer_encoding (chunked_value ∷ []) ≡ ok (some chunked_framing)
unfolding parse_transfer_encoding for_each_value for_each_list_member members_loop scan_byte
    coding_member coded split_coding count_coding eq_ignore_ascii_case lower
    validate_transfer_parameters vakya.Syntax.trim_ows is_token vakya.Syntax.is_tchar
    vakya.Chunk.position
chunked_value-parse = refl

no_length : parse_content_length [] ≡ ok none
unfolding parse_content_length for_each_value
no_length = refl

no_coding : parse_transfer_encoding [] ≡ ok none
unfolding parse_transfer_encoding for_each_value coded
no_coding = refl

pub no_framing : (version : Version) → framing_of [] [] version ≡ ok none
unfolding framing_of framed
no_framing version = rw (no_length, no_coding) refl

none_is : {A : Type 0} (o : Option A) → is_some o ≡ false → o ≡ none
none_is none h = refl
none_is (some a) h = absurd (cc)

module _ (http : Http) (lawful : Lawful http) where
  -- The values of a field map give the framing `mode`.
  abbrev pub Gives : http.HeaderMap → Version → BodyMode → Type 0
  Gives fields version mode =
      framing_of (http.get_all fields content_length) (http.get_all fields transfer_encoding)
        version
      ≡ ok (some mode)

  declared-Gives :
      (fields set : http.HeaderMap) (version : Version) (n : ℕ) (declared : Option ℕ)
      → n ≤ u64_max
      → parse_content_length (http.get_all fields content_length) ≡ ok declared
      → parse_transfer_encoding (http.get_all fields transfer_encoding) ≡ ok none
      → declare_length http fields n declared ≡ ok set
      → Gives set version (fixed n)
  unfolding declare_length framed
  declared-Gives fields set version n none fits l c h =
      let same = ok-inj (http.insert fields content_length (http.decimal n)) set h in
      rw (← same) (
        framing_of-parsed _ _ version (some n) none (fixed n)
          (rw (lawful.length_set fields (http.decimal n))
            (DecimalText-parse_content_length (http.decimal n) n (lawful.in_decimal n fits)))
          (rw (lawful.coding_kept fields (http.decimal n)) c) refl)
  declared-Gives fields set version n (some d) fits l c h = elim (Bool-cases (d == n)) [
    | inr differs ↦ absurd (let k = rw differs at h in cc)
    | inl equal ↦
        let same = ok-inj fields set (rw equal at h) in
        rw (← same) (
          framing_of-parsed _ _ version (some n) none (fixed n)
            (l ∙ ap (λ k. ok (some k)) ((==_iff d n).0 equal)) c refl)
  ]

  exact_length-Gives :
      (fields set : http.HeaderMap) (version : Version) (n : ℕ)
      → n ≤ u64_max
      → set_exact_length http fields n ≡ ok set
      → Gives set version (fixed n)
  unfolding set_exact_length
  exact_length-Gives fields set version n fits h =
      let (coding, c, h1) =
        >>=-eq-ok
          (map_err map_head_error (parse_transfer_encoding (http.get_all fields transfer_encoding)))
          _ h in
      elim (Bool-cases (is_some coding)) [
        | inl given ↦ absurd (let k = rw given at h1 in cc)
        | inr not_given ↦
            let (declared, l, h2) =
              >>=-eq-ok
                (map_err map_head_error (parse_content_length (http.get_all fields content_length)))
                _ (rw not_given at h1) in
            declared-Gives fields set version n declared fits
              (map_err-eq-ok map_head_error _ declared l)
              (map_err-eq-ok map_head_error _ coding c ∙ ap ok (none_is coding not_given)) h2
      ]

  coding-Gives :
      (fields : http.HeaderMap) (version : Version) (coding : Option TransferFraming)
      → is_http_11 version ≡ true
      → http.get_all fields content_length ≡ []
      → parse_transfer_encoding (http.get_all fields transfer_encoding) ≡ ok coding
      → Gives
          (if vakya.Head.Framing.is_none coding
            then http.insert fields transfer_encoding chunked_value
            else fields)
          version
          chunked
  unfolding framed
  coding-Gives fields version none new l c =
      framing_of-parsed _ _ version none (some chunked_framing) chunked
        (rw (lawful.length_kept fields chunked_value, l) no_length)
        (rw (lawful.coding_set fields chunked_value) chunked_value-parse) (rw new refl)
  coding-Gives fields version (some chunked_framing) new l c =
      framing_of-parsed _ _ version none (some chunked_framing) chunked (rw l no_length) c
        (rw new refl)

  chunked-Gives :
      (fields set : http.HeaderMap) (version : Version)
      → is_http_11 version ≡ true
      → set_chunked http fields ≡ ok set
      → Gives set version chunked
  unfolding set_chunked
  chunked-Gives fields set version new h =
      elim (Bool-cases (http.contains_key fields content_length)) [
        | inl given ↦ absurd (let k = rw given at h in cc)
        | inr not_given ↦
            let (coding, c, h1) =
              >>=-eq-ok
                (map_err map_head_error
                  (parse_transfer_encoding (http.get_all fields transfer_encoding)))
                _ (rw not_given at h) in
            let same = ok-inj _ set h1 in
            rw (← same) (
              coding-Gives fields version coding new (lawful.absent fields not_given)
                (map_err-eq-ok map_head_error _ coding c))
      ]

  pub fixed-Gives :
      (fields set : http.HeaderMap) (version : Version) (n : ℕ) (mode : BodyMode)
      → n ≤ u64_max
      → plan_fixed http fields n ≡ ok (set, mode)
      → Gives set version mode
  unfolding plan_fixed
  fixed-Gives fields set version n mode fits h =
      let (given, set_ok, made) = >>=-eq-ok (set_exact_length http fields n) _ h in
      let same = ok-inj (given, fixed n) (set, mode) made in
      subst (λ p. Gives p.0 version p.1) same
        (exact_length-Gives fields given version n fits set_ok)

  pub plan_chunked-Gives :
      (fields set : http.HeaderMap) (version : Version) (mode : BodyMode)
      → is_http_11 version ≡ true
      → plan_chunked http fields ≡ ok (set, mode)
      → Gives set version mode
  unfolding plan_chunked
  plan_chunked-Gives fields set version mode new h =
      let (given, set_ok, made) = >>=-eq-ok (set_chunked http fields) _ h in
      let same = ok-inj (given, chunked) (set, mode) made in
      subst (λ p. Gives p.0 version p.1) same (chunked-Gives fields given version new set_ok)

  pub length_fits :
      (metadata : BodyMetadata) (n : ℕ)
      → metadata.size.lower ≤ u64_max
      → plain_length metadata ≡ some n
      → n ≤ u64_max
  unfolding plain_length
  length_fits metadata n fits h = elim (Bool-cases (has_trailers metadata.trailers)) [
    | inl trailers ↦ absurd (let k = rw trailers at h in cc)
    | inr plain ↦ omega (arith, (exact-eq_some metadata.size n (rw plain at h)).0)
  ]
