-- ===== src/Tests/Sending.antt =====
-- Heads and trailers that are sent.
use vakya.Prelude.{
  ◌++◌, append-nil, Bool, true, List, ℕ, zero, suc, ◌+◌, ◌/◌, ◌%◌, ◌≡◌, refl, sym, ap, ◌∙◌, true,
  false, not, none, some, List, [], ◌∷◌, arith, length, Bytes, ok,
}
use vakya.Syntax.{is_digit}
use vakya.Chunk.{all}
use vakya.Message.{fixed, no_trailers, may_have, until_eof}
use vakya.Http.{http_10, http_11, HeaderName, content_length, transfer_encoding}
use vakya.Head.Length.{decimal_value}
use vakya.Head.Framing.{no_values}
use vakya.Head.Request.{ValidatedRequestHead, framing_of, framed}
use vakya.Head.Response.{response_body}
use vakya.Encode.{BodyMetadata, EncodeConfig}
use vakya.Encode.Stream.{BodyEncoder, chunked_body}
use vakya.Encode.Plan.{
  plan_request_framing, plan_representation_framing, plan_fixed, plan_until_eof,
  reject_framing_headers, set_exact_length, declare_length, plain_length,
}
use vakya.Encode.Planned.{Lawful}
use vakya.Encode.Agreement.{
  plan_request_framing-framing_of, plan_representation_framing-response_body,
}
use vakya.Encode.Fields.{send_trailers}
use vakya.Encode.Heads.{MessagePlan, prepare_request_head}
use vakya.Encode.Limits.{Sent, send_trailers-Sent}
use vakya.Encode.Lines.{is_length, is_coding, picked, pair_up, Listed}
use vakya.Encode.Prepared.{Prepared, prepare_request_head-Prepared}
use vakya.Http.{transfer_encoding, connection, upgrade, host, content_length, HeaderName}
use vakya.Tests.Heads.{
  names, named_pairs, plain_http, put_digits, fields, request, lengths, validated,
}

-- `count` digits are enough for `n`.
abbrev Enough : (count n : ℕ) → Type 0
Enough zero n = n ≡ 0
Enough (suc count) n = Enough count (n / 10)

put_digits-value :
    (count n : ℕ) (behind : Bytes)
    → Enough count n
    → decimal_value 0 (put_digits count n behind) ≡ decimal_value n behind
unfolding put_digits
put_digits-value zero n behind h = ap (λ k. decimal_value k behind) (sym h)
put_digits-value (suc count) n behind h =
    put_digits-value count (n / 10) ((n % 10 + b'0') ∷ behind) h
    ∙ ap (λ k. decimal_value k behind) (omega arith)

put_digits-all :
    (count n : ℕ) (behind : Bytes)
    → all is_digit behind ≡ true
    → all is_digit (put_digits count n behind) ≡ true
unfolding put_digits
put_digits-all zero n behind h = h
put_digits-all (suc count) n behind h =
    let last : is_digit (n % 10 + b'0') ≡ true = ground arith in
    put_digits-all count (n / 10) ((n % 10 + b'0') ∷ behind) (rw last h)

length-put_digits :
    (count n : ℕ) (behind : Bytes) → length (put_digits count n behind) ≡ count + length behind
unfolding put_digits
length-put_digits zero n behind = omega arith
length-put_digits (suc count) n behind =
    omega (arith, length-put_digits count (n / 10) ((n % 10 + b'0') ∷ behind))

absent_values : (values : List Bytes) → not (no_values values) ≡ false → values ≡ []
absent_values [] h = refl
absent_values (v ∷ vs) h = absurd (cc)

plain_http-Lawful : Lawful plain_http
plain_http-Lawful = record {
  length_set = λ fields v. refl;
  coding_set = λ fields v. refl;
  coding_kept = λ fields v. refl;
  length_kept = λ fields v. refl;
  absent = λ fields h. absent_values (fields content_length) h;
  coding_absent = λ fields h. absent_values (fields transfer_encoding) h;
  in_decimal = λ n fits. record {
    some_digit = λ e. absurd (omega (arith, length-put_digits 20 n [], ap length e));
    digits = put_digits-all 20 n [] refl;
    value = sym (put_digits-value 20 n [] (omega arith));
    fits = fits;
  };
}

abbrev three_bytes : BodyMetadata
three_bytes = record { size = record { lower = 3; upper = some 3 }; trailers = no_trailers }

abbrev any_bytes : BodyMetadata
any_bytes = record { size = record { lower = 0; upper = none }; trailers = no_trailers }

planned_three : plan_request_framing plain_http fields http_11 three_bytes ≡ ok (fields, fixed 3)
unfolding plan_request_framing plain_length vakya.Body.exact plan_fixed set_exact_length
    declare_length vakya.Head.Framing.parse_content_length
    vakya.Head.Framing.parse_transfer_encoding vakya.Head.for_each_value
    vakya.Head.for_each_list_member vakya.Head.members_loop vakya.Head.scan_byte
    vakya.Head.Framing.length_member vakya.Head.Framing.length_value vakya.Head.Framing.merge_length
    vakya.Head.Framing.fold_decimal vakya.Head.Framing.coded vakya.Syntax.trim_ows
planned_three = refl

plan_request_framing-framing_of_example : framing_of lengths [] http_11 ≡ ok (some (fixed 3))
plan_request_framing-framing_of_example =
    plan_request_framing-framing_of plain_http plain_http-Lawful fields fields http_11 three_bytes
      (fixed 3) (omega arith) planned_three

abbrev no_framing_fields : HeaderName → List Bytes
no_framing_fields name = []

planned_close :
    plan_representation_framing plain_http no_framing_fields http_10 any_bytes
    ≡ ok (no_framing_fields, until_eof)
unfolding plan_representation_framing plain_length vakya.Body.exact plan_until_eof
    reject_framing_headers
planned_close = refl

plan_representation_framing-response_body_example :
    response_body plain_http false [] [] http_10 ≡ ok until_eof
plan_representation_framing-response_body_example =
    plan_representation_framing-response_body plain_http plain_http-Lawful no_framing_fields
      no_framing_fields http_10 any_bytes until_eof (omega arith) planned_close

abbrev encoder : BodyEncoder
encoder = record {
  state = chunked_body;
  max_trailer_bytes = 64;
  title_case_headers = false;
  remaining_lower = 0;
  remaining_upper = none;
  trailers = may_have;
}

send_trailers-Sent_example :
    Sent plain_http encoder fields (send_trailers plain_http encoder fields)
send_trailers-Sent_example = send_trailers-Sent plain_http encoder fields

abbrev config : EncodeConfig
config = record { max_head_bytes = 64; max_trailer_bytes = 64; title_case_headers = false }

-- "GET / HTTP/1.1\r\nhost: a\r\ncontent-length: 3, 3\r\n\r\n"
abbrev sent_head : MessagePlan (ValidatedRequestHead plain_http)
sent_head = record {
  bytes =
      b'G' ∷ b'E' ∷ b'T' ∷ b' ' ∷ b'/' ∷ b' ' ∷ b'H' ∷ b'T' ∷ b'T' ∷ b'P' ∷ b'/' ∷ b'1' ∷ b'.'
      ∷ b'1' ∷ b'\r' ∷ b'\n' ∷ b'h' ∷ b'o' ∷ b's' ∷ b't' ∷ b':' ∷ b' ' ∷ b'a' ∷ b'\r' ∷ b'\n' ∷ b'c'
      ∷ b'o' ∷ b'n' ∷ b't' ∷ b'e' ∷ b'n' ∷ b't' ∷ b'-' ∷ b'l' ∷ b'e' ∷ b'n' ∷ b'g' ∷ b't' ∷ b'h'
      ∷ b':' ∷ b' ' ∷ b'3' ∷ b',' ∷ b' ' ∷ b'3' ∷ b'\r' ∷ b'\n' ∷ b'\r' ∷ b'\n' ∷ [];
  head = validated;
}

prepared : prepare_request_head plain_http request none three_bytes config ≡ ok sent_head
unfolding prepare_request_head plan_request_framing plain_length vakya.Body.exact plan_fixed
    set_exact_length declare_length vakya.Encode.Heads.request_planned
    vakya.Encode.Heads.write_request vakya.Encode.Heads.push_all vakya.Encode.push
    vakya.Encode.append_bytes vakya.Encode.new_writer vakya.Encode.Heads.version_bytes
    vakya.Encode.Fields.write_headers vakya.Encode.Fields.write_pairs vakya.Encode.Fields.write_line
    vakya.Encode.write_header_name vakya.Head.Request.validate_for
    vakya.Head.Request.validate_request_target vakya.Head.Request.form_of
    vakya.Head.Request.port_given vakya.Head.Request.fits_method vakya.Head.Request.validate_host
    vakya.Head.Request.host_values framing_of framed vakya.Head.Request.request_upgrade
    vakya.Head.Request.upgrade_allowed vakya.Head.Options.upgrade_intent
    vakya.Head.Options.validate_upgrade_values vakya.Head.Options.intent
    vakya.Head.Options.connection_options vakya.Head.Options.persistence_of
    vakya.Head.Options.expectation vakya.Head.Options.expected
    vakya.Head.Framing.parse_content_length vakya.Head.Framing.parse_transfer_encoding
    vakya.Head.for_each_value vakya.Head.for_each_list_member vakya.Head.members_loop
    vakya.Head.scan_byte vakya.Head.Framing.length_member vakya.Head.Framing.length_value
    vakya.Head.Framing.merge_length vakya.Head.Framing.fold_decimal vakya.Head.Framing.coded
    vakya.Syntax.trim_ows
prepared = refl

picked_none :
    (p : HeaderName → Bool) (name : HeaderName) (vs : List Bytes)
    (pairs : List (HeaderName × Bytes))
    → p name ≡ false
    → picked p (pair_up name vs pairs) ≡ picked p pairs
picked_none p name [] pairs h = refl
picked_none p name (v ∷ vs) pairs h = rw h (picked_none p name vs pairs h)

picked_all :
    (p : HeaderName → Bool) (name : HeaderName) (vs : List Bytes)
    (pairs : List (HeaderName × Bytes))
    → p name ≡ true
    → picked p (pair_up name vs pairs) ≡ vs ++ picked p pairs
picked_all p name [] pairs h = refl
picked_all p name (v ∷ vs) pairs h = rw h (ap (λ us. v ∷ us) (picked_all p name vs pairs h))

-- The lengths and the codings among the pairs.
pairs_lengths :
    (map : HeaderName → List Bytes) → picked is_length (named_pairs map names) ≡ map content_length
pairs_lengths map =
    picked_none is_length host (map host) _ refl
    ∙ picked_none is_length connection (map connection) _ refl
    ∙ picked_none is_length upgrade (map upgrade) _ refl
    ∙ picked_all is_length content_length (map content_length) _ refl
    ∙ ap (λ us. map content_length ++ us)
        (picked_none is_length transfer_encoding (map transfer_encoding) [] refl)
    ∙ append-nil (map content_length)

pairs_codings :
    (map : HeaderName → List Bytes)
    → picked is_coding (named_pairs map names) ≡ map transfer_encoding
pairs_codings map =
    picked_none is_coding host (map host) _ refl
    ∙ picked_none is_coding connection (map connection) _ refl
    ∙ picked_none is_coding upgrade (map upgrade) _ refl
    ∙ picked_none is_coding content_length (map content_length) _ refl
    ∙ picked_all is_coding transfer_encoding (map transfer_encoding) [] refl
    ∙ append-nil (map transfer_encoding)

plain_http-Listed : Listed plain_http
plain_http-Listed = record {
  iter_lengths = pairs_lengths;
  iter_codings = pairs_codings;
  keys_lengths = pairs_lengths;
  keys_codings = pairs_codings;
}

prepare_request_head-Prepared_example : Prepared plain_http none config sent_head
prepare_request_head-Prepared_example =
    prepare_request_head-Prepared plain_http plain_http-Listed request none three_bytes config
      sent_head prepared
