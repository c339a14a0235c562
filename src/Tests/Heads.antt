-- ===== src/Tests/Heads.antt =====
-- Heads: the search for their end, and their validation.
use vakya.Prelude.{
  ℕ, zero, suc, ◌+◌, ◌/◌, ◌%◌, ◌≡◌, refl, Bool, true, false, not, ◌&&◌, none, some, List, [], ◌∷◌,
  ◌++◌, leb, if◌then◌else◌, Bytes, ok,
}
use vakya.Message.{fixed, reusable, no_expectation, origin}
use vakya.Http.{
  Http, other, HeaderName, connection, content_length, expect, host, transfer_encoding, upgrade,
  http_11,
}
use vakya.Head.Scan.{
  scanning, complete, default, end, head_len, find_end, scan_loop, next_line, ends_head, answer,
}
use vakya.Head.Resume.{head_len-resumes}
use vakya.Head.Framing.{
  chunked_framing, parse_content_length, parse_transfer_encoding, length_member, length_value,
  merge_length, fold_decimal, coding_member, coded, split_coding, count_coding,
  eq_ignore_ascii_case, lower, validate_transfer_parameters,
}
use vakya.Head.Length.{LengthFrom, parse_content_length-LengthFrom}
use vakya.Head.Coding.{OnlyChunked, parse_transfer_encoding-CodingFrom}
use vakya.Head.Request.{
  RequestHead, ValidatedRequestHead, validate_for, validate_request_target, form_of, port_given,
  fits_method, validate_host, host_values, framing_of, framed, request_upgrade, upgrade_allowed,
}
use vakya.Head.Options.{
  connection_options, persistence_of, expectation, expected, upgrade_intent,
  validate_upgrade_values, intent,
}
use vakya.Encode.Lines.{pair_up}
use vakya.Head.Smuggling.{Framed, validate_for-Framed}
use vakya.Head.{for_each_value, for_each_list_member, members_loop, scan_byte, is_token}

abbrev pub get : Bytes
get = b'G' ∷ b'E' ∷ b'T' ∷ []

-- "G\r\n" and then "\r\nrest"
abbrev first_part : Bytes
first_part = b'G' ∷ b'\r' ∷ b'\n' ∷ []

abbrev second_part : Bytes
second_part = b'\r' ∷ b'\n' ∷ b'r' ∷ []

partial_head : head_len 64 default first_part ≡ (scanning 3 end, ok none)
unfolding head_len find_end scan_loop next_line ends_head answer
partial_head = refl

whole_head : head_len 64 (scanning 3 end) (first_part ++ second_part) ≡ (complete 5, ok (some 5))
unfolding head_len find_end scan_loop next_line ends_head answer
whole_head = refl

head_len-resumes_example :
    head_len 64 (scanning 3 end) (first_part ++ second_part)
    ≡ head_len 64 default (first_part ++ second_part)
head_len-resumes_example =
    head_len-resumes 64 first_part second_part (scanning 3 end) none partial_head

-- "3, 3"
abbrev pub lengths : List Bytes
lengths = (b'3' ∷ b',' ∷ b' ' ∷ b'3' ∷ []) ∷ []

three : parse_content_length lengths ≡ ok (some 3)
unfolding parse_content_length for_each_value for_each_list_member members_loop scan_byte
    length_member length_value merge_length fold_decimal vakya.Syntax.trim_ows
three = refl

parse_content_length-LengthFrom_example : LengthFrom (some 3) lengths
parse_content_length-LengthFrom_example = parse_content_length-LengthFrom lengths (some 3) three

abbrev codings : List Bytes
codings = (b'C' ∷ b'h' ∷ b'u' ∷ b'n' ∷ b'k' ∷ b'e' ∷ b'd' ∷ []) ∷ []

only_chunked : parse_transfer_encoding codings ≡ ok (some chunked_framing)
unfolding parse_transfer_encoding for_each_value for_each_list_member members_loop scan_byte
    coding_member coded split_coding count_coding eq_ignore_ascii_case lower
    validate_transfer_parameters vakya.Syntax.trim_ows is_token vakya.Syntax.is_tchar
    vakya.Chunk.position
only_chunked = refl

parse_transfer_encoding-CodingFrom_example : OnlyChunked codings
parse_transfer_encoding-CodingFrom_example =
    parse_transfer_encoding-CodingFrom codings (some chunked_framing) only_chunked

-- A map of fields as a function from their names, and a target as a path.
abbrev same_name : HeaderName → HeaderName → Bool
same_name connection connection = true
same_name content_length content_length = true
same_name expect expect = true
same_name host host = true
same_name transfer_encoding transfer_encoding = true
same_name upgrade upgrade = true
same_name _ _ = false

-- The last `count` decimal digits of a number, in front of what follows.
unfoldable pub put_digits : (count n : ℕ) → Bytes → Bytes
put_digits zero n behind = behind
put_digits (suc count) n behind = put_digits count (n / 10) ((n % 10 + b'0') ∷ behind)

-- The names that its iterators go through.
abbrev pub names : List HeaderName
names = host ∷ connection ∷ upgrade ∷ content_length ∷ transfer_encoding ∷ []

abbrev pub named_pairs : (HeaderName → List Bytes) → List HeaderName → List (HeaderName × Bytes)
named_pairs fields [] = []
named_pairs fields (name ∷ others) = pair_up name (fields name) (named_pairs fields others)

abbrev pub name_text : HeaderName → Bytes
name_text host = b'h' ∷ b'o' ∷ b's' ∷ b't' ∷ []
name_text content_length =
    b'c' ∷ b'o' ∷ b'n' ∷ b't' ∷ b'e' ∷ b'n' ∷ b't' ∷ b'-' ∷ b'l' ∷ b'e' ∷ b'n' ∷ b'g' ∷ b't' ∷ b'h'
    ∷ []
name_text _ = []

abbrev pub plain_http : Http
plain_http = record {
  HeaderMap = HeaderName → List Bytes;
  get_all = λ headers name. headers name;
  insert =
      λ headers name value. λ wanted. if same_name name wanted then value ∷ [] else headers wanted;
  contains_key = λ headers name. not (vakya.Head.Framing.no_values (headers name));
  decimal = λ n. put_digits 20 n [];
  is_informational = λ status. leb 100 status && leb status 199;
  is_success = λ status. leb 200 status && leb status 299;
  Uri = Bytes;
  path = λ target. target;
  scheme = λ target. none;
  authority = λ target. none;
  path_and_query = λ target. some target;
  has_port = λ text. false;
  is_authority = λ text. not (vakya.Head.is_nil text);
  is_header_value = λ text. true;
  iter = λ fields. named_pairs fields names;
  keys = λ fields. names;
  as_str = name_text;
  method_str = λ method. get;
  uri_text = λ target. target;
  status_str =
      λ status. (status / 100 + b'0') ∷ (status / 10 % 10 + b'0') ∷ (status % 10 + b'0') ∷ [];
  canonical_reason = λ status. none;
}

abbrev pub fields : HeaderName → List Bytes
fields host = (b'a' ∷ []) ∷ []
fields content_length = lengths
fields _ = []

abbrev pub request : RequestHead plain_http
request = record { method = other get; target = b'/' ∷ []; version = http_11; headers = fields }

abbrev pub validated : ValidatedRequestHead plain_http
validated = record {
  head = request;
  body = fixed 3;
  persistence = reusable;
  target_form = origin;
  expectation = no_expectation;
  upgrade = none;
}

is_valid : validate_for plain_http true request ≡ ok validated
unfolding validate_for validate_request_target form_of port_given fits_method validate_host
    host_values framing_of framed parse_content_length parse_transfer_encoding coded request_upgrade
    upgrade_allowed upgrade_intent validate_upgrade_values intent connection_options persistence_of
    expectation expected for_each_value for_each_list_member members_loop scan_byte length_member
    length_value merge_length fold_decimal vakya.Syntax.trim_ows
is_valid = refl

validate_for-Framed_example : Framed lengths [] http_11 (fixed 3)
validate_for-Framed_example = validate_for-Framed plain_http true request validated is_valid
