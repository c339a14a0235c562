-- ===== src/Head/Framing.antt =====
-- src/proto/h1/head/validate.rs: what the fields of a head say, from their values in order.
use vakya.Prelude.{
  ℕ, zero, suc, ◌+◌, ◌-◌, ◌*◌, Bool, true, false, not, ◌&&◌, ◌||◌, Option, none, some, List, [],
  ◌∷◌, map, leb, ◌==◌, if◌then◌else◌, length, take, drop, Bytes, Result, ok, err, ◌>>=◌, ok_or,
  is_some,
}
use vakya.Syntax.{is_digit, trim_ows, token_len, quoted_string_len}
use vakya.Chunk.{all, checked, position, first_is}
use vakya.Head.{
  HeadError, invalid_content_length, ambiguous_message_length, invalid_transfer_encoding,
  unsupported_transfer_coding, is_nil, is_token, for_each_value,
}

abbrev pub is_none {ℓ} : {A : Type ℓ} → Option A → Bool
is_none none = true
is_none (some a) = false

-- The `try_fold` over decimal digits, `none` on overflow.
unfoldable pub fold_decimal : ℕ → Bytes → Option ℕ
fold_decimal acc [] = some acc
fold_decimal acc (digit ∷ digits) = elim (checked (acc * 10)) [
  | none ↦ none
  | some scaled ↦ elim (checked (scaled + (digit - b'0'))) [
    | none ↦ none
    | some next ↦ fold_decimal next digits
  ]
]

-- The end of a member of `Content-Length`.
unfoldable pub merge_length : Option ℕ → ℕ → Result HeadError (Option ℕ)
merge_length none value = ok (some value)
merge_length (some parsed) value =
    if parsed == value then ok (some value) else err ambiguous_message_length

unfoldable pub length_value : Bytes → Result HeadError ℕ
unfolding fold_decimal
length_value member =
    if is_nil member || not (all is_digit member)
    then err invalid_content_length
    else ok_or (fold_decimal 0 member) invalid_content_length

unfoldable pub length_member : Bytes → Option ℕ → Result HeadError (Option ℕ)
unfolding trim_ows length_value merge_length
length_member member parsed = length_value (trim_ows member) >>= λ value. merge_length parsed value

abbrev pub no_values : List Bytes → Bool
no_values [] = true
no_values (v ∷ vs) = false

-- On the values of `Content-Length`.
unfoldable pub parse_content_length : List Bytes → Result HeadError (Option ℕ)
unfolding length_member
parse_content_length values =
    for_each_value invalid_content_length length_member values none >>= λ parsed.
    if not (no_values values) && is_none parsed then err invalid_content_length else ok parsed

unfoldable pub lower : ℕ → ℕ
lower b = if leb b'A' b && leb b b'Z' then b + 32 else b

abbrev pub same_bytes : Bytes → Bytes → Bool
same_bytes [] [] = true
same_bytes (a ∷ as') (b ∷ bs) = a == b && same_bytes as' bs
same_bytes _ _ = false

-- `eq_ignore_ascii_case`
unfoldable pub eq_ignore_ascii_case : Bytes → Bytes → Bool
unfolding lower
eq_ignore_ascii_case a b = same_bytes (map lower a) (map lower b)

-- The coding and the parameters of a member.
unfoldable pub split_coding : Bytes → Result HeadError (Bytes × Bytes)
unfolding position trim_ows
split_coding member =
    let split = position b';' member in
    let coding = trim_ows (take split member) in
    if is_nil coding then err invalid_transfer_encoding else ok (coding, drop split member)

-- A round of the loop of `validate_transfer_parameters`, part by part.
parameter_value : Bytes → Result HeadError ℕ
unfolding token_len quoted_string_len
parameter_value input =
    if first_is b'"' input
    then ok_or (quoted_string_len input) invalid_transfer_encoding
    else if token_len input == 0
    then err invalid_transfer_encoding
    else ok (token_len input)

after_parameter : Bytes → Result HeadError Bytes
after_parameter [] = ok []
after_parameter (b ∷ bs) = if b == b';' then ok (b ∷ bs) else err invalid_transfer_encoding

after_name : Bytes → Result HeadError Bytes
unfolding parameter_value after_parameter trim_ows
after_name input =
    if first_is b'=' input
    then (let input = trim_ows (drop 1 input) in
        parameter_value input >>= λ value. after_parameter (trim_ows (drop value input)))
    else err invalid_transfer_encoding

pub parameter_round : Bytes → Result HeadError Bytes
unfolding after_name token_len trim_ows
parameter_round input =
    if first_is b';' input
    then (let input = trim_ows (drop 1 input) in
        let name = token_len input in
        if name == 0
        then err invalid_transfer_encoding
        else after_name (trim_ows (drop name input)))
    else err invalid_transfer_encoding

-- The loop, on fuel: each round takes a byte at least.
parameter_loop : ℕ → Bytes → Result HeadError (Unit {0})
unfolding parameter_round
parameter_loop fuel [] = ok tt
parameter_loop zero (b ∷ bs) = err invalid_transfer_encoding
parameter_loop (suc fuel) (b ∷ bs) = parameter_round (b ∷ bs) >>= λ rest. parameter_loop fuel rest

unfoldable pub validate_transfer_parameters : Bytes → Result HeadError (Unit {0})
unfolding parameter_loop
validate_transfer_parameters input = parameter_loop (length input) input

-- The three variables of `parse_transfer_encoding`.
pub record Codings : Type 0 where
  pub codings : ℕ
  pub chunked_at : Option ℕ
  pub unsupported : Bool

abbrev pub chunked_token : Bytes
chunked_token = b'c' ∷ b'h' ∷ b'u' ∷ b'n' ∷ b'k' ∷ b'e' ∷ b'd' ∷ []

-- The end of a member's handling, from the count of the codings on.
unfoldable pub count_coding : (coding parameters : Bytes) → Codings → Result HeadError Codings
unfolding eq_ignore_ascii_case
count_coding coding parameters s =
    ok_or (checked (s.codings + 1)) invalid_transfer_encoding >>= λ codings.
    if eq_ignore_ascii_case coding chunked_token
    then (if is_some s.chunked_at || not (is_nil parameters)
        then err invalid_transfer_encoding
        else ok (record s { codings = codings; chunked_at = some codings }))
    else ok (record s { codings = codings; unsupported = true })

unfoldable pub coding_member : Bytes → Codings → Result HeadError Codings
unfolding split_coding is_token validate_transfer_parameters count_coding trim_ows
coding_member member s = split_coding (trim_ows member) >>= λ (coding, parameters).
    if not (is_token coding)
    then err invalid_transfer_encoding
    else validate_transfer_parameters parameters >>= λ _. count_coding coding parameters s

abbrev pub is_exactly : Option ℕ → ℕ → Bool
is_exactly none n = false
is_exactly (some m) n = m == n

pub data TransferFraming : Type 0 where
  chunked_framing : TransferFraming

-- From the end of the loops on.
unfoldable pub coded : Codings → Result HeadError (Option TransferFraming)
coded s =
    if s.codings == 0
    then ok none
    else if not (is_exactly s.chunked_at s.codings)
    then err invalid_transfer_encoding
    else if s.unsupported
    then err unsupported_transfer_coding
    else ok (some chunked_framing)

abbrev pub no_codings : Codings
no_codings = record { codings = 0; chunked_at = none; unsupported = false }

-- On the values of `Transfer-Encoding`.
unfoldable pub parse_transfer_encoding : List Bytes → Result HeadError (Option TransferFraming)
unfolding coding_member coded
parse_transfer_encoding values =
    for_each_value invalid_transfer_encoding coding_member values no_codings >>= λ s. coded s
