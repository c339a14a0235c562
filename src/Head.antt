-- ===== src/Head.antt =====
-- src/proto/h1/head.rs and src/proto/h1/head/validate.rs: the errors of heads, and comma-separated
-- field values.
pub mod Scan
pub mod Resume
pub mod Framing
pub mod Options
pub mod Request
pub mod Response
pub mod Members
pub mod Length
pub mod Decimal
pub mod Coding
pub mod Smuggling
pub mod Counting
pub mod Chunked
use vakya.Prelude.{
  ℕ, zero, suc, ◌+◌, ◌-◌, ◌*◌, ◌/◌, ◌%◌, ◌^◌, ◌≤◌, ◌<◌, min, ◌≡◌, refl, sym, ap, ◌∙◌, ◌≢◌, ◌↔◌, ◌⊎◌,
  inl, inr, Bool, true, false, not, ◌&&◌, ◌||◌, Option, none, some, List, [], ◌∷◌, ◌++◌, map,
  append-nil, append_assoc, arith, ltb, leb, ◌==◌, if◌then◌else◌, ltb→lt, lt→ltb, leb→le, ==_iff,
  Bool-cases, Option-cases, length, get_elem?, take, drop, length-append, length-take, length-drop,
  take-append-drop, take-append_len, drop-append_len, drop-append_le, take-append_le, drop-nil,
  take-nil, drop-drop, take-add, take-take_le, All, All-append, Bytes, u64_max, Result, ok, err,
  ◌>>=◌, ◌>>◌, map_err, ok_or, is_some, Result-cases, >>=-eq-ok,
}
use vakya.Syntax.{is_tchar, trim_ows}
use vakya.Chunk.{all}

pub data HeadLimit : Type 0 where
  bytes headers header_map : HeadLimit

pub data HeadError : Type 0 where
  invalid_start_line invalid_header unsupported_version invalid_method : HeadError
  invalid_target invalid_status missing_host invalid_host invalid_target_form : HeadError
  invalid_content_length ambiguous_message_length invalid_transfer_encoding : HeadError
  unsupported_transfer_coding invalid_connection invalid_expectation invalid_upgrade : HeadError
  limit : HeadLimit → HeadError

abbrev pub is_nil : Bytes → Bool
is_nil [] = true
is_nil (b ∷ bs) = false

unfoldable pub is_token : Bytes → Bool
unfolding is_tchar
is_token value = not (is_nil value) && all is_tchar value

-- What a byte does in the loop of `for_each_list_member`: it ends a member, or it leaves the
-- flags `quoted` and `escaped`.
pub data MemberScan : Type 0 where
  splits : MemberScan
  goes_on : (quoted escaped : Bool) → MemberScan

unfoldable pub scan_byte : (quoted escaped : Bool) → ℕ → MemberScan
scan_byte quoted escaped b =
    if escaped
    then goes_on quoted false
    else if quoted && b == b'\\'
    then goes_on quoted true
    else if b == b'"'
    then goes_on (not quoted) escaped
    else if b == b',' && not quoted
    then splits
    else goes_on quoted escaped

-- The closure `handle` threads what it changes, of type `S`. The member that the loop is in has
-- the bytes `member` so far, in order; `&input[start..index]` is that member.
module _ {S : Type 0} (error : HeadError) (handle : Bytes → S → Result HeadError S) where
  unfoldable pub members_loop :
      Bytes → (member : Bytes) → (quoted escaped : Bool) → S → Result HeadError S
  members_loop [] member quoted escaped s =
      if quoted || escaped || is_nil member then err error else handle member s
  members_loop (b ∷ bs) member quoted escaped s = elim (scan_byte quoted escaped b) [
    | goes_on q e ↦ members_loop bs (member ++ (b ∷ [])) q e s
    | splits ↦
        if is_nil member
        then err error
        else handle member s >>= λ next. members_loop bs [] quoted escaped next
  ]

  unfoldable pub for_each_list_member : Bytes → S → Result HeadError S
  for_each_list_member input s = members_loop input [] false false s

  -- The loop over the values of a field.
  unfoldable pub for_each_value : List Bytes → S → Result HeadError S
  for_each_value [] s = ok s
  for_each_value (value ∷ values) s =
      for_each_list_member value s >>= λ next. for_each_value values next
