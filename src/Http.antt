-- ===== src/Http.antt =====
-- The crate `http` and the text functions beside it, as far as the code uses them: a parameter.
use vakya.Prelude.{ℕ, Bool, Option, List, Bytes}

-- `Version`
pub data Version : Type 0 where
  http_09 http_10 http_11 http_2 http_3 : Version

-- `Method`: the ones that the code names, and every other by its token.
pub data Method : Type 0 where
  connect options head : Method
  other : Bytes → Method

-- The names of the fields that the code reads or writes.
pub data HeaderName : Type 0 where
  connection content_length expect host transfer_encoding upgrade : HeaderName
  trailer te authorization proxy_authorization proxy_authenticate www_authenticate : HeaderName
  content_encoding content_type content_range : HeaderName
  named : Bytes → HeaderName

-- `is_authority` is `str::from_utf8` and the parse of its text as an `Authority`.
pub record Http : Type 1 where
  pub HeaderMap : Type 0
  pub get_all : HeaderMap → HeaderName → List Bytes
  pub insert : HeaderMap → HeaderName → Bytes → HeaderMap
  pub contains_key : HeaderMap → HeaderName → Bool
  pub decimal : ℕ → Bytes
  pub is_informational : ℕ → Bool
  pub is_success : ℕ → Bool
  pub Uri : Type 0
  pub path : Uri → Bytes
  pub scheme : Uri → Option Bytes
  pub authority : Uri → Option Bytes
  pub path_and_query : Uri → Option Bytes
  pub has_port : Bytes → Bool
  pub is_authority : Bytes → Bool
  pub is_header_value : Bytes → Bool
  pub iter : HeaderMap → List (HeaderName × Bytes)
  pub keys : HeaderMap → List HeaderName
  pub as_str : HeaderName → Bytes
  pub method_str : Method → Bytes
  pub uri_text : Uri → Bytes
  pub status_str : ℕ → Bytes
  pub canonical_reason : ℕ → Option Bytes
