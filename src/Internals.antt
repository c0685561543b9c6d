-- ===== src/Internals.antt =====
-- The module `internals` of rust/sigv4-verifier/src/lib.rs: what the fuzz targets call.
use sigv4_verify.Base.{Bool, true, false, Option, none, some, Bytes, ok, err}
use sigv4_verify.Base.Int.{ℤ}
use sigv4_verify.Percent.{UriResult}
use sigv4_verify.Percent
use sigv4_verify.Uri
use sigv4_verify.Query
use sigv4_verify.Scope
use sigv4_verify.Date

-- `Result::ok` and `Result::is_ok`.
abbrev pub to_option : {A : Type 0} → UriResult A → Option A
to_option (ok a) = some a
to_option (err e) = none

abbrev pub is_ok : {A : Type 0} → UriResult A → Bool
is_ok (ok a) = true
is_ok (err e) = false

unfoldable pub split_original_uri : Bytes → Option (Bytes × Bytes)
split_original_uri raw_uri = to_option (Uri.split_original_uri raw_uri)

unfoldable pub validate_raw_path : Bytes → Bool
validate_raw_path path = is_ok (Uri.validate_raw_path path)

unfoldable pub percent_decode : Bytes → Option Bytes
percent_decode value = to_option (Percent.percent_decode value)

unfoldable pub canonical_query : Bytes → Option Bytes
canonical_query raw_query = elim (Query.canonical_query raw_query) [
  | ok p ↦ some p.0
  | err e ↦ none
]

unfoldable pub parse_credential_scope : Bytes → Bool
parse_credential_scope value = is_ok (Scope.parse_credential_scope value)

unfoldable pub canonical_uri_from_valid_path : Bytes → Bytes
canonical_uri_from_valid_path raw_path = Uri.canonical_uri_from_valid_path raw_path

unfoldable pub parse_amz_date : Bytes → Option ℤ
parse_amz_date value = elim (Date.parse_amz_date value) [
  | none ↦ none
  | some parsed ↦ some parsed.epoch_seconds
]
