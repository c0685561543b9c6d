-- ===== src/Verifier/Defs.antt =====
-- `Verifier::verify`. An early `return` of a denial is an `err`, and the handler's parts follow each
-- other in the source's order. The call of `sign` changes the credential's signing-key cache, so
-- `verify` returns the state too.
use sigv4_verify.Base.{
  ℕ, Bool, true, false, not, ◌||◌, Option, none, some, List, [], ◌∷◌, map, Bytes, codes, ltb, ◌==◌,
  if◌then◌else◌, Result, ok, err, ◌>>=◌, ◌>>◌,
}
use sigv4_verify.Base.Int.{ℤ, pos, ◌-ℤ◌, i64_max}
use sigv4_verify.Hex.{
  is_ascii_lowercase, is_ascii_uppercase, to_ascii_uppercase, to_ascii_lowercase,
}
use sigv4_verify.Text.{any, starts_with_byte, ends_with_byte}
use sigv4_verify.Text.Trim.{trim}
use sigv4_verify.Percent.{UriResult}
use sigv4_verify.Uri.{split_original_uri}
use sigv4_verify.Query.{SigV4Query, canonical_query}
use sigv4_verify.Verifier.Types.{
  Duration, SystemTime, since_epoch, before_epoch, CompiledCredential, State, VerifyResult,
  contains,
}
use sigv4_verify.Verifier.Compile.{is_empty}

abbrev pub reason_ok : Bytes
reason_ok = codes "ok"

abbrev pub reason_missing_metadata : Bytes
reason_missing_metadata = codes "missing_metadata"

abbrev pub reason_invalid_uri : Bytes
reason_invalid_uri = codes "invalid_uri"

abbrev pub reason_unsupported_method : Bytes
reason_unsupported_method = codes "unsupported_method"

abbrev pub reason_missing_query_param : Bytes
reason_missing_query_param = codes "missing_query_param"

abbrev pub reason_unsupported_algorithm : Bytes
reason_unsupported_algorithm = codes "unsupported_algorithm"

abbrev pub reason_invalid_credential_scope : Bytes
reason_invalid_credential_scope = codes "invalid_credential_scope"

abbrev pub reason_unknown_access_key : Bytes
reason_unknown_access_key = codes "unknown_access_key"

abbrev pub reason_invalid_expiry : Bytes
reason_invalid_expiry = codes "invalid_expiry"

abbrev pub reason_expired : Bytes
reason_expired = codes "expired"

abbrev pub reason_future_dated : Bytes
reason_future_dated = codes "future_dated"

abbrev pub reason_unsupported_signed_header : Bytes
reason_unsupported_signed_header = codes "unsupported_signed_header"

abbrev pub reason_signature_mismatch : Bytes
reason_signature_mismatch = codes "signature_mismatch"

abbrev pub reason_unauthorized : Bytes
reason_unauthorized = codes "unauthorized"

unfoldable pub ascii_upper_cow : Bytes → Bytes
ascii_upper_cow value = if any is_ascii_lowercase value then map to_ascii_uppercase value else value

unfoldable pub ascii_lower_cow : Bytes → Bytes
ascii_lower_cow value = if any is_ascii_uppercase value then map to_ascii_lowercase value else value

-- `path.strip_prefix(prefix)`.
unfoldable pub strip_prefix : Bytes → Bytes → Option Bytes
strip_prefix path [] = some path
strip_prefix [] (p ∷ prefix) = none
strip_prefix (c ∷ path) (p ∷ prefix) =
    let rest = strip_prefix path prefix in if c == p then rest else none

unfoldable pub path_matches_prefix : Bytes → Bytes → Bool
unfolding strip_prefix
path_matches_prefix path prefix = elim (strip_prefix path prefix) [
  | none ↦ false
  | some suffix ↦ is_empty suffix || ends_with_byte b'/' prefix || starts_with_byte b'/' suffix
]

abbrev pub method_allowed : CompiledCredential → Bytes → Bool
method_allowed cred method = elim cred.allowed_methods [
  | [] ↦ true
  | (m ∷ ms) ↦ contains method (m ∷ ms)
]

abbrev pub host_allowed : CompiledCredential → Bytes → Bool
host_allowed cred host = elim cred.allowed_hosts [ [] ↦ true | (h ∷ hs) ↦ contains host (h ∷ hs) ]

unfoldable pub any_prefix : Bytes → List Bytes → Bool
unfolding path_matches_prefix
any_prefix path [] = false
any_prefix path (prefix ∷ prefixes) = path_matches_prefix path prefix || any_prefix path prefixes

abbrev pub path_allowed : CompiledCredential → Bytes → Bool
path_allowed cred path = elim cred.allowed_prefixes [
  | [] ↦ true
  | (p ∷ ps) ↦ any_prefix path (p ∷ ps)
]

abbrev pub min_i64 : ℕ → ℕ
min_i64 n = if ltb i64_max n then i64_max else n

unfoldable pub system_time_epoch_seconds : SystemTime → ℤ
system_time_epoch_seconds (since_epoch d) = pos (min_i64 d.secs)
system_time_epoch_seconds (before_epoch d) = pos 0 -ℤ pos (min_i64 d.secs)

abbrev pub saturating_duration_i64 : Duration → ℤ
saturating_duration_i64 d = pos (min_i64 d.secs)

abbrev pub deny : Bytes → Bytes → Bytes → VerifyResult
deny reason path access_key_hash = record {
  allowed = false;
  reason = reason;
  path = path;
  access_key = none;
  access_key_hash = access_key_hash;
}

-- A part of the handler: its values, or the denial that it returns.
abbrev pub Part : Type 0 → Type 0
Part = Result VerifyResult

-- `if refused { return denial; }`.
abbrev pub unless : Bool → VerifyResult → Part Unit
unless refused denial = if refused then err denial else ok tt

-- `let Some(a) = o else { return denial; }`, and the same of a fallible call.
abbrev pub need : {A : Type 0} → Option A → VerifyResult → Part A
need none denial = err denial
need (some a) denial = ok a

abbrev pub accept : {A : Type 0} → UriResult A → VerifyResult → Part A
accept (err e) denial = err denial
accept (ok a) denial = ok a

-- The path of a denial for an unsupported method.
abbrev pub path_or_default : UriResult (Bytes × Bytes) → Bytes
path_or_default (ok parts) = parts.0
path_or_default (err e) = []

-- The method and the host in normal form.
unfoldable pub read_metadata : State → Bytes → Bytes → Bytes → Part (Bytes × Bytes)
unfolding ascii_upper_cow ascii_lower_cow
read_metadata state raw_method raw_uri raw_host = do
  let method = ascii_upper_cow (trim raw_method)
  let host = ascii_lower_cow (trim raw_host)
  unless (is_empty method || is_empty raw_uri || is_empty host) (deny reason_missing_metadata [] [])
  unless (not (contains method state.supported_methods))
      (deny reason_unsupported_method (path_or_default (split_original_uri raw_uri)) [])
  ok (method, host)

pub record RequestUri : Type 0 where
  pub path : Bytes
  pub canonical_query_string : Bytes
  pub query : SigV4Query

unfoldable pub read_uri : Bytes → Part RequestUri
read_uri raw_uri = do
  (path, raw_query) ← accept (split_original_uri raw_uri) (deny reason_invalid_uri [] [])
  (canonical_query_string, query) ←
      accept (canonical_query raw_query) (deny reason_invalid_uri path [])
  ok (record { path = path; canonical_query_string = canonical_query_string; query = query })
