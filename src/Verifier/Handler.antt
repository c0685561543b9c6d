-- ===== src/Verifier/Handler.antt =====
-- The parts of `Verifier::verify` from the query parameters on, and the whole handler.
use sigv4_verify.Base.{
  ℕ, true, not, ◌||◌, Option, none, some, [], ◌∷◌, Bytes, codes, ltb, ◌==◌, if◌then◌else◌, bytes_eq,
  ok, err, ◌>>=◌, ◌>>◌,
}
use sigv4_verify.Base.Int.{pos, ◌+ℤ◌, ltb_ℤ, saturate}
use sigv4_verify.Crypto.{Crypto}
use sigv4_verify.Text.Decimal.{parse_u64}
use sigv4_verify.Uri.{canonical_uri_from_valid_path}
use sigv4_verify.Query.{SigV4Query, single_known_query_value}
use sigv4_verify.Scope.{CredentialScope, parse_credential_scope}
use sigv4_verify.Date.{ParsedAmzDate, parse_amz_date}
use sigv4_verify.Signing.{
  Cache, algorithm_name, terminal_name, hash_canonical_request, sign, decode_signature,
}
use sigv4_verify.Verifier.Types.{
  from_secs, exceeds, SystemTime, max_sigv4_expires_secs, CompiledCredential, Credentials, State,
  VerifyResult, lookup,
}
use sigv4_verify.Verifier.Compile.{hash_access_key}
use sigv4_verify.Verifier.Defs.{
  reason_ok, reason_missing_query_param, reason_unsupported_algorithm,
  reason_invalid_credential_scope, reason_unknown_access_key, reason_invalid_expiry, reason_expired,
  reason_future_dated, reason_unsupported_signed_header, reason_signature_mismatch,
  reason_unauthorized, method_allowed, host_allowed, path_allowed, min_i64,
  system_time_epoch_seconds, saturating_duration_i64, deny, Part, unless, need, accept, RequestUri,
  read_metadata, read_uri,
}

-- The six parameters, each present once or `none`.
abbrev pub algorithm_of : SigV4Query → Option Bytes
algorithm_of query = single_known_query_value query.algorithm query.algorithm_count

abbrev pub credential_of : SigV4Query → Option Bytes
credential_of query = single_known_query_value query.credential query.credential_count

abbrev pub date_of : SigV4Query → Option Bytes
date_of query = single_known_query_value query.date query.date_count

abbrev pub expires_of : SigV4Query → Option Bytes
expires_of query = single_known_query_value query.expires query.expires_count

abbrev pub signed_headers_of : SigV4Query → Option Bytes
signed_headers_of query = single_known_query_value query.signed_headers query.signed_headers_count

abbrev pub signature_of : SigV4Query → Option Bytes
signature_of query = single_known_query_value query.signature query.signature_count

-- The replaced signing-key cache of a credential that `sign` has used.
unfoldable pub set_cache : Bytes → Cache → Credentials → Credentials
set_cache k cache [] = []
set_cache k cache (e ∷ es) =
    if bytes_eq e.0 k
    then (e.0, record e.1 { signing_cache = cache }) ∷ es
    else e ∷ set_cache k cache es

-- `Some(parsed) if parsed.date == scope.date`.
abbrev pub same_date : Bytes → Option ParsedAmzDate → Option ParsedAmzDate
same_date date none = none
same_date date (some parsed) = if bytes_eq parsed.date date then some parsed else none

-- What the parts before the signature check find.
pub record Checked : Type 0 where
  pub method : Bytes
  pub host : Bytes
  pub uri : RequestUri
  pub scope : CredentialScope
  pub amz_date : Bytes
  pub parsed_date : ParsedAmzDate
  pub expires_seconds : ℕ
  pub signature_hex : Bytes
  pub cred : CompiledCredential

module _ (crypto : Crypto) where
  unfoldable pub read_scope : State → RequestUri → Part CredentialScope
  unfolding hash_access_key
  read_scope state uri = do
    alg ← need (algorithm_of uri.query) (deny reason_missing_query_param uri.path [])
    unless (not (bytes_eq alg algorithm_name)) (deny reason_unsupported_algorithm uri.path [])
    credential_value ← need (credential_of uri.query) (deny reason_missing_query_param uri.path [])
    scope ←
        accept (parse_credential_scope credential_value)
          (deny reason_invalid_credential_scope uri.path [])
    unless
        (not (bytes_eq scope.service state.settings.supported_service)
          || not (bytes_eq scope.terminal terminal_name))
        (deny reason_invalid_credential_scope uri.path (hash_access_key crypto scope.access_key))
    signed_headers ←
        need (signed_headers_of uri.query)
          (deny reason_missing_query_param uri.path (hash_access_key crypto scope.access_key))
    unless (not (bytes_eq signed_headers (codes "host")))
        (deny reason_unsupported_signed_header uri.path (hash_access_key crypto scope.access_key))
    ok scope

  -- The date as written and as read.
  unfoldable pub read_date : RequestUri → CredentialScope → Part (Bytes × ParsedAmzDate)
  unfolding hash_access_key
  read_date uri scope = do
    let hash = hash_access_key crypto scope.access_key
    amz_date ← need (date_of uri.query) (deny reason_missing_query_param uri.path hash)
    parsed_date ←
        need (same_date scope.date (parse_amz_date amz_date))
          (deny reason_invalid_credential_scope uri.path hash)
    ok (amz_date, parsed_date)

  -- The expiry in seconds and the signature as written.
  unfoldable pub read_expiry : RequestUri → CredentialScope → Part (ℕ × Bytes)
  unfolding hash_access_key
  read_expiry uri scope = do
    let hash = hash_access_key crypto scope.access_key
    expires_value ← need (expires_of uri.query) (deny reason_missing_query_param uri.path hash)
    expires_seconds ← need (parse_u64 expires_value) (deny reason_invalid_expiry uri.path hash)
    unless ((expires_seconds == 0) || ltb max_sigv4_expires_secs expires_seconds)
        (deny reason_invalid_expiry uri.path hash)
    signature_hex ← need (signature_of uri.query) (deny reason_missing_query_param uri.path hash)
    ok (expires_seconds, signature_hex)

  unfoldable pub find_credential :
      State → Bytes → Bytes → RequestUri → CredentialScope → ℕ → Part CompiledCredential
  unfolding hash_access_key
  find_credential state method host uri scope expires_seconds = do
    cred ←
        need (lookup scope.access_key state.credentials)
          (deny reason_unknown_access_key uri.path (hash_access_key crypto scope.access_key))
    unless (not cred.enabled) (deny reason_unauthorized uri.path cred.access_key_hash)
    unless
        (not (method_allowed cred method)
          || not (host_allowed cred host)
          || not (path_allowed cred uri.path))
        (deny reason_unauthorized uri.path cred.access_key_hash)
    unless (exceeds (from_secs expires_seconds) cred.max_expires)
        (deny reason_invalid_expiry uri.path cred.access_key_hash)
    ok cred

  unfoldable pub check_times :
      State → SystemTime → RequestUri → CompiledCredential → ParsedAmzDate → ℕ → Part Unit
  check_times state now uri cred parsed_date expires_seconds = do
    let now_seconds = system_time_epoch_seconds now
    let skew = saturating_duration_i64 state.settings.allowed_clock_skew
    unless (ltb_ℤ (saturate (now_seconds +ℤ skew)) parsed_date.epoch_seconds)
        (deny reason_future_dated uri.path cred.access_key_hash)
    unless
        (ltb_ℤ (saturate (parsed_date.epoch_seconds +ℤ pos (min_i64 expires_seconds))) now_seconds)
        (deny reason_expired uri.path cred.access_key_hash)

  -- The decoded signature against the expected one.
  abbrev pub verdict : Option Bytes → Bytes → VerifyResult → VerifyResult → VerifyResult
  verdict none expected mismatch accepted = mismatch
  verdict (some signature) expected mismatch accepted =
      if not (crypto.ct_eq signature expected == 1) then mismatch else accepted

  -- The result and the cache that `sign` leaves.
  unfoldable pub check_signature :
      Bytes
      → Bytes
      → RequestUri
      → CredentialScope
      → Bytes
      → Bytes
      → CompiledCredential
      → VerifyResult × Cache
  check_signature method host uri scope amz_date signature_hex cred =
      let canonical_path = canonical_uri_from_valid_path uri.path in
      let canonical_hash =
        hash_canonical_request crypto method canonical_path uri.canonical_query_string host in
      let (expected, cache) =
        sign crypto cred.secret_seed scope.date scope.region scope.service amz_date scope.scope
          canonical_hash cred.signing_cache in
      let mismatch = deny reason_signature_mismatch uri.path cred.access_key_hash in
      let accepted : VerifyResult = record {
        allowed = true;
        reason = reason_ok;
        path = uri.path;
        access_key = some cred.access_key;
        access_key_hash = cred.access_key_hash;
      } in
      (verdict (decode_signature signature_hex) expected mismatch accepted, cache)

  unfoldable pub check_request : State → Bytes → Bytes → Bytes → SystemTime → Part Checked
  unfolding read_metadata read_uri read_scope read_date read_expiry find_credential check_times
  check_request state raw_method raw_uri raw_host now = do
    (method, host) ← read_metadata state raw_method raw_uri raw_host
    uri ← read_uri raw_uri
    scope ← read_scope state uri
    (amz_date, parsed_date) ← read_date uri scope
    (expires_seconds, signature_hex) ← read_expiry uri scope
    cred ← find_credential state method host uri scope expires_seconds
    check_times state now uri cred parsed_date expires_seconds
    ok (record {
      method = method;
      host = host;
      uri = uri;
      scope = scope;
      amz_date = amz_date;
      parsed_date = parsed_date;
      expires_seconds = expires_seconds;
      signature_hex = signature_hex;
      cred = cred;
    })

  unfoldable pub verify : State → Bytes → Bytes → Bytes → SystemTime → VerifyResult × State
  unfolding check_request check_signature set_cache
  verify state raw_method raw_uri raw_host now =
      elim (check_request state raw_method raw_uri raw_host now) [
        | err denial ↦ (denial, state)
        | ok c ↦
            let (result, cache) =
              check_signature c.method c.host c.uri c.scope c.amz_date c.signature_hex c.cred in
            (
              result,
              record state { credentials = set_cache c.scope.access_key cache state.credentials },
            )
      ]
