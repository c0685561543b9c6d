-- ===== src/Verifier/Accepts.antt =====
-- A request that fulfils the conditions of a part passes it.
use sigv4_verify.Base.{ℕ, ◌≡◌, refl, false, Bytes, codes, ltb, ◌==◌, bytes_eq_refl, ok, arith}
use sigv4_verify.Base.Int.{ℤ, pos, ◌+ℤ◌, ltb_ℤ, ◌≤ℤ◌, saturate}
use sigv4_verify.Crypto.{Crypto}
use sigv4_verify.Scope.{CredentialScope}
use sigv4_verify.Date.{ParsedAmzDate}
use sigv4_verify.Signing.{algorithm_name, terminal_name}
use sigv4_verify.Verifier.Types.{SystemTime, CompiledCredential, State}
use sigv4_verify.Verifier.Defs.{
  min_i64, system_time_epoch_seconds, saturating_duration_i64, RequestUri, read_metadata, read_uri,
}
use sigv4_verify.Verifier.Handler.{read_scope, read_date, read_expiry, find_credential, check_times}
use sigv4_verify.Verifier.Checks.{IsMetadata, IsUri, IsScoped}
use sigv4_verify.Verifier.Limits.{IsDated, IsExpiring, IsGranted, IsTimely}

pub IsMetadata-read_metadata :
    (state : State) (raw_method raw_uri raw_host method host : Bytes)
    → IsMetadata state raw_method raw_uri raw_host method host
    → read_metadata state raw_method raw_uri raw_host ≡ ok (method, host)
unfolding read_metadata
IsMetadata-read_metadata state raw_method raw_uri raw_host method host h = ground arith

pub IsUri-read_uri :
    (raw_uri : Bytes) (uri : RequestUri) → IsUri raw_uri uri → read_uri raw_uri ≡ ok uri
unfolding read_uri
IsUri-read_uri raw_uri uri h = rw (h.split_lem, h.query_lem) refl

module _ (crypto : Crypto) where
  pub IsScoped-read_scope :
      (state : State) (uri : RequestUri) (scope : CredentialScope)
      → IsScoped state uri.query scope
      → read_scope crypto state uri ≡ ok scope
  unfolding read_scope
  IsScoped-read_scope state uri scope h =
      rw
        (
          h.algorithm_lem,
          bytes_eq_refl algorithm_name,
          h.credential_lem,
          h.scope_lem,
          h.service_lem,
          bytes_eq_refl state.settings.supported_service,
          h.terminal_lem,
          bytes_eq_refl terminal_name,
          h.signed_headers_lem,
          bytes_eq_refl (codes "host"),
        )
        refl

  pub IsDated-read_date :
      (uri : RequestUri) (scope : CredentialScope) (amz_date : Bytes) (parsed : ParsedAmzDate)
      → IsDated uri.query scope amz_date parsed
      → read_date crypto uri scope ≡ ok (amz_date, parsed)
  unfolding read_date
  IsDated-read_date uri scope amz_date parsed h =
      rw (h.date_lem, h.parsed_lem, h.same_date_lem, bytes_eq_refl scope.date) refl

  pub IsExpiring-read_expiry :
      (uri : RequestUri) (scope : CredentialScope) (n : ℕ) (signature_hex : Bytes)
      → IsExpiring uri.query n signature_hex
      → read_expiry crypto uri scope ≡ ok (n, signature_hex)
  unfolding read_expiry
  IsExpiring-read_expiry uri scope n signature_hex h =
      let low = h.positive in
      let high = h.bounded in
      let zero_no : (n == 0) ≡ false = ground arith in
      let max_no : ltb 604_800 n ≡ false = ground arith in
      rw (h.expires_lem, h.seconds_lem, zero_no, max_no, h.signature_lem) refl

  pub IsGranted-find_credential :
      (state : State) (method host : Bytes) (uri : RequestUri) (scope : CredentialScope) (n : ℕ)
      (cred : CompiledCredential)
      → IsGranted state method host uri.path scope.access_key n cred
      → find_credential crypto state method host uri scope n ≡ ok cred
  unfolding find_credential
  IsGranted-find_credential state method host uri scope n cred h =
      rw (h.lookup_lem, h.enabled, h.method_lem, h.host_lem, h.path_lem, h.within) refl

  le-ltb_ℤ : (a b : ℤ) → b ≤ℤ a → ltb_ℤ a b ≡ false
  le-ltb_ℤ a b h = ground arith

  pub IsTimely-check_times :
      (state : State) (now : SystemTime) (uri : RequestUri) (cred : CompiledCredential)
      (parsed : ParsedAmzDate) (n : ℕ)
      → IsTimely state now parsed n
      → check_times crypto state now uri cred parsed n ≡ ok tt
  unfolding check_times
  IsTimely-check_times state now uri cred parsed n h =
      rw
        (
          le-ltb_ℤ
              (saturate (
                system_time_epoch_seconds now
                +ℤ saturating_duration_i64 state.settings.allowed_clock_skew))
              parsed.epoch_seconds h.not_future,
          le-ltb_ℤ (saturate (parsed.epoch_seconds +ℤ pos (min_i64 n)))
              (system_time_epoch_seconds now) h.not_expired,
        )
        refl
