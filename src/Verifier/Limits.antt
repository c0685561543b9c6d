-- ===== src/Verifier/Limits.antt =====
-- What the date, the expiry and the credential must fulfil.
use sigv4_verify.Base.{
  ℕ, ◌≤◌, ◌≡◌, Bool, true, false, some, Bytes, bytes_eq→eq, ◌>>◌, ok, arith, Option-cases,
  Bool-cases, inl, inr,
}
use sigv4_verify.Base.Int.{ℤ, pos, ◌+ℤ◌, ltb_ℤ, ◌≤ℤ◌, saturate}
use sigv4_verify.Crypto.{Crypto}
use sigv4_verify.Text.Decimal.{parse_u64}
use sigv4_verify.Query.{SigV4Query}
use sigv4_verify.Scope.{CredentialScope}
use sigv4_verify.Date.{ParsedAmzDate, parse_amz_date}
use sigv4_verify.Verifier.Types.{
  from_secs, exceeds, SystemTime, CompiledCredential, State, VerifyResult, lookup,
}
use sigv4_verify.Verifier.Defs.{
  method_allowed, host_allowed, path_allowed, min_i64, system_time_epoch_seconds,
  saturating_duration_i64, unless, RequestUri,
}
use sigv4_verify.Verifier.Handler.{
  date_of, expires_of, signature_of, read_date, read_expiry, find_credential, check_times,
}

two_guards :
    (a b : Bool) (d e : VerifyResult)
    → (unless a d >> unless b e) ≡ ok tt
    → (a ≡ false) × (b ≡ false)
two_guards a b d e h = ground arith

ltb_ℤ-false : (a b : ℤ) → ltb_ℤ a b ≡ false → b ≤ℤ a
ltb_ℤ-false a b h = ground arith

pub record IsDated (query : SigV4Query) (scope : CredentialScope) (amz_date : Bytes)
    (parsed : ParsedAmzDate) : Type 0 where
  pub date_lem : date_of query ≡ some amz_date
  pub parsed_lem : parse_amz_date amz_date ≡ some parsed
  pub same_date_lem : parsed.date ≡ scope.date

pub record IsExpiring (query : SigV4Query) (expires_seconds : ℕ) (signature_hex : Bytes)
    : Type 0 where
  pub expires_value : Bytes
  pub expires_lem : expires_of query ≡ some expires_value
  pub seconds_lem : parse_u64 expires_value ≡ some expires_seconds
  pub positive : 1 ≤ expires_seconds
  pub bounded : expires_seconds ≤ 604_800
  pub signature_lem : signature_of query ≡ some signature_hex

pub record IsGranted (state : State) (method host path access_key : Bytes) (expires_seconds : ℕ)
    (cred : CompiledCredential) : Type 0 where
  pub lookup_lem : lookup access_key state.credentials ≡ some cred
  pub enabled : cred.enabled ≡ true
  pub method_lem : method_allowed cred method ≡ true
  pub host_lem : host_allowed cred host ≡ true
  pub path_lem : path_allowed cred path ≡ true
  pub within : exceeds (from_secs expires_seconds) cred.max_expires ≡ false

pub record IsTimely (state : State) (now : SystemTime) (parsed : ParsedAmzDate)
    (expires_seconds : ℕ) : Type 0 where
  pub not_future :
      parsed.epoch_seconds
      ≤ℤ saturate (
          system_time_epoch_seconds now
          +ℤ saturating_duration_i64 state.settings.allowed_clock_skew)
  pub not_expired :
      system_time_epoch_seconds now
      ≤ℤ saturate (parsed.epoch_seconds +ℤ pos (min_i64 expires_seconds))

module _ (crypto : Crypto) where
  pub read_date-IsDated :
      (uri : RequestUri) (scope : CredentialScope) {amz_date : Bytes} {parsed : ParsedAmzDate}
      → read_date crypto uri scope ≡ ok (amz_date, parsed)
      → IsDated uri.query scope amz_date parsed
  unfolding read_date
  read_date-IsDated uri scope {amz_date} {parsed} h = elim (Option-cases (date_of uri.query)) [
    | inl missing ↦ ground arith
    | inr (v, a) ↦ elim (Option-cases (parse_amz_date v)) [
      | inl bad ↦ ground arith
      | inr (p, b) ↦ record {
        date_lem = ground arith;
        parsed_lem = ground arith;
        same_date_lem = ground (arith, bytes_eq→eq p.date scope.date);
      }
    ]
  ]

  pub read_expiry-IsExpiring :
      (uri : RequestUri) (scope : CredentialScope) {expires_seconds : ℕ} {signature_hex : Bytes}
      → read_expiry crypto uri scope ≡ ok (expires_seconds, signature_hex)
      → IsExpiring uri.query expires_seconds signature_hex
  unfolding read_expiry
  read_expiry-IsExpiring uri scope {expires_seconds} {signature_hex} h =
      elim (Option-cases (expires_of uri.query)) [
        | inl missing ↦ ground arith
        | inr (v, a) ↦ elim (Option-cases (parse_u64 v)) [
          | inl bad ↦ ground arith
          | inr (n, b) ↦ record {
            expires_value = v;
            expires_lem = ground arith;
            seconds_lem = ground arith;
            positive = ground arith;
            bounded = ground arith;
            signature_lem = ground arith;
          }
        ]
      ]

  pub find_credential-IsGranted :
      (state : State) (method host : Bytes) (uri : RequestUri) (scope : CredentialScope) (n : ℕ)
      {cred : CompiledCredential}
      → find_credential crypto state method host uri scope n ≡ ok cred
      → IsGranted state method host uri.path scope.access_key n cred
  unfolding find_credential
  find_credential-IsGranted state method host uri scope n h =
      elim (Option-cases (lookup scope.access_key state.credentials)) [
        | inl missing ↦ ground arith
        | inr (c, found) ↦ elim (Bool-cases (method_allowed c method)) [
          | inr refused ↦ ground arith
          | inl method_ok ↦ elim (Bool-cases (host_allowed c host)) [
            | inr refused ↦ ground arith
            | inl host_ok ↦ elim (Bool-cases (path_allowed c uri.path)) [
              | inr refused ↦ ground arith
              | inl path_ok ↦ ground arith
            ]
          ]
        ]
      ]

  pub check_times-IsTimely :
      (state : State) (now : SystemTime) (uri : RequestUri) (cred : CompiledCredential)
      (parsed : ParsedAmzDate) (n : ℕ)
      → check_times crypto state now uri cred parsed n ≡ ok tt
      → IsTimely state now parsed n
  unfolding check_times
  check_times-IsTimely state now uri cred parsed n h =
      let (early, late) = two_guards _ _ _ _ h in
      record {
        not_future =
            ltb_ℤ-false
              (saturate (
                system_time_epoch_seconds now
                +ℤ saturating_duration_i64 state.settings.allowed_clock_skew))
              parsed.epoch_seconds early;
        not_expired =
            ltb_ℤ-false (saturate (parsed.epoch_seconds +ℤ pos (min_i64 n)))
              (system_time_epoch_seconds now) late;
      }
