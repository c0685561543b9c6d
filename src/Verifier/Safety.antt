-- ===== src/Verifier/Safety.antt =====
-- `verify` allows a request exactly if it fulfils every condition and carries the signature of its
-- canonical request under the credential's secret.
use sigv4_verify.Base.{ℕ, ◌≡◌, refl, Bytes, ok, arith, Result-cases, inl, inr}
use sigv4_verify.Crypto.{Crypto}
use sigv4_verify.Verifier.Types.{SystemTime, CompiledCredential, State}
use sigv4_verify.Scope.{CredentialScope}
use sigv4_verify.Date.{ParsedAmzDate}
use sigv4_verify.Verifier.Defs.{RequestUri, read_metadata, read_uri}
use sigv4_verify.Verifier.Handler.{
  Checked, read_scope, read_date, read_expiry, find_credential, check_times, check_request,
}
use sigv4_verify.Verifier.Checks.{
  IsMetadata, IsUri, IsScoped, read_metadata-IsMetadata, read_uri-IsUri, read_scope-IsScoped,
}
use sigv4_verify.Verifier.Limits.{
  IsDated, IsExpiring, IsGranted, IsTimely, read_date-IsDated, read_expiry-IsExpiring,
  find_credential-IsGranted, check_times-IsTimely,
}
use sigv4_verify.Verifier.Accepts.{
  IsMetadata-read_metadata, IsUri-read_uri, IsScoped-read_scope, IsDated-read_date,
  IsExpiring-read_expiry, IsGranted-find_credential, IsTimely-check_times,
}

-- The request meets every condition but the signature's.
pub record IsChecked (state : State) (raw_method raw_uri raw_host : Bytes) (now : SystemTime)
    (c : Checked) : Type 0 where
  pub metadata : IsMetadata state raw_method raw_uri raw_host c.method c.host
  pub uri_parts : IsUri raw_uri c.uri
  pub scoped : IsScoped state c.uri.query c.scope
  pub dated : IsDated c.uri.query c.scope c.amz_date c.parsed_date
  pub expiring : IsExpiring c.uri.query c.expires_seconds c.signature_hex
  pub granted :
      IsGranted state c.method c.host c.uri.path c.scope.access_key c.expires_seconds c.cred
  pub timely : IsTimely state now c.parsed_date c.expires_seconds

module _ (crypto : Crypto) (state : State) (raw_method raw_uri raw_host : Bytes)
    (now : SystemTime) where
  -- The parts' results, one by one.
  record Parts (c : Checked) : Type 0 where
    metadata : read_metadata state raw_method raw_uri raw_host ≡ ok (c.method, c.host)
    uri_parts : read_uri raw_uri ≡ ok c.uri
    scoped : read_scope crypto state c.uri ≡ ok c.scope
    dated : read_date crypto c.uri c.scope ≡ ok (c.amz_date, c.parsed_date)
    expiring : read_expiry crypto c.uri c.scope ≡ ok (c.expires_seconds, c.signature_hex)
    granted :
        find_credential crypto state c.method c.host c.uri c.scope c.expires_seconds ≡ ok c.cred
    timely : check_times crypto state now c.uri c.cred c.parsed_date c.expires_seconds ≡ ok tt

  parts_of :
      (c : Checked) (m : Bytes × Bytes) (uri : RequestUri) (scope : CredentialScope)
      (d : Bytes × ParsedAmzDate) (x : ℕ × Bytes) (cred : CompiledCredential)
      → read_metadata state raw_method raw_uri raw_host ≡ ok m
      → read_uri raw_uri ≡ ok uri
      → read_scope crypto state uri ≡ ok scope
      → read_date crypto uri scope ≡ ok d
      → read_expiry crypto uri scope ≡ ok x
      → find_credential crypto state m.0 m.1 uri scope x.0 ≡ ok cred
      → check_times crypto state now uri cred d.1 x.0 ≡ ok tt
      → check_request crypto state raw_method raw_uri raw_host now ≡ ok c
      → Parts c
  unfolding check_request
  parts_of c m uri scope d x cred a1 a2 a3 a4 a5 a6 a7 h =
      let found : Checked = record {
        method = m.0;
        host = m.1;
        uri = uri;
        scope = scope;
        amz_date = d.0;
        parsed_date = d.1;
        expires_seconds = x.0;
        signature_hex = x.1;
        cred = cred;
      } in
      let same : ok found ≡ ok c = rw (a1, a2, a3, a4, a5, a6, a7) at h in
      let q : found ≡ c = cc in
      rw (← q) (record {
        metadata = a1;
        uri_parts = a2;
        scoped = a3;
        dated = a4;
        expiring = a5;
        granted = a6;
        timely = a7;
      })

  check_request-Parts :
      (c : Checked) → check_request crypto state raw_method raw_uri raw_host now ≡ ok c → Parts c
  unfolding check_request
  check_request-Parts c h = elim (Result-cases (read_metadata state raw_method raw_uri raw_host)) [
    | inr (e, bad) ↦ ground arith
    | inl (m, a1) ↦ elim (Result-cases (read_uri raw_uri)) [
      | inr (e, bad) ↦ ground arith
      | inl (uri, a2) ↦ elim (Result-cases (read_scope crypto state uri)) [
        | inr (e, bad) ↦ ground arith
        | inl (scope, a3) ↦ elim (Result-cases (read_date crypto uri scope)) [
          | inr (e, bad) ↦ ground arith
          | inl (d, a4) ↦ elim (Result-cases (read_expiry crypto uri scope)) [
            | inr (e, bad) ↦ ground arith
            | inl (x, a5) ↦
                elim (Result-cases (find_credential crypto state m.0 m.1 uri scope x.0)) [
                  | inr (e, bad) ↦ ground arith
                  | inl (cred, a6) ↦
                      elim (Result-cases (check_times crypto state now uri cred d.1 x.0)) [
                        | inr (e, bad) ↦ ground arith
                        | inl (u, a7) ↦ parts_of c m uri scope d x cred a1 a2 a3 a4 a5 a6 a7 h
                      ]
                ]
          ]
        ]
      ]
    ]
  ]

  pub check_request-IsChecked :
      (c : Checked)
      → check_request crypto state raw_method raw_uri raw_host now ≡ ok c
      → IsChecked state raw_method raw_uri raw_host now c
  check_request-IsChecked c h =
      let p = check_request-Parts c h in
      record {
        metadata = read_metadata-IsMetadata state raw_method raw_uri raw_host p.metadata;
        uri_parts = read_uri-IsUri raw_uri p.uri_parts;
        scoped = read_scope-IsScoped crypto state c.uri p.scoped;
        dated = read_date-IsDated crypto c.uri c.scope p.dated;
        expiring = read_expiry-IsExpiring crypto c.uri c.scope p.expiring;
        granted =
            find_credential-IsGranted crypto state c.method c.host c.uri c.scope c.expires_seconds
              p.granted;
        timely =
            check_times-IsTimely crypto state now c.uri c.cred c.parsed_date c.expires_seconds
              p.timely;
      }

  pub IsChecked-check_request :
      (c : Checked)
      → IsChecked state raw_method raw_uri raw_host now c
      → check_request crypto state raw_method raw_uri raw_host now ≡ ok c
  unfolding check_request
  IsChecked-check_request c h =
      rw
        (
          IsMetadata-read_metadata state raw_method raw_uri raw_host c.method c.host h.metadata,
          IsUri-read_uri raw_uri c.uri h.uri_parts,
          IsScoped-read_scope crypto state c.uri c.scope h.scoped,
          IsDated-read_date crypto c.uri c.scope c.amz_date c.parsed_date h.dated,
          IsExpiring-read_expiry crypto c.uri c.scope c.expires_seconds c.signature_hex h.expiring,
          IsGranted-find_credential crypto state c.method c.host c.uri c.scope c.expires_seconds
              c.cred h.granted,
          IsTimely-check_times crypto state now c.uri c.cred c.parsed_date c.expires_seconds
              h.timely,
        )
        refl
