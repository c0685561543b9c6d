-- ===== src/Verifier/Allowed.antt =====
-- `verify` allows a request exactly if it fulfils every condition and carries the signature of its
-- canonical request under the credential's secret.
use sigv4_verify.Base.{
  ◌≡◌, ◌↔◌, ◌≢◌, ◌⊎◌, refl, subst, true, false, ◌==◌, Option, none, some, [], ◌∷◌, All, Bytes,
  bytes_eq, bytes_eq_refl, length, ok, err, arith, Result-cases, Bool-cases, inl, inr,
}
use sigv4_verify.Crypto.{Crypto}
use sigv4_verify.Uri.{canonical_uri_from_valid_path}
use sigv4_verify.Signing.{
  Cache, hmac_sha256, derive_key, sign, string_to_sign, hash_canonical_request, decode_signature,
}
use sigv4_verify.Signing.Threads.{IsValid, signing_key_lem}
use sigv4_verify.Signing.Signatures.{decode_signature-length}
use sigv4_verify.Verifier.Types.{
  SystemTime, CompiledCredential, Credentials, State, VerifyResult, lookup,
}
use sigv4_verify.Verifier.Defs.{reason_ok, reason_signature_mismatch, deny, Part}
use sigv4_verify.Verifier.Handler.{
  Checked, check_request, check_signature, verdict, set_cache, verify,
}
use sigv4_verify.Verifier.Denials.{is_denial, check_request-denies}
use sigv4_verify.Verifier.Safety.{IsChecked, check_request-IsChecked, IsChecked-check_request}

-- The flag, the reason and the access key agree.
abbrev pub IsConsistent : VerifyResult → Type 0
IsConsistent r =
    ((r.allowed ≡ true) × (r.reason ≡ reason_ok) × (r.access_key ≢ none))
    ⊎ ((r.allowed ≡ false) × (r.reason ≢ reason_ok) × (r.access_key ≡ none))

one_result : {A : Type 0} (m : Part A) (a b : A) → m ≡ ok a → m ≡ ok b → a ≡ b
one_result m a b p q = cc

module _ (crypto : Crypto) where
  -- The signature of the request under its credential's secret, with no cache.
  abbrev pub expected_signature : Checked → Bytes
  expected_signature c =
      hmac_sha256 crypto
        (derive_key crypto c.cred.secret_seed c.scope.date c.scope.region c.scope.service)
        (string_to_sign crypto c.amz_date c.scope.scope (
          hash_canonical_request crypto c.method (canonical_uri_from_valid_path c.uri.path)
            c.uri.canonical_query_string c.host))

  abbrev pub IsSigned : Checked → Type 0
  IsSigned c = decode_signature c.signature_hex ≡ some (expected_signature c)

  -- Every credential's cache holds keys of its own secret.
  abbrev pub HasValidCache : Bytes × CompiledCredential → Type 0
  HasValidCache e = IsValid crypto e.1.secret_seed e.1.signing_cache

  abbrev pub IsSound : State → Type 0
  IsSound state = All HasValidCache state.credentials

  abbrev pub check_signature_of : Checked → VerifyResult × Cache
  check_signature_of c =
      check_signature crypto c.method c.host c.uri c.scope c.amz_date c.signature_hex c.cred

  pub lookup-All :
      (k : Bytes) (es : Credentials) {cred : CompiledCredential}
      → All HasValidCache es
      → lookup k es ≡ some cred
      → IsValid crypto cred.secret_seed cred.signing_cache
  unfolding lookup
  lookup-All k [] h q = ground arith
  lookup-All k (e ∷ es) {cred} (he, hes) q = elim (Bool-cases (bytes_eq e.0 k)) [
    | inl same ↦ let p : e.1 ≡ cred = ground arith in rw (← p) he
    | inr other ↦ lookup-All k es hes (rw (other, lookup) at q)
  ]

  -- The verdict on a decoded signature.
  verdict_lem :
      (decoded : Option Bytes) (expected : Bytes) (m a : VerifyResult)
      → m.allowed ≡ false
      → a.allowed ≡ true
      → length expected ≡ 32
      → ((s : Bytes) → decoded ≡ some s → length s ≡ 32)
      → ((verdict crypto decoded expected m a).allowed ≡ true) ↔ (decoded ≡ some expected)
  verdict_lem none expected m a hm ha le ls = ground arith
  verdict_lem (some s) expected m a hm ha le ls =
      ground (arith, crypto.ct_eq_iff s expected (ls s refl) le)

  check_signature-allowed :
      (c : Checked)
      → IsValid crypto c.cred.secret_seed c.cred.signing_cache
      → ((check_signature_of c).0.allowed ≡ true) ↔ IsSigned c
  unfolding check_signature sign
  check_signature-allowed c v =
      let key =
        (signing_key_lem crypto c.cred.secret_seed c.scope.date c.scope.region c.scope.service
          c.cred.signing_cache v).0 in
      rw (← key) (
        verdict_lem (decode_signature c.signature_hex) _ _ _ refl refl (crypto.hmac_sign_length _ _)
          (λ s h. decode_signature-length c.signature_hex h))

  is_denial_lem : (r : VerifyResult) → is_denial r ≡ true → IsConsistent r
  unfolding is_denial
  is_denial_lem r h =
      inr (ground arith, (λ same. ground (arith, bytes_eq_refl reason_ok)), ground arith)

  -- A verdict is one of the two results.
  pub verdict_keeps :
      (P : VerifyResult → Type 0) (decoded : Option Bytes) (expected : Bytes) (m a : VerifyResult)
      → P m
      → P a
      → P (verdict crypto decoded expected m a)
  verdict_keeps P none expected m a hm ha = hm
  verdict_keeps P (some s) expected m a hm ha = elim (Bool-cases (crypto.ct_eq s expected == 1)) [
    | inl same ↦ rw same ha
    | inr differs ↦ rw differs hm
  ]

  check_signature-IsConsistent : (c : Checked) → IsConsistent (check_signature_of c).0
  unfolding check_signature is_denial bytes_eq
  check_signature-IsConsistent c =
      verdict_keeps IsConsistent (decode_signature c.signature_hex) _ _ _
        (is_denial_lem (deny reason_signature_mismatch c.uri.path c.cred.access_key_hash) refl)
        (inl (refl, refl, (λ h. cc)))

  module _ (state : State) (raw_method raw_uri raw_host : Bytes) (now : SystemTime) where
    pub verify-passed :
        (c : Checked)
        → check_request crypto state raw_method raw_uri raw_host now ≡ ok c
        → verify crypto state raw_method raw_uri raw_host now ≡ (
          (check_signature_of c).0,
          record state {
            credentials = set_cache c.scope.access_key (check_signature_of c).1 state.credentials;
          },
        )
    unfolding verify check_signature set_cache
    verify-passed c passed = rw (passed, verify) refl

    pub verify-denied :
        (e : VerifyResult)
        → check_request crypto state raw_method raw_uri raw_host now ≡ err e
        → verify crypto state raw_method raw_uri raw_host now ≡ (e, state)
    unfolding verify
    verify-denied e denied = rw (denied, verify) refl

    denied-is_denial :
        (e : VerifyResult)
        → check_request crypto state raw_method raw_uri raw_host now ≡ err e
        → is_denial e ≡ true
    denied-is_denial e denied =
        rw denied at (check_request-denies crypto state raw_method raw_uri raw_host now)

    pub IsChecked-IsValid :
        IsSound state
        → (c : Checked) → IsChecked state raw_method raw_uri raw_host now c
        → IsValid crypto c.cred.secret_seed c.cred.signing_cache
    IsChecked-IsValid sound c checked =
        lookup-All c.scope.access_key state.credentials sound checked.granted.lookup_lem

    -- If every credential's cache holds keys of its own secret only, verify allows a request
    -- exactly if the parts of some reading of it meet every condition of IsChecked (method, URI,
    -- scope, date, expiry, credential and times) and its signature decodes to the HMAC of its
    -- string to sign under the key derived from the credential's secret.
    pub verify-allowed :
        IsSound state
        → ((verify crypto state raw_method raw_uri raw_host now).0.allowed ≡ true)
          ↔ ((c : Checked) × IsChecked state raw_method raw_uri raw_host now c × IsSigned c)
    verify-allowed sound = (
      (λ h. elim (Result-cases (check_request crypto state raw_method raw_uri raw_host now)) [
        | inr (e, denied) ↦
            let a : e.allowed ≡ true = rw (verify-denied e denied) at h in
            let b = denied-is_denial e denied in unfold is_denial in ground arith
        | inl (c, passed) ↦
            let a : (check_signature_of c).0.allowed ≡ true = rw (verify-passed c passed) at h in
            let checked =
              check_request-IsChecked crypto state raw_method raw_uri raw_host now c passed in
            (c, checked, (check_signature-allowed c (IsChecked-IsValid sound c checked)).0 a)
      ]),
      (λ (c, checked, signed).
          let passed =
            IsChecked-check_request crypto state raw_method raw_uri raw_host now c checked in
          rw (verify-passed c passed)
            ((check_signature-allowed c (IsChecked-IsValid sound c checked)).1 signed)),
    )

    -- Every result of verify is either allowed with the reason ok and an access key, or not
    -- allowed with another reason and no access key.
    pub verify-IsConsistent : IsConsistent (verify crypto state raw_method raw_uri raw_host now).0
    verify-IsConsistent =
        elim (Result-cases (check_request crypto state raw_method raw_uri raw_host now)) [
          | inr (e, denied) ↦
              rw (verify-denied e denied) (is_denial_lem e (denied-is_denial e denied))
          | inl (c, passed) ↦ rw (verify-passed c passed) (check_signature-IsConsistent c)
        ]

  -- What is checked of an allowed request is signed.
  pub allowed-IsSigned :
      (state : State) (raw_method raw_uri raw_host : Bytes) (now : SystemTime) (c : Checked)
      → IsSound state
      → IsChecked state raw_method raw_uri raw_host now c
      → (verify crypto state raw_method raw_uri raw_host now).0.allowed ≡ true
      → IsSigned c
  allowed-IsSigned state m u h now c sound met a =
      let (found, met', signed) = (verify-allowed state m u h now sound).0 a in
      let same =
        one_result (check_request crypto state m u h now) found c
          (IsChecked-check_request crypto state m u h now found met')
          (IsChecked-check_request crypto state m u h now c met) in
      subst IsSigned same signed
