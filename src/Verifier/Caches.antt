-- ===== src/Verifier/Caches.antt =====
-- `verify` keeps every credential's signing-key cache sound, and changes nothing else of the state.
use sigv4_verify.Base.{
  ◌≡◌, refl, some, [], ◌∷◌, All, Bytes, bytes_eq, map, Result-cases, Bool-cases, inl, inr,
}
use sigv4_verify.Crypto.{Crypto}
use sigv4_verify.Signing.{Cache, sign}
use sigv4_verify.Signing.Threads.{IsValid, signing_key_lem}
use sigv4_verify.Verifier.Types.{SystemTime, CompiledCredential, Credentials, State, lookup}
use sigv4_verify.Verifier.Handler.{Checked, check_request, check_signature, set_cache, verify}
use sigv4_verify.Verifier.Safety.{check_request-IsChecked}
use sigv4_verify.Verifier.Allowed.{
  HasValidCache, IsSound, check_signature_of, verify-passed, verify-denied, IsChecked-IsValid,
}

-- A credential with its cache left out.
abbrev pub without_cache : Bytes × CompiledCredential → Bytes × CompiledCredential
without_cache e = (e.0, record e.1 { signing_cache = [] })

pub set_cache-without_cache :
    (k : Bytes) (cache : Cache) (es : Credentials)
    → map without_cache (set_cache k cache es) ≡ map without_cache es
unfolding set_cache
set_cache-without_cache k cache [] = refl
set_cache-without_cache k cache (e ∷ es) = elim (Bool-cases (bytes_eq e.0 k)) [
  | inl same ↦ rw same refl
  | inr other ↦ rw (other, set_cache-without_cache k cache es) refl
]

module _ (crypto : Crypto) where
  pub set_cache-All :
      (k : Bytes) (cache : Cache) (es : Credentials) (cred : CompiledCredential)
      → lookup k es ≡ some cred
      → IsValid crypto cred.secret_seed cache
      → All (HasValidCache crypto) es
      → All (HasValidCache crypto) (set_cache k cache es)
  unfolding lookup set_cache
  set_cache-All k cache [] cred q v h = tt
  set_cache-All k cache (e ∷ es) cred q v (he, hes) = elim (Bool-cases (bytes_eq e.0 k)) [
    | inl same ↦
        let p : some e.1 ≡ some cred = rw same at q in
        let p' : e.1 ≡ cred = cc in rw same (rw p' v, hes)
    | inr other ↦ rw other (he, set_cache-All k cache es cred (rw other at q) v hes)
  ]

  -- `sign` leaves a valid cache.
  check_signature-IsValid :
      (c : Checked)
      → IsValid crypto c.cred.secret_seed c.cred.signing_cache
      → IsValid crypto c.cred.secret_seed (check_signature_of crypto c).1
  unfolding check_signature sign
  check_signature-IsValid c v =
      (signing_key_lem crypto c.cred.secret_seed c.scope.date c.scope.region c.scope.service
        c.cred.signing_cache v).1

  module _ (state : State) (raw_method raw_uri raw_host : Bytes) (now : SystemTime) where
    -- If every credential's cache holds keys of its own secret only, the same holds after verify,
    -- which changes neither the settings nor the supported methods nor any credential but for its
    -- cache.
    pub verify-IsSound :
        IsSound crypto state
        → let state' = (verify crypto state raw_method raw_uri raw_host now).1 in
          IsSound crypto state'
          × (state'.settings ≡ state.settings)
          × (state'.supported_methods ≡ state.supported_methods)
          × (map without_cache state'.credentials ≡ map without_cache state.credentials)
    verify-IsSound sound =
        elim (Result-cases (check_request crypto state raw_method raw_uri raw_host now)) [
          | inr (e, denied) ↦
              rw (verify-denied crypto state raw_method raw_uri raw_host now e denied)
                (sound, refl, refl, refl)
          | inl (c, passed) ↦
              let checked =
                check_request-IsChecked crypto state raw_method raw_uri raw_host now c passed in
              let valid =
                IsChecked-IsValid crypto state raw_method raw_uri raw_host now sound c checked in
              rw (verify-passed crypto state raw_method raw_uri raw_host now c passed) (
                set_cache-All c.scope.access_key (check_signature_of crypto c).1 state.credentials
                    c.cred checked.granted.lookup_lem (check_signature-IsValid c valid) sound,
                refl,
                refl,
                set_cache-without_cache c.scope.access_key (check_signature_of crypto c).1
                    state.credentials,
              )
        ]
