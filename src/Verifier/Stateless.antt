-- ===== src/Verifier/Stateless.antt =====
-- `Verifier::verify` on a state, and on the same state with its signing-key caches emptied.
use sigv4_verify.Base.{
  ℕ, ◌≡◌, refl, sym, ◌∙◌, Bool, true, false, not, ◌||◌, Option, none, some, [], ◌∷◌, All, map,
  Bytes, bytes_eq, ok, err, ◌>>=◌, ◌>>◌, Option-cases, Result-cases, Bool-cases, inl, inr,
}
use sigv4_verify.Crypto.{Crypto}
use sigv4_verify.Scope.{CredentialScope}
use sigv4_verify.Signing.{sign, decode_signature}
use sigv4_verify.Signing.Threads.{IsValid, Reach-IsValid, start, signing_key_lem}
use sigv4_verify.Verifier.Types.{
  exceeds, from_secs, SystemTime, CompiledCredential, Credentials, State, VerifyResult, lookup,
}
use sigv4_verify.Verifier.Defs.{
  Part, RequestUri, unless, reason_ok, reason_signature_mismatch, deny, method_allowed,
  host_allowed, path_allowed, read_metadata, read_uri,
}
use sigv4_verify.Verifier.Handler.{
  Checked, read_scope, read_date, read_expiry, find_credential, check_times, check_request,
  check_signature, verdict, verify,
}
use sigv4_verify.Verifier.Safety.{check_request-IsChecked}
use sigv4_verify.Verifier.Allowed.{
  HasValidCache, IsSound, expected_signature, check_signature_of, verify-passed, verify-denied,
  IsChecked-IsValid,
}
use sigv4_verify.Verifier.Caches.{without_cache}

-- The state with every cache emptied.
abbrev pub stateless : State → State
stateless state = record state { credentials = map without_cache state.credentials }

abbrev pub emptied : CompiledCredential → CompiledCredential
emptied cred = record cred { signing_cache = [] }

abbrev emptied_part : Part CompiledCredential → Part CompiledCredential
emptied_part (ok cred) = ok (emptied cred)
emptied_part (err e) = err e

abbrev pub emptied_option : Option CompiledCredential → Option CompiledCredential
emptied_option none = none
emptied_option (some cred) = some (emptied cred)

abbrev pub emptied_checked : Part Checked → Part Checked
emptied_checked (ok c) = ok (record c { cred = emptied c.cred })
emptied_checked (err e) = err e

pub lookup-without_cache :
    (k : Bytes) (es : Credentials) → lookup k (map without_cache es) ≡ emptied_option (lookup k es)
unfolding lookup
lookup-without_cache k [] = refl
lookup-without_cache k (e ∷ es) = elim (Bool-cases (bytes_eq e.0 k)) [
  | inl same ↦ rw same refl
  | inr other ↦ rw other (lookup-without_cache k es)
]

-- Three guards commute with the emptying.
guards :
    (a b c : Bool) (d e f : VerifyResult) (cred : CompiledCredential)
    → (unless a d >> (unless b e >> (unless c f >> ok (emptied cred))))
      ≡ emptied_part (unless a d >> (unless b e >> (unless c f >> ok cred)))
guards true b c d e f cred = refl
guards false true c d e f cred = refl
guards false false true d e f cred = refl
guards false false false d e f cred = refl

commute :
    {A : Type 0} (m : Part A) (f g : A → Part Checked)
    → ((a : A) → f a ≡ emptied_checked (g a))
    → (m >>= f) ≡ emptied_checked (m >>= g)
commute (ok a) f g h = h a
commute (err e) f g h = refl

commute_cred :
    (m' m : Part CompiledCredential) (f g : CompiledCredential → Part Checked)
    → m' ≡ emptied_part m
    → ((cred : CompiledCredential) → f (emptied cred) ≡ emptied_checked (g cred))
    → (m' >>= f) ≡ emptied_checked (m >>= g)
commute_cred m' (ok cred) f g e h = rw e (h cred)
commute_cred m' (err x) f g e h = rw e refl

module _ (crypto : Crypto) where
  find_credential-stateless :
      (state : State) (method host : Bytes) (uri : RequestUri) (scope : CredentialScope) (n : ℕ)
      → find_credential crypto (stateless state) method host uri scope n
        ≡ emptied_part (find_credential crypto state method host uri scope n)
  unfolding find_credential
  find_credential-stateless state method host uri scope n =
      elim (Option-cases (lookup scope.access_key state.credentials)) [
        | inl missing ↦ rw (lookup-without_cache scope.access_key state.credentials, missing) refl
        | inr (c, found) ↦
            rw (lookup-without_cache scope.access_key state.credentials, found)
              (guards (not c.enabled)
                (not (method_allowed c method)
                  || not (host_allowed c host)
                  || not (path_allowed c uri.path))
                (exceeds (from_secs n) c.max_expires) _ _ _ c)
      ]

  pub check_request-stateless :
      (state : State) (raw_method raw_uri raw_host : Bytes) (now : SystemTime)
      → check_request crypto (stateless state) raw_method raw_uri raw_host now
        ≡ emptied_checked (check_request crypto state raw_method raw_uri raw_host now)
  unfolding check_request read_metadata read_scope check_times
  check_request-stateless state raw_method raw_uri raw_host now =
      commute (read_metadata state raw_method raw_uri raw_host) _ _ (λ m.
        commute (read_uri raw_uri) _ _ (λ uri. commute (read_scope crypto state uri) _ _ (λ scope.
          commute (read_date crypto uri scope) _ _ (λ d.
            commute (read_expiry crypto uri scope) _ _ (λ x.
              commute_cred (find_credential crypto (stateless state) m.0 m.1 uri scope x.0)
                (find_credential crypto state m.0 m.1 uri scope x.0) _ _
                (find_credential-stateless state m.0 m.1 uri scope x.0)
                (λ cred.
                  commute (check_times crypto state now uri cred d.1 x.0) _ _ (λ u. refl)))))))

  -- The verdict, with the key derived.
  pub check_signature_lem :
      (c : Checked)
      → IsValid crypto c.cred.secret_seed c.cred.signing_cache
      → (check_signature_of crypto c).0
        ≡ verdict crypto
            (decode_signature c.signature_hex)
            (expected_signature crypto c)
            (deny reason_signature_mismatch c.uri.path c.cred.access_key_hash)
            (record {
              allowed = true;
              reason = reason_ok;
              path = c.uri.path;
              access_key = some c.cred.access_key;
              access_key_hash = c.cred.access_key_hash;
            })
  unfolding check_signature sign
  check_signature_lem c v =
      let key =
        (signing_key_lem crypto c.cred.secret_seed c.scope.date c.scope.region c.scope.service
          c.cred.signing_cache v).0 in
      rw (← key) refl

  abbrev pub emptied_of : Checked → Checked
  emptied_of c = record c { cred = emptied c.cred }

  pub stateless-IsSound : (es : Credentials) → All (HasValidCache crypto) (map without_cache es)
  stateless-IsSound [] = tt
  stateless-IsSound (e ∷ es) = (Reach-IsValid crypto e.1.secret_seed start, stateless-IsSound es)

  pub verify-stateless :
      (state : State) (raw_method raw_uri raw_host : Bytes) (now : SystemTime)
      → IsSound crypto state
      → (verify crypto state raw_method raw_uri raw_host now).0
        ≡ (verify crypto (stateless state) raw_method raw_uri raw_host now).0
  verify-stateless state raw_method raw_uri raw_host now sound =
      let same = check_request-stateless state raw_method raw_uri raw_host now in
      elim (Result-cases (check_request crypto state raw_method raw_uri raw_host now)) [
        | inr (e, denied) ↦
            rw
              (
                verify-denied crypto state raw_method raw_uri raw_host now e denied,
                verify-denied crypto (stateless state) raw_method raw_uri raw_host now e
                    (rw denied at same),
              )
              refl
        | inl (c, passed) ↦
            let checked =
              check_request-IsChecked crypto state raw_method raw_uri raw_host now c passed in
            let valid =
              IsChecked-IsValid crypto state raw_method raw_uri raw_host now sound c checked in
            rw
              (
                verify-passed crypto state raw_method raw_uri raw_host now c passed,
                verify-passed crypto (stateless state) raw_method raw_uri raw_host now
                    (emptied_of c) (rw passed at same),
              )
              (check_signature_lem c valid
                ∙ sym (
                    check_signature_lem (emptied_of c)
                      (Reach-IsValid crypto c.cred.secret_seed start)))
      ]
