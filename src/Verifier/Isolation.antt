-- ===== src/Verifier/Isolation.antt =====
-- `Verifier::verify` on states that differ in other credentials than the request's.
use sigv4_verify.Base.{◌≡◌, refl, Bytes, ok, err, ◌>>=◌, Result-cases, inl, inr}
use sigv4_verify.Crypto.{Crypto}
use sigv4_verify.Scope.{CredentialScope}
use sigv4_verify.Verifier.Types.{SystemTime, State, Credentials, lookup}
use sigv4_verify.Verifier.Defs.{Part, RequestUri, read_metadata, read_uri}
use sigv4_verify.Verifier.Handler.{read_scope, find_credential, check_times, check_request, verify}
use sigv4_verify.Verifier.Allowed.{verify-passed, verify-denied}

-- Two chains that agree on what their first stage gives.
then_cong :
    {A B : Type 0} (m : Part A) (f g : A → Part B)
    → ((a : A) → m ≡ ok a → f a ≡ g a)
    → (m >>= f) ≡ (m >>= g)
then_cong (ok a) f g h = h a refl
then_cong (err e) f g h = refl

module _ (crypto : Crypto) (state : State) (es : Credentials) where
  -- The request's URI, if it can be read and names a scope, names a key that both know alike.
  abbrev pub Agree : Bytes → Type 0
  Agree raw_uri =
      (uri : RequestUri) (scope : CredentialScope)
      → read_uri raw_uri ≡ ok uri
      → read_scope crypto state uri ≡ ok scope
      → lookup scope.access_key es ≡ lookup scope.access_key state.credentials

  module _ (raw_method raw_uri raw_host : Bytes) (now : SystemTime) where
    check_request-isolated :
        Agree raw_uri
        → check_request crypto (record state { credentials = es }) raw_method raw_uri raw_host now
          ≡ check_request crypto state raw_method raw_uri raw_host now
    unfolding check_request read_metadata read_scope check_times find_credential
    check_request-isolated h =
        then_cong (read_metadata state raw_method raw_uri raw_host) _ _ (λ m p.
          then_cong (read_uri raw_uri) _ _ (λ uri read.
            then_cong (read_scope crypto state uri) _ _
              (λ scope scoped. rw (h uri scope read scoped) refl)))

    -- If the key of the scope that a request's URI names, if the URI can be read and names one,
    -- has the same credential or none in other credentials, verify gives the same result, denials
    -- included, with these credentials.
    pub verify-isolated :
        Agree raw_uri
        → (verify crypto (record state { credentials = es }) raw_method raw_uri raw_host now).0
          ≡ (verify crypto state raw_method raw_uri raw_host now).0
    verify-isolated h =
        let same = check_request-isolated h in
        elim (Result-cases (check_request crypto state raw_method raw_uri raw_host now)) [
          | inr (e, denied) ↦
              rw
                (
                  verify-denied crypto state raw_method raw_uri raw_host now e denied,
                  verify-denied crypto (record state { credentials = es }) raw_method raw_uri
                      raw_host now e (rw denied at same),
                )
                refl
          | inl (c, passed) ↦
              rw
                (
                  verify-passed crypto state raw_method raw_uri raw_host now c passed,
                  verify-passed crypto (record state { credentials = es }) raw_method raw_uri
                      raw_host now c (rw passed at same),
                )
                refl
        ]
