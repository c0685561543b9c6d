-- ===== src/Verifier/Denials.antt =====
-- What `verify` returns early is a denial: not allowed, with a reason other than `ok`.
use sigv4_verify.Base.{
  ℕ, ◌≡◌, refl, Bool, true, false, not, ◌&&◌, Option, none, some, Bytes, bytes_eq, ◌>>=◌, ok, err,
  arith,
}
use sigv4_verify.Crypto.{Crypto}
use sigv4_verify.Date.{ParsedAmzDate}
use sigv4_verify.Scope.{CredentialScope}
use sigv4_verify.Verifier.Types.{SystemTime, CompiledCredential, State, VerifyResult}
use sigv4_verify.Verifier.Defs.{reason_ok, Part, RequestUri, read_metadata, read_uri}
use sigv4_verify.Verifier.Handler.{
  read_scope, read_date, read_expiry, find_credential, check_times, check_request,
}

abbrev is_none : Option Bytes → Bool
is_none none = true
is_none (some a) = false

unfoldable pub is_denial : VerifyResult → Bool
is_denial r = not r.allowed && not (bytes_eq r.reason reason_ok) && is_none r.access_key

-- Whatever the part returns early is a denial.
abbrev denies : {A : Type 0} → Part A → Bool
denies (ok a) = true
denies (err e) = is_denial e

metadata_denies :
    (state : State) (raw_method raw_uri raw_host : Bytes)
    → denies (read_metadata state raw_method raw_uri raw_host) ≡ true
unfolding read_metadata is_denial bytes_eq
metadata_denies state raw_method raw_uri raw_host = ground arith

uri_denies : (raw_uri : Bytes) → denies (read_uri raw_uri) ≡ true
unfolding read_uri is_denial bytes_eq
uri_denies raw_uri = ground arith

module _ (crypto : Crypto) where
  scope_denies : (state : State) (uri : RequestUri) → denies (read_scope crypto state uri) ≡ true
  unfolding read_scope is_denial bytes_eq
  scope_denies state uri = ground arith

  date_denies :
      (uri : RequestUri) (scope : CredentialScope) → denies (read_date crypto uri scope) ≡ true
  unfolding read_date is_denial bytes_eq
  date_denies uri scope = ground arith

  expiry_denies :
      (uri : RequestUri) (scope : CredentialScope) → denies (read_expiry crypto uri scope) ≡ true
  unfolding read_expiry is_denial bytes_eq
  expiry_denies uri scope = ground arith

  credential_denies :
      (state : State) (method host : Bytes) (uri : RequestUri) (scope : CredentialScope) (n : ℕ)
      → denies (find_credential crypto state method host uri scope n) ≡ true
  unfolding find_credential is_denial bytes_eq
  credential_denies state method host uri scope n = ground arith

  times_denies :
      (state : State) (now : SystemTime) (uri : RequestUri) (cred : CompiledCredential)
      (d : ParsedAmzDate) (n : ℕ)
      → denies (check_times crypto state now uri cred d n) ≡ true
  unfolding check_times is_denial bytes_eq
  times_denies state now uri cred d n = ground arith

  -- The same of a chain.
  denies-then :
      {A B : Type 0} (m : Part A) (f : A → Part B)
      → denies m ≡ true
      → ((a : A) → denies (f a) ≡ true)
      → denies (m >>= f) ≡ true
  denies-then (ok a) f h k = k a
  denies-then (err e) f h k = h

  pub check_request-denies :
      (state : State) (raw_method raw_uri raw_host : Bytes) (now : SystemTime)
      → denies (check_request crypto state raw_method raw_uri raw_host now) ≡ true
  unfolding check_request
  check_request-denies state raw_method raw_uri raw_host now =
      denies-then (read_metadata state raw_method raw_uri raw_host) _
        (metadata_denies state raw_method raw_uri raw_host)
        (λ m. denies-then (read_uri raw_uri) _ (uri_denies raw_uri) (λ uri.
          denies-then (read_scope crypto state uri) _ (scope_denies state uri) (λ scope.
            denies-then (read_date crypto uri scope) _ (date_denies uri scope) (λ d.
              denies-then (read_expiry crypto uri scope) _ (expiry_denies uri scope) (λ x.
                denies-then (find_credential crypto state m.0 m.1 uri scope x.0) _
                  (credential_denies state m.0 m.1 uri scope x.0)
                  (λ cred.
                    denies-then (check_times crypto state now uri cred d.1 x.0) _
                      (times_denies state now uri cred d.1 x.0) (λ u. refl)))))))
