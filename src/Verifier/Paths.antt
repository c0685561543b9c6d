-- ===== src/Verifier/Paths.antt =====
-- The paths in the results of `Verifier::verify`.
use sigv4_verify.Base.{
  ℕ, ◌≡◌, ◌⊎◌, refl, inl, inr, Bool, true, false, not, [], Bytes, ok, err, ◌>>=◌, ◌>>◌, ◌||◌, arith,
  Result-cases,
}
use sigv4_verify.Crypto.{Crypto}
use sigv4_verify.Percent.{UriResult}
use sigv4_verify.Query.{canonical_query}
use sigv4_verify.Uri.{split_original_uri}
use sigv4_verify.Date.{ParsedAmzDate}
use sigv4_verify.Scope.{CredentialScope}
use sigv4_verify.Text.Trim.{trim}
use sigv4_verify.Verifier.Compile.{is_empty}
use sigv4_verify.Verifier.Types.{contains, SystemTime, CompiledCredential, State, VerifyResult}
use sigv4_verify.Verifier.Defs.{
  Part, RequestUri, unless, accept, deny, ascii_upper_cow, ascii_lower_cow, path_or_default,
  reason_missing_metadata, reason_unsupported_method, reason_invalid_uri, read_metadata, read_uri,
}
use sigv4_verify.Verifier.Handler.{
  Checked, read_scope, read_date, read_expiry, find_credential, check_times, check_request,
  check_signature, verify,
}
use sigv4_verify.Verifier.Checks.{read_uri-IsUri}
use sigv4_verify.Verifier.Safety.{check_request-IsChecked}
use sigv4_verify.Verifier.Allowed.{check_signature_of, verdict_keeps, verify-passed, verify-denied}

abbrev pub IsPathOf : Bytes → Bytes → Type 0
IsPathOf raw_uri p = (p ≡ []) ⊎ ((q : Bytes) × (split_original_uri raw_uri ≡ ok (p, q)))

-- The path of whatever the part returns early has the property.
abbrev PathIn : {A : Type 0} → (Bytes → Type 0) → Part A → Type 0
PathIn P (ok a) = Unit
PathIn P (err e) = P e.path

PathIn-then :
    {A B : Type 0} (P : Bytes → Type 0) (m : Part A) (f : A → Part B)
    → PathIn P m
    → ((a : A) → m ≡ ok a → PathIn P (f a))
    → PathIn P (m >>= f)
PathIn-then P (ok a) f h k = k a refl
PathIn-then P (err e) f h k = h

PathIn-accept :
    {A : Type 0} (P : Bytes → Type 0) (r : UriResult A) (denial : VerifyResult)
    → P denial.path
    → PathIn P (accept r denial)
PathIn-accept P (ok a) denial h = tt
PathIn-accept P (err e) denial h = h

-- One path in place of another.
PathIn-eq :
    {A : Type 0} (P : Bytes → Type 0) (p : Bytes) (m : Part A)
    → P p
    → PathIn (λ x. x ≡ p) m
    → PathIn P m
PathIn-eq P p (ok a) h k = tt
PathIn-eq P p (err e) h k = rw k h

path_or_default-cases :
    (r : UriResult (Bytes × Bytes))
    → (path_or_default r ≡ []) ⊎ ((q : Bytes) × (r ≡ ok (path_or_default r, q)))
path_or_default-cases (ok parts) = inr (parts.1, refl)
path_or_default-cases (err e) = inl refl

path_or_default-IsPathOf :
    (raw_uri : Bytes) → IsPathOf raw_uri (path_or_default (split_original_uri raw_uri))
path_or_default-IsPathOf raw_uri = path_or_default-cases (split_original_uri raw_uri)

accept-ok :
    {A : Type 0} (r : UriResult A) (denial : VerifyResult) {a : A}
    → accept r denial ≡ ok a
    → r ≡ ok a
accept-ok (ok b) denial h = ground arith
accept-ok (err e) denial h = ground arith

two_guards :
    {A : Type 0} (P : Bytes → Type 0) (b c : Bool) (d e : VerifyResult) (a : A)
    → P d.path
    → P e.path
    → PathIn P (unless b d >> (unless c e >> ok a))
two_guards P true c d e a hd he = hd
two_guards P false true d e a hd he = he
two_guards P false false d e a hd he = tt

metadata_path :
    (state : State) (raw_method raw_uri raw_host : Bytes)
    → PathIn (IsPathOf raw_uri) (read_metadata state raw_method raw_uri raw_host)
unfolding read_metadata
metadata_path state raw_method raw_uri raw_host =
    let method = ascii_upper_cow (trim raw_method) in
    let host = ascii_lower_cow (trim raw_host) in
    two_guards (IsPathOf raw_uri) (is_empty method || is_empty raw_uri || is_empty host)
      (not (contains method state.supported_methods)) (deny reason_missing_metadata [] [])
      (deny reason_unsupported_method (path_or_default (split_original_uri raw_uri)) [])
      (method, host) (inl refl) (path_or_default-IsPathOf raw_uri)

uri_path : (raw_uri : Bytes) → PathIn (IsPathOf raw_uri) (read_uri raw_uri)
unfolding read_uri
uri_path raw_uri =
    let P = IsPathOf raw_uri in
    PathIn-then P (accept (split_original_uri raw_uri) _) _
      (PathIn-accept P (split_original_uri raw_uri) (deny reason_invalid_uri [] []) (inl refl))
      (λ parts e.
        PathIn-then P (accept (canonical_query parts.1) _) _
          (PathIn-accept P (canonical_query parts.1) (deny reason_invalid_uri parts.0 []) (
            inr
              (parts.1, accept-ok (split_original_uri raw_uri) (deny reason_invalid_uri [] []) e)))
          (λ q e'. tt))

module _ (crypto : Crypto) where
  scope_path :
      (state : State) (uri : RequestUri) → PathIn (λ x. x ≡ uri.path) (read_scope crypto state uri)
  unfolding read_scope
  scope_path state uri = ground arith

  date_path :
      (uri : RequestUri) (scope : CredentialScope)
      → PathIn (λ x. x ≡ uri.path) (read_date crypto uri scope)
  unfolding read_date
  date_path uri scope = ground arith

  expiry_path :
      (uri : RequestUri) (scope : CredentialScope)
      → PathIn (λ x. x ≡ uri.path) (read_expiry crypto uri scope)
  unfolding read_expiry
  expiry_path uri scope = ground arith

  credential_path :
      (state : State) (method host : Bytes) (uri : RequestUri) (scope : CredentialScope) (n : ℕ)
      → PathIn (λ x. x ≡ uri.path) (find_credential crypto state method host uri scope n)
  unfolding find_credential
  credential_path state method host uri scope n = ground arith

  times_path :
      (state : State) (now : SystemTime) (uri : RequestUri) (cred : CompiledCredential)
      (d : ParsedAmzDate) (n : ℕ)
      → PathIn (λ x. x ≡ uri.path) (check_times crypto state now uri cred d n)
  unfolding check_times
  times_path state now uri cred d n = ground arith

  check_request_path :
      (state : State) (raw_method raw_uri raw_host : Bytes) (now : SystemTime)
      → PathIn (IsPathOf raw_uri) (check_request crypto state raw_method raw_uri raw_host now)
  unfolding check_request
  check_request_path state raw_method raw_uri raw_host now =
      let P = IsPathOf raw_uri in
      PathIn-then P (read_metadata state raw_method raw_uri raw_host) _
        (metadata_path state raw_method raw_uri raw_host)
        (λ m e1. PathIn-then P (read_uri raw_uri) _ (uri_path raw_uri) (λ uri e2.
          let u = read_uri-IsUri raw_uri e2 in
          let here : P uri.path = inr (u.raw_query, u.split_lem) in
          PathIn-then P (read_scope crypto state uri) _
            (PathIn-eq P uri.path _ here (scope_path state uri))
            (λ scope e3.
              PathIn-then P (read_date crypto uri scope) _
                (PathIn-eq P uri.path _ here (date_path uri scope))
                (λ d e4.
                  PathIn-then P (read_expiry crypto uri scope) _
                    (PathIn-eq P uri.path _ here (expiry_path uri scope))
                    (λ x e5.
                      PathIn-then P (find_credential crypto state m.0 m.1 uri scope x.0) _
                        (PathIn-eq P uri.path _ here (credential_path state m.0 m.1 uri scope x.0))
                        (λ cred e6.
                          PathIn-then P (check_times crypto state now uri cred d.1 x.0) _
                            (PathIn-eq P uri.path _ here (times_path state now uri cred d.1 x.0))
                            (λ u e7. tt)))))))

  check_signature_path : (c : Checked) → (check_signature_of crypto c).0.path ≡ c.uri.path
  unfolding check_signature
  check_signature_path c = verdict_keeps crypto (λ r. r.path ≡ c.uri.path) _ _ _ _ refl refl

  pub verify-IsPathOf :
      (state : State) (raw_method raw_uri raw_host : Bytes) (now : SystemTime)
      → IsPathOf raw_uri (verify crypto state raw_method raw_uri raw_host now).0.path
  verify-IsPathOf state raw_method raw_uri raw_host now =
      elim (Result-cases (check_request crypto state raw_method raw_uri raw_host now)) [
        | inr (e, denied) ↦
            let p : IsPathOf raw_uri e.path =
              rw denied at (check_request_path state raw_method raw_uri raw_host now) in
            rw (verify-denied crypto state raw_method raw_uri raw_host now e denied) p
        | inl (c, passed) ↦
            let u =
              (check_request-IsChecked crypto state raw_method raw_uri raw_host now c
                passed).uri_parts in
            rw
              (
                verify-passed crypto state raw_method raw_uri raw_host now c passed,
                check_signature_path c,
              )
              (inr (u.raw_query, u.split_lem))
      ]
