-- ===== src/Verifier/Binding/Collisions.antt =====
-- Two requests that are allowed with one signature.
use sigv4_verify.Base.{
  ◌≡◌, ◌≢◌, ◌⊎◌, refl, sym, ◌∙◌, ap, true, some, arith, Bytes, bytes_eq, bytes_eq→eq, bytes_eq_refl,
  length, All, IsByte, Bool-cases, inl, inr,
}
use sigv4_verify.Crypto.{Crypto}
use sigv4_verify.Uri.{canonical_uri_from_valid_path}
use sigv4_verify.Date.Accepted.{parse_amz_date-IsPrinted}
use sigv4_verify.Signing.{derive_key, string_to_sign, decode_signature}
use sigv4_verify.Verifier.Types.{SystemTime, State}
use sigv4_verify.Verifier.Handler.{Checked, verify}
use sigv4_verify.Verifier.Safety.{IsChecked}
use sigv4_verify.Verifier.Allowed.{IsSound, IsSigned, expected_signature, allowed-IsSigned}
use sigv4_verify.Verifier.Configured.{IsConfigured}
use sigv4_verify.Verifier.Binding.Lines.{
  IsLine, canonical_uri-IsLine, canonical_query-IsLine, method-IsLine,
}
use sigv4_verify.Verifier.Binding.Texts.{
  request_text, hash_canonical_request-text, request_text-injective, string_to_sign-injective,
}

same_or_not : (x y : Bytes) → (x ≡ y) ⊎ (x ≢ y)
same_or_not x y = elim (Bool-cases (bytes_eq x y)) [
  | inl same ↦ inl (bytes_eq→eq x y same)
  | inr other ↦ inr (λ e. ground (arith, bytes_eq_refl x))
]

-- The parts of a request that a signature covers.
pub record IsSameRequest (c c' : Checked) : Type 0 where
  pub method_lem : c.method ≡ c'.method
  pub path_lem :
      canonical_uri_from_valid_path c.uri.path ≡ canonical_uri_from_valid_path c'.uri.path
  pub query_lem : c.uri.canonical_query_string ≡ c'.uri.canonical_query_string
  pub host_lem : c.host ≡ c'.host
  pub date_lem : c.amz_date ≡ c'.amz_date
  pub scope_lem : c.scope.scope ≡ c'.scope.scope

-- A checked request has one line for each part.
record IsLines (c : Checked) : Type 0 where
  method_lem : IsLine c.method
  query_lem : IsLine c.uri.canonical_query_string
  date_lem : length c.amz_date ≡ 16

IsChecked-IsLines :
    (state : State) (raw_method raw_uri raw_host : Bytes) (now : SystemTime) (c : Checked)
    → IsConfigured state
    → IsChecked state raw_method raw_uri raw_host now c
    → IsLines c
IsChecked-IsLines state raw_method raw_uri raw_host now c configured h =
    let (p, _) = (parse_amz_date-IsPrinted c.amz_date c.parsed_date).0 h.dated.parsed_lem in
    record {
      method_lem =
          method-IsLine c.method state.supported_methods configured.supported_lem
            h.metadata.supported;
      query_lem = canonical_query-IsLine h.uri_parts.raw_query h.uri_parts.query_lem;
      date_lem = ap length p.text_lem;
    }

module _ (crypto : Crypto) where
  -- The text that is hashed of a request, and the text that is signed.
  abbrev pub text_of : Checked → Bytes
  text_of c =
      request_text c.method (canonical_uri_from_valid_path c.uri.path) c.uri.canonical_query_string
        c.host

  abbrev pub signed_text : Checked → Bytes
  signed_text c = string_to_sign crypto c.amz_date c.scope.scope (crypto.digest (text_of c))

  abbrev pub key_of : Checked → Bytes
  key_of c = derive_key crypto c.cred.secret_seed c.scope.date c.scope.region c.scope.service

  -- The two requests' own texts differ and have one hash, or their signed texts differ and have one
  -- HMAC value, each under the key of its request's scope.
  abbrev pub IsCollision : Checked → Checked → Type 0
  IsCollision c c' =
      ((text_of c ≢ text_of c') × (crypto.digest (text_of c) ≡ crypto.digest (text_of c')))
      ⊎ ((signed_text c ≢ signed_text c')
          × (crypto.hmac_sign (key_of c) (signed_text c)
              ≡ crypto.hmac_sign (key_of c') (signed_text c')))

  same_texts :
      (c c' : Checked)
      → IsLines c
      → IsLines c'
      → ((data' : Bytes) → All IsByte (crypto.digest data'))
      → signed_text c ≡ signed_text c'
      → IsSameRequest c c' ⊎ IsCollision c c'
  same_texts c c' l l' bytes e =
      let (date, scope, hash) =
        string_to_sign-injective crypto c.amz_date c'.amz_date c.scope.scope c'.scope.scope
          (crypto.digest (text_of c)) (crypto.digest (text_of c')) (l.date_lem ∙ sym l'.date_lem)
          (bytes (text_of c)) (bytes (text_of c')) (crypto.digest_length (text_of c))
          (crypto.digest_length (text_of c')) e in
      elim (same_or_not (text_of c) (text_of c')) [
        | inr other ↦ inr (inl (other, hash))
        | inl same ↦
            let (method, path, query, host) =
              request_text-injective c.method c'.method (canonical_uri_from_valid_path c.uri.path)
                (canonical_uri_from_valid_path c'.uri.path) c.uri.canonical_query_string
                c'.uri.canonical_query_string c.host c'.host l.method_lem l'.method_lem
                (canonical_uri-IsLine c.uri.path) (canonical_uri-IsLine c'.uri.path) l.query_lem
                l'.query_lem same in
            inl (record {
              method_lem = method;
              path_lem = path;
              query_lem = query;
              host_lem = host;
              date_lem = date;
              scope_lem = scope;
            })
      ]

  expected_signature-text :
      (c : Checked) → expected_signature crypto c ≡ crypto.hmac_sign (key_of c) (signed_text c)
  expected_signature-text c =
      rw
        (hash_canonical_request-text crypto c.method (canonical_uri_from_valid_path c.uri.path)
          c.uri.canonical_query_string c.host)
        refl

  one_signature :
      (c c' : Checked)
      → IsLines c
      → IsLines c'
      → ((data' : Bytes) → All IsByte (crypto.digest data'))
      → IsSigned crypto c
      → IsSigned crypto c'
      → decode_signature c.signature_hex ≡ decode_signature c'.signature_hex
      → IsSameRequest c c' ⊎ IsCollision c c'
  one_signature c c' l l' bytes s s' e =
      let both : some (expected_signature crypto c) ≡ some (expected_signature crypto c') =
        sym s ∙ e ∙ s' in
      let values : expected_signature crypto c ≡ expected_signature crypto c' = cc in
      elim (same_or_not (signed_text c) (signed_text c')) [
        | inl same ↦ same_texts c c' l l' bytes same
        | inr other ↦
            inr (inr (other, sym (expected_signature-text c) ∙ values ∙ expected_signature-text c'))
      ]

  -- If the states come from accepted configurations, every credential's caches hold keys of its
  -- own secret only and SHA-256 values consist of bytes, then two allowed requests whose
  -- signatures decode to the same bytes have the same method, canonical path, canonical query,
  -- host, time stamp and scope, or else these two requests collide: their canonical request texts
  -- differ and have one SHA-256 value, or their strings to sign differ and have one HMAC value,
  -- each under the signing key of its request's scope.
  pub verify-binds :
      (state state' : State) (raw_method raw_uri raw_host : Bytes) (now : SystemTime)
      (raw_method' raw_uri' raw_host' : Bytes) (now' : SystemTime) (c c' : Checked)
      → IsConfigured state × IsSound crypto state
      → IsConfigured state' × IsSound crypto state'
      → ((data' : Bytes) → All IsByte (crypto.digest data'))
      → IsChecked state raw_method raw_uri raw_host now c
      → IsChecked state' raw_method' raw_uri' raw_host' now' c'
      → (verify crypto state raw_method raw_uri raw_host now).0.allowed ≡ true
      → (verify crypto state' raw_method' raw_uri' raw_host' now').0.allowed ≡ true
      → decode_signature c.signature_hex ≡ decode_signature c'.signature_hex
      → IsSameRequest c c' ⊎ IsCollision c c'
  verify-binds state state' m u h now m' u' h' now' c c' (configured, sound) (configured', sound')
        bytes met met' a a' =
      one_signature c c' (IsChecked-IsLines state m u h now c configured met)
        (IsChecked-IsLines state' m' u' h' now' c' configured' met') bytes
        (allowed-IsSigned crypto state m u h now c sound met a)
        (allowed-IsSigned crypto state' m' u' h' now' c' sound' met' a')
