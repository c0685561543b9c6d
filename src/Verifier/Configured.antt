-- ===== src/Verifier/Configured.antt =====
-- What an accepted configuration guarantees of the compiled state.
use sigv4_verify.Base.{
  ◌≡◌, ◌⊎◌, refl, false, none, List, [], ◌∷◌, All, map, Bytes, codes, bytes_eq→eq, ok, err, arith,
  Option-cases, Result-cases, Bool-cases, inl, inr,
}
use sigv4_verify.Crypto.{Crypto}
use sigv4_verify.Hex.{to_ascii_uppercase}
use sigv4_verify.Text.Trim.{trim}
use sigv4_verify.Uri.{validate_raw_path}
use sigv4_verify.Signing.Threads.{Reach-IsValid, start}
use sigv4_verify.Verifier.Types.{
  invalid_allowed_prefix, Duration, is_zero, exceeds, max_sigv4_expires, Settings, Credential,
  CompiledCredential, Credentials, State, contains, insert, lookup,
}
use sigv4_verify.Verifier.Compile.{
  is_empty, normalize_method, compile_methods, compile_hosts, check_prefix, compile_prefixes,
  compile_credential, compile_credentials, normalize_settings, compile_state,
}
use sigv4_verify.Verifier.Allowed.{HasValidCache, IsSound}

abbrev pub IsMethod : Bytes → Type 0
IsMethod m = (m ≡ codes "GET") ⊎ (m ≡ codes "HEAD")

normalize_method-IsMethod : (raw : Bytes) {m : Bytes} → normalize_method raw ≡ ok m → IsMethod m
unfolding normalize_method
normalize_method-IsMethod raw {m} h =
    let method = map to_ascii_uppercase (trim raw) in
    ground (arith, bytes_eq→eq method (codes "GET"), bytes_eq→eq method (codes "HEAD"))

insert-All :
    (P : Bytes → Type 0) (x : Bytes) (xs : List Bytes) → P x → All P xs → All P (insert x xs)
unfolding insert
insert-All P x xs hx h = elim (Bool-cases (contains x xs)) [
  | inl old ↦ rw old h
  | inr fresh ↦ rw fresh (hx, h)
]

compile_methods-IsMethod :
    (methods set : List Bytes) {out : List Bytes}
    → compile_methods methods set ≡ ok out
    → All IsMethod set
    → All IsMethod out
unfolding compile_methods
compile_methods-IsMethod [] set {out} h hs = let q : set ≡ out = cc in rw (← q) hs
compile_methods-IsMethod (m ∷ ms) set {out} h hs = elim (Result-cases (normalize_method m)) [
  | inr (e, bad) ↦ let absurd : err e ≡ ok out = rw bad at h in ground arith
  | inl (m', good) ↦
      compile_methods-IsMethod ms (insert m' set) (rw good at h)
        (insert-All IsMethod m' set (normalize_method-IsMethod m good) hs)
]

abbrev pub IsPrefix : Bytes → Type 0
IsPrefix p = validate_raw_path p ≡ ok tt

check_prefix-IsPrefix : (p : Bytes) → check_prefix p ≡ ok tt → IsPrefix p
check_prefix-IsPrefix p h = elim (Result-cases (validate_raw_path p)) [
  | inr (e, bad) ↦
      let absurd : err invalid_allowed_prefix ≡ ok tt = rw (bad, check_prefix) at h in ground arith
  | inl (u, good) ↦ good
]

compile_prefixes-IsPrefix :
    (prefixes seen : List Bytes) {out : List Bytes}
    → compile_prefixes prefixes seen ≡ ok out
    → All IsPrefix out
unfolding compile_prefixes
compile_prefixes-IsPrefix [] seen {out} h = let q : [] ≡ out = cc in rw (← q) tt
compile_prefixes-IsPrefix ([] ∷ ps) seen h = compile_prefixes-IsPrefix ps seen h
compile_prefixes-IsPrefix ((c ∷ r) ∷ ps) seen {out} h = elim (Result-cases (check_prefix (c ∷ r))) [
  | inr (e, bad) ↦ let absurd : err e ≡ ok out = rw bad at h in ground arith
  | inl (u, good) ↦ elim (Bool-cases (contains (c ∷ r) seen)) [
    | inl old ↦ compile_prefixes-IsPrefix ps seen (rw (good, old) at h)
    | inr fresh ↦ elim (Result-cases (compile_prefixes ps ((c ∷ r) ∷ seen))) [
      | inr (e, bad) ↦ let absurd : err e ≡ ok out = rw (good, fresh, bad) at h in ground arith
      | inl (rest, q) ↦
          let p : ok ((c ∷ r) ∷ rest) ≡ ok out = rw (good, fresh, q) at h in
          let p' : (c ∷ r) ∷ rest ≡ out = cc in
          rw (← p')
            (check_prefix-IsPrefix (c ∷ r) good, compile_prefixes-IsPrefix ps ((c ∷ r) ∷ seen) q)
    ]
  ]
]

-- A compiled credential under its key.
pub record IsCompiled (e : Bytes × CompiledCredential) : Type 0 where
  pub key_lem : e.1.access_key ≡ e.0
  pub key_present : is_empty e.0 ≡ false
  pub expires_positive : is_zero e.1.max_expires ≡ false
  pub expires_bounded : exceeds e.1.max_expires max_sigv4_expires ≡ false
  pub methods_lem : All IsMethod e.1.allowed_methods
  pub prefixes_lem : All IsPrefix e.1.allowed_prefixes
  pub cache_lem : e.1.signing_cache ≡ []

-- No two credentials share a key.
abbrev pub Distinct : Credentials → Type 0
Distinct [] = Unit
Distinct (e ∷ es) = (lookup e.0 es ≡ none) × Distinct es

-- The state of an accepted configuration.
pub record IsConfigured (state : State) : Type 0 where
  pub service_lem : state.settings.supported_service ≡ codes "s3"
  pub supported_lem : All IsMethod state.supported_methods
  pub compiled_lem : All IsCompiled state.credentials
  pub distinct : Distinct state.credentials

normalize_settings-service :
    (settings : Settings) {s : Settings}
    → normalize_settings settings ≡ ok s
    → s.supported_service ≡ codes "s3"
unfolding normalize_settings
normalize_settings-service settings {s} h =
    ground (arith, bytes_eq→eq s.supported_service (codes "s3"))

module _ (crypto : Crypto) where
  compile_credential-IsCompiled :
      (credential : Credential) (max : Duration) {c : CompiledCredential}
      → compile_credential crypto credential max ≡ ok c
      → IsCompiled (c.access_key, c)
  unfolding compile_credential
  compile_credential-IsCompiled credential max {c} h =
      elim (Result-cases (compile_hosts credential.allowed_hosts [])) [
        | inr (e, bad) ↦ ground arith
        | inl (hosts, a) ↦ elim (Result-cases (compile_methods credential.allowed_methods [])) [
          | inr (e, bad) ↦ ground arith
          | inl (methods, b) ↦
              elim (Result-cases (compile_prefixes credential.allowed_prefixes [])) [
                | inr (e, bad) ↦ ground arith
                | inl (prefixes, d) ↦
                    let ms = compile_methods-IsMethod credential.allowed_methods [] b tt in
                    let ps = compile_prefixes-IsPrefix credential.allowed_prefixes [] d in
                    let same_methods : methods ≡ c.allowed_methods = ground arith in
                    let same_prefixes : prefixes ≡ c.allowed_prefixes = ground arith in
                    record {
                      key_lem = refl;
                      key_present = ground arith;
                      expires_positive = ground arith;
                      expires_bounded = ground arith;
                      methods_lem = rw (← same_methods) ms;
                      prefixes_lem = rw (← same_prefixes) ps;
                      cache_lem = ground arith;
                    }
              ]
        ]
      ]

  compile_credentials_lem :
      (credentials : List Credential) (max : Duration) (compiled : Credentials) {out : Credentials}
      → compile_credentials crypto credentials max compiled ≡ ok out
      → All IsCompiled compiled
      → Distinct compiled
      → All IsCompiled out × Distinct out
  unfolding compile_credentials
  compile_credentials_lem [] max compiled {out} h hc hd =
      let q : compiled ≡ out = cc in rw (← q) (hc, hd)
  compile_credentials_lem (cr ∷ crs) max compiled {out} h hc hd =
      elim (Result-cases (compile_credential crypto cr max)) [
        | inr (e, bad) ↦ let absurd : err e ≡ ok out = rw bad at h in ground arith
        | inl (c, good) ↦ elim (Option-cases (lookup c.access_key compiled)) [
          | inr (old, found) ↦ ground arith
          | inl fresh ↦
              let rest : compile_credentials crypto crs max ((c.access_key, c) ∷ compiled)
                  ≡ ok out =
                ground arith in
              compile_credentials_lem crs max ((c.access_key, c) ∷ compiled) rest
                (compile_credential-IsCompiled cr max good, hc) (fresh, hd)
        ]
      ]

  -- Empty caches are sound.
  sound_of : (es : Credentials) → All IsCompiled es → All (HasValidCache crypto) es
  sound_of [] h = tt
  sound_of (e ∷ es) (he, hes) =
      (rw he.cache_lem (Reach-IsValid crypto e.1.secret_seed start), sound_of es hes)

  -- In the state of an accepted configuration the service is s3, every method is GET or HEAD, no
  -- two credentials share a key, every credential has a non-empty key, an expiry limit above zero
  -- and of at most seven days, prefixes that validate_raw_path accepts and an empty cache; so all
  -- caches are sound.
  pub compile_state-IsConfigured :
      (settings : Settings) (credentials : List Credential) {state : State}
      → compile_state crypto settings credentials ≡ ok state
      → IsConfigured state × IsSound crypto state
  unfolding compile_state
  compile_state-IsConfigured settings credentials {state} h =
      elim (Result-cases (normalize_settings settings)) [
        | inr (e, bad) ↦ ground arith
        | inl (s, a) ↦ elim (Result-cases (compile_methods s.supported_methods [])) [
          | inr (e, bad) ↦ ground arith
          | inl (ms, b) ↦
              elim (Result-cases
                (compile_credentials crypto credentials s.default_max_expires [])) [
                  | inr (e, bad) ↦ ground arith
                  | inl (cs, d) ↦
                      let same_settings : s ≡ state.settings = ground arith in
                      let same_methods : ms ≡ state.supported_methods = ground arith in
                      let same_credentials : cs ≡ state.credentials = ground arith in
                      let (compiled, distinct) =
                        compile_credentials_lem credentials s.default_max_expires [] d tt tt in
                      (
                        record {
                          service_lem =
                              rw (← same_settings) (normalize_settings-service settings a);
                          supported_lem =
                              rw (← same_methods)
                                (compile_methods-IsMethod s.supported_methods [] b tt);
                          compiled_lem = rw (← same_credentials) compiled;
                          distinct = rw (← same_credentials) distinct;
                        },
                        rw (← same_credentials) (sound_of cs compiled),
                      )
                ]
        ]
      ]
