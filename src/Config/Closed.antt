-- ===== src/Config/Closed.antt =====
-- No policy list of a directive comes out empty in the compiled credential, where an empty list
-- would allow anything, unless the directive has the explicit flag.
use sigv4_verify.Base.{
  ◌≡◌, refl, ◌∙◌, true, false, ◌&&◌, Option, List, [], ◌∷◌, All, map, Bytes, ok, err, arith,
  Result-cases, inl, inr,
}
use sigv4_verify.Crypto.{Crypto}
use sigv4_verify.Hex.{to_ascii_lowercase}
use sigv4_verify.Text.Trim.{trim}
use sigv4_verify.Verifier.{
  Duration, Credential, CompiledCredential, contains, insert, is_empty, normalize_method,
  normalize_host, compile_methods, compile_hosts, check_prefix, compile_prefixes,
  compile_credential,
}
use sigv4_verify.Config.Directive.{CredentialDirective, is_nil, parse_directive}
use sigv4_verify.Config.Secret.{load_secret, resolve}
use sigv4_verify.Config.Strict.{IsPresent, parse_directive-IsStrict}

insert-present : (x : Bytes) (xs : List Bytes) → is_nil (insert x xs) ≡ false
unfolding insert contains
insert-present x [] = refl
insert-present x (y ∷ ys) = ground arith

is_empty-map : (xs : Bytes) → is_empty (map to_ascii_lowercase xs) ≡ is_nil xs
is_empty-map [] = refl
is_empty-map (x ∷ xs) = refl

normalize_host-present :
    (host : Bytes) {host' : Bytes}
    → IsPresent host
    → normalize_host host ≡ ok host'
    → is_empty host' ≡ false
unfolding normalize_host
normalize_host-present host {host'} p h =
    let lower = map to_ascii_lowercase (trim host) in
    let same : lower ≡ host' = ground arith in rw (← same) (is_empty-map (trim host) ∙ p)

compile_hosts-is_nil :
    (hosts set : List Bytes) {out : List Bytes}
    → All IsPresent hosts
    → compile_hosts hosts set ≡ ok out
    → is_nil out ≡ is_nil hosts && is_nil set
unfolding compile_hosts
compile_hosts-is_nil [] set p h = ground arith
compile_hosts-is_nil (x ∷ xs) set {out} (px, pxs) h = elim (Result-cases (normalize_host x)) [
  | inr (e, bad) ↦ let absurd : err e ≡ ok out = rw bad at h in ground arith
  | inl (x', good) ↦
      let present = normalize_host-present x px good in
      let rest : compile_hosts xs (insert x' set) ≡ ok out = rw (good, present) at h in
      let q = compile_hosts-is_nil xs (insert x' set) pxs rest in
      let r = insert-present x' set in ground arith
]

compile_methods-is_nil :
    (methods set : List Bytes) {out : List Bytes}
    → compile_methods methods set ≡ ok out
    → is_nil out ≡ is_nil methods && is_nil set
unfolding compile_methods
compile_methods-is_nil [] set h = ground arith
compile_methods-is_nil (x ∷ xs) set {out} h = elim (Result-cases (normalize_method x)) [
  | inr (e, bad) ↦ let absurd : err e ≡ ok out = rw bad at h in ground arith
  | inl (x', good) ↦
      let q = compile_methods-is_nil xs (insert x' set) (rw good at h) in
      let r = insert-present x' set in ground arith
]

compile_prefixes-is_nil :
    (prefixes : List Bytes) {out : List Bytes}
    → All IsPresent prefixes
    → compile_prefixes prefixes [] ≡ ok out
    → is_nil out ≡ is_nil prefixes
unfolding compile_prefixes contains trim
compile_prefixes-is_nil [] p h = ground arith
compile_prefixes-is_nil ([] ∷ ps) (p, _) h = let absurd : true ≡ false = p in cc
compile_prefixes-is_nil ((c ∷ r) ∷ ps) {out} p h = elim (Result-cases (check_prefix (c ∷ r))) [
  | inr (e, bad) ↦ let absurd : err e ≡ ok out = rw bad at h in ground arith
  | inl (u, good) ↦ elim (Result-cases (compile_prefixes ps ((c ∷ r) ∷ []))) [
    | inr (e, bad) ↦ let absurd : err e ≡ ok out = rw (good, bad) at h in ground arith
    | inl (rest, q) ↦ let pushed : ok ((c ∷ r) ∷ rest) ≡ ok out = rw (good, q) at h in ground arith
  ]
]

-- What the verifier's credential may do is what the directive says.
module _ (crypto : Crypto) (read_file : Bytes → Option Bytes) where
  compile_credential-is_nil :
      (credential : Credential) (max : Duration) {c : CompiledCredential}
      → All IsPresent credential.allowed_hosts
      → All IsPresent credential.allowed_prefixes
      → compile_credential crypto credential max ≡ ok c
      → (is_nil c.allowed_hosts ≡ is_nil credential.allowed_hosts)
        × (is_nil c.allowed_methods ≡ is_nil credential.allowed_methods)
        × (is_nil c.allowed_prefixes ≡ is_nil credential.allowed_prefixes)
  unfolding compile_credential
  compile_credential-is_nil credential max {c} hp pp h =
      elim (Result-cases (compile_hosts credential.allowed_hosts [])) [
        | inr (e, bad) ↦ ground arith
        | inl (hosts, a) ↦ elim (Result-cases (compile_methods credential.allowed_methods [])) [
          | inr (e, bad) ↦ ground arith
          | inl (methods, b) ↦
              elim (Result-cases (compile_prefixes credential.allowed_prefixes [])) [
                | inr (e, bad) ↦ ground arith
                | inl (prefixes, d) ↦
                    let x = compile_hosts-is_nil credential.allowed_hosts [] hp a in
                    let y = compile_methods-is_nil credential.allowed_methods [] b in
                    let z = compile_prefixes-is_nil credential.allowed_prefixes pp d in ground arith
              ]
        ]
      ]

  -- If a directive parses, resolves to a credential and compiles, the compiled credential's list
  -- of hosts, of methods or of prefixes, whose emptiness allows anything, is empty exactly if the
  -- directive has the explicit flag for it.
  pub compile_credential-resolve :
      (args : List Bytes) (max : Duration) {d : CredentialDirective} {credential : Credential}
      {c : CompiledCredential}
      → parse_directive args ≡ ok d
      → resolve read_file d ≡ ok credential
      → compile_credential crypto credential max ≡ ok c
      → (is_nil c.allowed_hosts ≡ d.allow_any_host)
        × (is_nil c.allowed_methods ≡ d.allow_default_methods)
        × (is_nil c.allowed_prefixes ≡ d.allow_any_prefix)
  unfolding resolve
  compile_credential-resolve args max {d} {credential} {c} parsed resolved compiled =
      let (strict, filled) = parse_directive-IsStrict args parsed in
      elim (Result-cases (load_secret read_file d)) [
        | inr (e, bad) ↦ let absurd : err e ≡ ok credential = rw bad at resolved in ground arith
        | inl (secret, good) ↦
            let hosts : d.allowed_hosts ≡ credential.allowed_hosts = ground arith in
            let methods : d.allowed_methods ≡ credential.allowed_methods = ground arith in
            let prefixes : d.allowed_prefixes ≡ credential.allowed_prefixes = ground arith in
            let (x, y, z) =
              compile_credential-is_nil credential max (rw hosts at filled.hosts)
                (rw prefixes at filled.prefixes) compiled in
            let a = strict.hosts_lem in
            let b = strict.methods_lem in
            let e = strict.prefixes_lem in
            (rw (x, ← hosts, a) refl, rw (y, ← methods, b) refl, rw (z, ← prefixes, e) refl)
      ]
