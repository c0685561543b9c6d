-- ===== src/Verifier/Compile.antt =====
-- `compile_state`, `compile_credential` and what they normalise, `Verifier::new` and `reload`.
-- A loop over a vector that fills a set is the recursion with the set as an argument.
use sigv4_verify.Base.{
  ℕ, Bool, true, false, not, ◌||◌, none, some, List, [], ◌∷◌, ◌++◌, map, Bytes, codes, ◌==◌,
  if◌then◌else◌, bytes_eq, length, take, Result, ok, err, ◌>>=◌, ◌>>◌,
}
use sigv4_verify.Hex.{to_ascii_uppercase, to_ascii_lowercase, append_hex_lower}
use sigv4_verify.Crypto.{Crypto}
use sigv4_verify.Signing.{sha256}
use sigv4_verify.Text.{any}
use sigv4_verify.Text.Trim.{trim}
use sigv4_verify.Uri.{validate_raw_path}
use sigv4_verify.Verifier.Types.{
  Duration, is_zero, exceeds, max_sigv4_expires, Settings, Credential, ConfigError,
  unsupported_service, duplicate_access_key, access_key_required, secret_key_required,
  invalid_max_expires, invalid_allowed_prefix, unsupported_method, ambiguous_host,
  CompiledCredential, Credentials, State, contains, insert, lookup,
}

abbrev pub is_empty : Bytes → Bool
is_empty [] = true
is_empty (c ∷ r) = false

unfoldable pub normalize_method : Bytes → Result ConfigError Bytes
normalize_method raw =
    let method = map to_ascii_uppercase (trim raw) in
    if bytes_eq method (codes "GET") || bytes_eq method (codes "HEAD")
    then ok method
    else err (unsupported_method method)

abbrev is_ambiguous : ℕ → Bool
is_ambiguous b =
    (b == b'/')
    || (b == b'\\')
    || (b == b'?')
    || (b == b'#')
    || (b == b' ')
    || (b == b'\t')
    || (b == b'\r')
    || (b == b'\n')

unfoldable pub normalize_host : Bytes → Result ConfigError Bytes
normalize_host raw =
    let host = map to_ascii_lowercase (trim raw) in
    if is_empty host
    then ok host
    else if any is_ambiguous host
    then err (ambiguous_host host)
    else ok host

unfoldable pub compile_methods : List Bytes → List Bytes → Result ConfigError (List Bytes)
unfolding insert
compile_methods [] set = ok set
compile_methods (method ∷ methods) set = do
  method' ← normalize_method method
  compile_methods methods (insert method' set)

unfoldable pub compile_hosts : List Bytes → List Bytes → Result ConfigError (List Bytes)
unfolding insert
compile_hosts [] set = ok set
compile_hosts (host ∷ hosts) set = do
  host' ← normalize_host host
  compile_hosts hosts (if is_empty host' then set else insert host' set)

-- `validate_raw_path(..).map_err(..)`.
abbrev pub check_prefix : Bytes → Result ConfigError Unit
check_prefix p = elim (validate_raw_path p) [ ok u ↦ ok tt | err e ↦ err invalid_allowed_prefix ]

-- `seen` has the prefixes pushed before.
unfoldable pub compile_prefixes : List Bytes → List Bytes → Result ConfigError (List Bytes)
unfolding contains
compile_prefixes [] seen = ok []
compile_prefixes ([] ∷ prefixes) seen = compile_prefixes prefixes seen
compile_prefixes ((c ∷ r) ∷ prefixes) seen = do
  check_prefix (c ∷ r)
  if contains (c ∷ r) seen
      then compile_prefixes prefixes seen
      else (do rest ← compile_prefixes prefixes ((c ∷ r) ∷ seen); ok ((c ∷ r) ∷ rest))

-- The changes that `compile_state` makes to its settings.
unfoldable pub normalize_settings : Settings → Result ConfigError Settings
normalize_settings settings = do
  let expires = settings.default_max_expires
  let service = trim settings.supported_service
  let service' = (if is_empty service then codes "s3" else service)
  (if not (bytes_eq service' (codes "s3")) then err (unsupported_service service') else ok tt)
  ok (record {
    allowed_clock_skew = settings.allowed_clock_skew;
    default_max_expires =
        (if is_zero expires || exceeds expires max_sigv4_expires
          then max_sigv4_expires
          else expires);
    supported_methods = elim settings.supported_methods [
      | [] ↦ codes "GET" ∷ codes "HEAD" ∷ []
      | (m ∷ ms) ↦ m ∷ ms
    ];
    supported_service = service';
  })

module _ (crypto : Crypto) where
  unfoldable pub hash_access_key : Bytes → Bytes
  unfolding append_hex_lower
  hash_access_key access_key =
      if is_empty access_key
      then []
      else codes "sha256:" ++ append_hex_lower (take 8 (sha256 crypto access_key))

  unfoldable pub compile_credential : Credential → Duration → Result ConfigError CompiledCredential
  unfolding hash_access_key compile_hosts compile_methods compile_prefixes
  compile_credential credential default_max_expires = do
    let access_key = trim credential.access_key
    let max_expires =
        (if is_zero credential.max_expires then default_max_expires else credential.max_expires)
    (if is_empty access_key then err access_key_required else ok tt)
    (if is_empty credential.secret_key then err (secret_key_required access_key) else ok tt)
    (if is_zero max_expires || exceeds max_expires max_sigv4_expires
        then err (invalid_max_expires access_key)
        else ok tt)
    allowed_hosts ← compile_hosts credential.allowed_hosts []
    allowed_methods ← compile_methods credential.allowed_methods []
    allowed_prefixes ← compile_prefixes credential.allowed_prefixes []
    ok (record {
      access_key = access_key;
      access_key_hash = hash_access_key access_key;
      secret_seed = codes "AWS4" ++ credential.secret_key;
      enabled = credential.enabled;
      max_expires = max_expires;
      allowed_hosts = allowed_hosts;
      allowed_methods = allowed_methods;
      allowed_prefixes = allowed_prefixes;
      signing_cache = [];
    })

  -- The loop over the credentials: `insert` that finds the key already there is an error.
  unfoldable pub compile_credentials :
      List Credential → Duration → Credentials → Result ConfigError Credentials
  unfolding compile_credential
  compile_credentials [] default_max_expires compiled = ok compiled
  compile_credentials (credential ∷ credentials) default_max_expires compiled = do
    c ← compile_credential credential default_max_expires
    elim (lookup c.access_key compiled) [
      | some old ↦ err duplicate_access_key
      | none ↦ compile_credentials credentials default_max_expires ((c.access_key, c) ∷ compiled)
    ]

  unfoldable pub compile_state : Settings → List Credential → Result ConfigError State
  unfolding normalize_settings compile_methods compile_credentials
  compile_state raw credentials = do
    settings ← normalize_settings raw
    supported_methods ← compile_methods settings.supported_methods []
    compiled ← compile_credentials credentials settings.default_max_expires []
    ok (record {
      settings = settings;
      credentials = compiled;
      supported_methods = supported_methods;
    })

  -- `Verifier::new`, and `reload`, whose result has the state that the verifier keeps.
  abbrev pub new : Settings → List Credential → Result ConfigError State
  new settings credentials = compile_state settings credentials

  unfoldable pub reload : State → Settings → List Credential → Result ConfigError Unit × State
  unfolding compile_state
  reload state settings credentials = elim (compile_state settings credentials) [
    | ok state' ↦ (ok tt, state')
    | err e ↦ (err e, state)
  ]

  -- `Verifier::ready` and `credential_count`.
  abbrev pub ready : State → Bool
  ready state = elim state.credentials [ [] ↦ false | (c ∷ cs) ↦ true ]

  abbrev pub credential_count : State → ℕ
  credential_count state = length state.credentials
