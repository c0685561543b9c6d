-- ===== src/Fuzz/Defs.antt =====
-- The fuzz targets of rust/sigv4-verifier/fuzz/fuzz_targets: whether the assertions of a run hold.
use sigv4_verify.Base.{
  ℕ, ◌*◌, Bool, true, false, not, ◌&&◌, ◌||◌, Option, none, some, [], ◌∷◌, Bytes, codes, ◌==◌,
  if◌then◌else◌, bytes_eq,
}
use sigv4_verify.Hex.{is_ascii_digit, is_ascii_uppercase, is_ascii_lowercase, is_hex}
use sigv4_verify.Crypto.{Crypto}
use sigv4_verify.Verifier.{Settings, Credential, State, SystemTime, since_epoch, from_secs, verify}
use sigv4_verify.Internals.{
  split_original_uri, validate_raw_path, canonical_query, canonical_uri_from_valid_path,
}

-- `u8::is_ascii_alphanumeric`.
abbrev pub is_ascii_alphanumeric : ℕ → Bool
is_ascii_alphanumeric b = is_ascii_digit b || is_ascii_uppercase b || is_ascii_lowercase b

unfoldable pub is_unreserved : ℕ → Bool
is_unreserved byte =
    is_ascii_alphanumeric byte
    || (byte == b'-')
    || (byte == b'.')
    || (byte == b'_')
    || (byte == b'~')

unfoldable pub is_canonical_form : Bytes → Bool
unfolding is_unreserved
is_canonical_form [] = true
is_canonical_form (c ∷ h ∷ l ∷ r) =
    let plain = is_canonical_form (h ∷ l ∷ r) in
    let escape = is_canonical_form r in
    if c == b'/'
    then plain
    else if c == b'%'
    then (if not (is_hex h) || not (is_hex l) || is_ascii_lowercase h || is_ascii_lowercase l
        then false
        else escape)
    else if is_unreserved c
    then plain
    else false
is_canonical_form (c ∷ r) =
    let plain = is_canonical_form r in
    if c == b'/'
    then plain
    else if c == b'%'
    then false
    else if is_unreserved c
    then plain
    else false

unfoldable pub fuzz_canonical_path : Bytes → Bool
unfolding is_canonical_form validate_raw_path canonical_uri_from_valid_path
fuzz_canonical_path bytes =
    if validate_raw_path bytes
    then (let canonical = canonical_uri_from_valid_path bytes in
        is_canonical_form canonical && bytes_eq canonical (canonical_uri_from_valid_path canonical))
    else true

-- The second call must succeed and give the same.
abbrev pub is_same : Bytes → Option Bytes → Bool
is_same canonical none = false
is_same canonical (some recanonical) = bytes_eq canonical recanonical

unfoldable pub fuzz_canonical_query : Bytes → Bool
unfolding canonical_query
fuzz_canonical_query bytes = elim (canonical_query bytes) [
  | none ↦ true
  | some canonical ↦ is_same canonical (canonical_query canonical)
]

abbrev pub first_is_slash : Bytes → Bool
first_is_slash [] = false
first_is_slash (c ∷ r) = c == b'/'

unfoldable pub fuzz_split_uri : Bytes → Bool
unfolding split_original_uri validate_raw_path
fuzz_split_uri bytes = elim (split_original_uri bytes) [
  | none ↦ true
  | some p ↦ first_is_slash p.0 && validate_raw_path p.0
]

pub record Input : Type 0 where
  pub method : Bytes
  pub uri : Bytes
  pub host : Bytes
  pub now_secs : ℕ

abbrev pub fuzz_settings : Settings
fuzz_settings = record {
  allowed_clock_skew = from_secs 60;
  default_max_expires = from_secs (60 * 60);
  supported_methods = codes "GET" ∷ codes "HEAD" ∷ [];
  supported_service = codes "s3";
}

abbrev pub fuzz_credential : Credential
fuzz_credential = record {
  access_key = codes "AKIATEST";
  secret_key = codes "test-secret";
  enabled = true;
  max_expires = from_secs (60 * 60);
  allowed_hosts = codes "minio.example.com" ∷ [];
  allowed_methods = codes "GET" ∷ codes "HEAD" ∷ [];
  allowed_prefixes = codes "/bucket/" ∷ [];
}

-- `windows(w.len()).any(|x| x == w)`.
abbrev pub has_prefix : Bytes → Bytes → Bool
has_prefix [] s = true
has_prefix (x ∷ w) [] = false
has_prefix (x ∷ w) (c ∷ s) = (c == x) && has_prefix w s

unfoldable pub has_window : Bytes → Bytes → Bool
has_window w [] = has_prefix w []
has_window w (c ∷ s) = has_prefix w (c ∷ s) || has_window w s

-- One run, on the verifier that the earlier runs leave. `checked_add` is what the platform's
-- `SystemTime` gives for a number of seconds after the epoch.
unfoldable pub fuzz_verify : Crypto → (ℕ → Option SystemTime) → State → Input → Bool × State
unfolding verify has_window
fuzz_verify crypto checked_add verifier input =
    let now : SystemTime = elim (checked_add input.now_secs) [
      | some t ↦ t
      | none ↦ since_epoch (from_secs (4_294_967_295 * 2))
    ] in
    let (result, verifier') = verify crypto verifier input.method input.uri input.host now in
    (if result.allowed then has_window (codes "X-Amz-Signature") input.uri else true, verifier')
