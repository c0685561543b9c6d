-- ===== src/Verifier/Types.antt =====
-- The types of the verifier. A `HashMap` is an association list and a `HashSet` a list, both with
-- distinct keys. An `Arc` is the value it shares. A credential holds its signing-key cache.
use sigv4_verify.Base.{
  ℕ, Bool, false, ◌&&◌, ◌||◌, Option, none, some, List, [], ◌∷◌, Bytes, codes, ltb, ◌==◌,
  if◌then◌else◌, bytes_eq,
}
use sigv4_verify.Signing.{Cache}

-- `Duration`: whole seconds, an `u64`, and nanoseconds below 10^9.
pub record Duration : Type 0 where
  pub secs : ℕ
  pub nanos : ℕ

abbrev pub from_secs : ℕ → Duration
from_secs n = record { secs = n; nanos = 0 }

abbrev pub is_zero : Duration → Bool
is_zero d = (d.secs == 0) && (d.nanos == 0)

-- `a > b`, by the seconds first.
abbrev pub exceeds : Duration → Duration → Bool
exceeds a b = ltb b.secs a.secs || ((a.secs == b.secs) && ltb b.nanos a.nanos)

-- A `SystemTime`, as `duration_since(UNIX_EPOCH)` tells it.
pub data SystemTime : Type 0 where
  since_epoch : Duration → SystemTime
  before_epoch : Duration → SystemTime

abbrev pub max_sigv4_expires_secs : ℕ
max_sigv4_expires_secs = 604_800

abbrev pub max_sigv4_expires : Duration
max_sigv4_expires = from_secs max_sigv4_expires_secs

pub record Settings : Type 0 where
  pub allowed_clock_skew : Duration
  pub default_max_expires : Duration
  pub supported_methods : List Bytes
  pub supported_service : Bytes

-- `Settings::default()`.
abbrev pub default_settings : Settings
default_settings = record {
  allowed_clock_skew = from_secs 900;
  default_max_expires = max_sigv4_expires;
  supported_methods = codes "GET" ∷ codes "HEAD" ∷ [];
  supported_service = codes "s3";
}

pub record Credential : Type 0 where
  pub access_key : Bytes
  pub secret_key : Bytes
  pub enabled : Bool
  pub max_expires : Duration
  pub allowed_hosts : List Bytes
  pub allowed_methods : List Bytes
  pub allowed_prefixes : List Bytes

-- One constructor for each message, with the text that the message quotes.
pub data ConfigError : Type 0 where
  unsupported_service : Bytes → ConfigError
  duplicate_access_key : ConfigError
  access_key_required : ConfigError
  secret_key_required : Bytes → ConfigError
  invalid_max_expires : Bytes → ConfigError
  invalid_allowed_prefix : ConfigError
  unsupported_method : Bytes → ConfigError
  ambiguous_host : Bytes → ConfigError

pub record CompiledCredential : Type 0 where
  pub access_key : Bytes
  pub access_key_hash : Bytes
  pub secret_seed : Bytes
  pub enabled : Bool
  pub max_expires : Duration
  pub allowed_hosts : List Bytes
  pub allowed_methods : List Bytes
  pub allowed_prefixes : List Bytes
  pub signing_cache : Cache

abbrev pub Credentials : Type 0
Credentials = List (Bytes × CompiledCredential)

pub record State : Type 0 where
  pub settings : Settings
  pub credentials : Credentials
  pub supported_methods : List Bytes

pub record VerifyResult : Type 0 where
  pub allowed : Bool
  pub reason : Bytes
  pub path : Bytes
  pub access_key : Option Bytes
  pub access_key_hash : Bytes

-- `HashSet::contains` and `HashSet::insert`.
unfoldable pub contains : Bytes → List Bytes → Bool
contains x [] = false
contains x (y ∷ ys) = bytes_eq y x || contains x ys

unfoldable pub insert : Bytes → List Bytes → List Bytes
unfolding contains
insert x xs = if contains x xs then xs else x ∷ xs

-- `HashMap::get`.
unfoldable pub lookup : Bytes → Credentials → Option CompiledCredential
lookup k [] = none
lookup k (e ∷ es) = if bytes_eq e.0 k then some e.1 else lookup k es
