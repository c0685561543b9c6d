-- ===== src/Tests/ConfigTests.antt =====
-- The theorems of the directives at a concrete directive, and tests.
use sigv4_verify.Running.{running}
use sigv4_verify.Base.{
  ◌≡◌, refl, arith, codes, Bytes, true, false, Option, List, [], ◌∷◌, ok, err, some, none,
}
use sigv4_verify.Tests.SigningTests.{toy}
use sigv4_verify.Verifier.{Credential, CompiledCredential, from_secs, compile_credential}
use sigv4_verify.Config.{
  CredentialDirective, literal, is_nil, no_host_policy, blank_value, invalid_duration,
  parse_duration, parse_directive, resolve, strip_newlines,
}
use sigv4_verify.Config.Strict.{IsStrict, IsFilled, parse_directive-IsStrict}
use sigv4_verify.Config.Durations.{hour, minute, printed, parse_duration-printed}
use sigv4_verify.Config.Closed.{compile_credential-resolve}

abbrev pub args : List Bytes
args =
    codes "AKIA"
    ∷ codes "secret_key=secret"
    ∷ codes "allowed_host=Example.com"
    ∷ codes "allow_default_methods"
    ∷ codes "allowed_prefix=/photos"
    ∷ codes "max_expires=1h30m"
    ∷ []

abbrev pub directive : CredentialDirective
directive = record {
  access_key = codes "AKIA";
  secret = some (literal (codes "secret"));
  enabled = none;
  max_expires = some (from_secs 5_400);
  allowed_hosts = codes "Example.com" ∷ [];
  allow_any_host = false;
  allowed_methods = [];
  allow_default_methods = true;
  allowed_prefixes = codes "/photos" ∷ [];
  allow_any_prefix = false;
}

abbrev credential : Credential
credential = record {
  access_key = codes "AKIA";
  secret_key = codes "secret";
  enabled = true;
  max_expires = from_secs 5_400;
  allowed_hosts = codes "Example.com" ∷ [];
  allowed_methods = [];
  allowed_prefixes = codes "/photos" ∷ [];
}

abbrev pub cred : CompiledCredential
cred = record {
  access_key = codes "AKIA";
  access_key_hash = codes "sha256:c5c5c5c5c5c5c5c5";
  secret_seed = codes "AWS4secret";
  enabled = true;
  max_expires = from_secs 5_400;
  allowed_hosts = codes "example.com" ∷ [];
  allowed_methods = [];
  allowed_prefixes = codes "/photos" ∷ [];
  signing_cache = [];
}

abbrev pub no_files : Bytes → Option Bytes
no_files path = none

parsed : parse_directive args ≡ ok directive
unfolding running
parsed = refl

resolved : resolve no_files directive ≡ ok credential
unfolding running
resolved = refl

compiled : compile_credential toy credential (from_secs 604_800) ≡ ok cred
unfolding running
compiled = refl

no_policy :
    parse_directive (codes "AKIA" ∷ codes "secret_key=s" ∷ []) ≡ err (no_host_policy (codes "AKIA"))
unfolding running
no_policy = refl

blank_host :
    parse_directive (codes "AKIA" ∷ codes "allowed_host= " ∷ [])
    ≡ err (blank_value (codes "allowed_host"))
unfolding running
blank_host = refl

too_long :
    parse_duration (codes "18446744073709551615w")
    ≡ err (invalid_duration (codes "18446744073709551615w"))
unfolding running
too_long = refl

newlines : strip_newlines (codes "a\nb\r\n\n") ≡ codes "a\nb"
unfolding running
newlines = refl

parse_directive-IsStrict_example : IsStrict directive × IsFilled directive
parse_directive-IsStrict_example = parse_directive-IsStrict args parsed

compile_credential-resolve_example :
    (is_nil cred.allowed_hosts ≡ false)
    × (is_nil cred.allowed_methods ≡ true)
    × (is_nil cred.allowed_prefixes ≡ false)
compile_credential-resolve_example =
    compile_credential-resolve toy no_files args (from_secs 604_800) parsed resolved compiled

parse_duration-printed_example :
    parse_duration (printed ((1, hour) ∷ (30, minute) ∷ [])) ≡ ok (from_secs 5_400)
parse_duration-printed_example = parse_duration-printed 1 hour ((30, minute) ∷ []) (omega arith)
