-- ===== src/Config/Directive.antt =====
-- `CredentialDirective`: `parse`, `set_secret`, `validate`, `resolve` and `load_secret`.
use sigv4_verify.Base.{
  Bool, true, false, not, ◌&&◌, ◌||◌, Option, none, some, List, [], ◌∷◌, ◌++◌, Bytes, codes, ◌==◌,
  if◌then◌else◌, bytes_eq, Result, ok, err, ◌>>=◌, ◌>>◌,
}
use sigv4_verify.Text.{any, split_once}
use sigv4_verify.Text.Trim.{trim}
use sigv4_verify.Verifier.{Duration, is_zero, exceeds, max_sigv4_expires}
use sigv4_verify.Config.Defs.{
  DirectiveError, missing_access_key, empty_access_key, access_key_not_first, unknown_flag,
  empty_value, blank_value, unknown_argument, duplicate_enabled, duplicate_max_expires,
  multiple_secrets, no_secret, both_host_policies, no_host_policy, both_prefix_policies,
  no_prefix_policy, both_method_policies, no_method_policy, max_expires_out_of_range, parse_on_off,
  parse_duration,
}

pub data SecretSource : Type 0 where
  file literal : Bytes → SecretSource

pub record CredentialDirective : Type 0 where
  pub access_key : Bytes
  pub secret : Option SecretSource
  pub enabled : Option Bool
  pub max_expires : Option Duration
  pub allowed_hosts : List Bytes
  pub allow_any_host : Bool
  pub allowed_methods : List Bytes
  pub allow_default_methods : Bool
  pub allowed_prefixes : List Bytes
  pub allow_any_prefix : Bool

abbrev pub default_directive : CredentialDirective
default_directive = record {
  access_key = [];
  secret = none;
  enabled = none;
  max_expires = none;
  allowed_hosts = [];
  allow_any_host = false;
  allowed_methods = [];
  allow_default_methods = false;
  allowed_prefixes = [];
  allow_any_prefix = false;
}

abbrev pub Parsed : Type 0 → Type 0
Parsed = Result DirectiveError

abbrev pub refuse : Bool → DirectiveError → Parsed Unit
refuse refused e = if refused then err e else ok tt

abbrev pub is_some : {A : Type 0} → Option A → Bool
is_some none = false
is_some (some a) = true

-- `is_empty` of a vector and of a `str`.
abbrev pub is_nil : {A : Type 0} → List A → Bool
is_nil [] = true
is_nil (x ∷ xs) = false

unfoldable pub set_secret : SecretSource → CredentialDirective → Parsed CredentialDirective
set_secret source directive = do
  refuse (is_some directive.secret) (multiple_secrets directive.access_key)
  ok (record directive { secret = some source })

-- The three policy lists.
unfoldable pub push_policy : Bytes → Bytes → CredentialDirective → CredentialDirective
push_policy key value directive =
    if bytes_eq key (codes "allowed_host")
    then record directive { allowed_hosts = directive.allowed_hosts ++ value ∷ [] }
    else if bytes_eq key (codes "allowed_method")
    then record directive { allowed_methods = directive.allowed_methods ++ value ∷ [] }
    else record directive { allowed_prefixes = directive.allowed_prefixes ++ value ∷ [] }

-- The `match key`.
unfoldable pub set_argument : Bytes → Bytes → CredentialDirective → Parsed CredentialDirective
unfolding set_secret push_policy
set_argument key value directive =
    if bytes_eq key (codes "secret_key_file")
    then set_secret (file value) directive
    else if bytes_eq key (codes "secret_key")
    then set_secret (literal value) directive
    else if bytes_eq key (codes "enabled")
    then (do
      refuse (is_some directive.enabled) duplicate_enabled
      enabled ← parse_on_off value
      ok (record directive { enabled = some enabled }))
    else if bytes_eq key (codes "max_expires")
    then (do
      refuse (is_some directive.max_expires) duplicate_max_expires
      max_expires ← parse_duration value
      ok (record directive { max_expires = some max_expires }))
    else if bytes_eq key (codes "allowed_host")
        || bytes_eq key (codes "allowed_method")
        || bytes_eq key (codes "allowed_prefix")
    then (do refuse (is_nil (trim value)) (blank_value key); ok (push_policy key value directive))
    else err (unknown_argument key)

-- One round of the loop over the arguments.
unfoldable pub parse_argument : Bytes → CredentialDirective → Parsed CredentialDirective
unfolding set_argument
parse_argument arg directive =
    if bytes_eq arg (codes "allow_any_host")
    then ok (record directive { allow_any_host = true })
    else if bytes_eq arg (codes "allow_any_prefix")
    then ok (record directive { allow_any_prefix = true })
    else if bytes_eq arg (codes "allow_default_methods")
    then ok (record directive { allow_default_methods = true })
    else elim (split_once b'=' arg) [
      | none ↦ err (unknown_flag arg)
      | some (key, value) ↦ (do
        refuse (is_nil value) (empty_value key)
        set_argument key value directive)
    ]

unfoldable pub parse_arguments : List Bytes → CredentialDirective → Parsed CredentialDirective
unfolding parse_argument
parse_arguments [] directive = ok directive
parse_arguments (arg ∷ rest) directive = do
  directive' ← parse_argument arg directive
  parse_arguments rest directive'

abbrev pub out_of_range : Option Duration → Bool
out_of_range none = false
out_of_range (some d) = is_zero d || exceeds d max_sigv4_expires

unfoldable pub validate : CredentialDirective → Parsed Unit
validate d = do
  refuse (not (is_some d.secret)) (no_secret d.access_key)
  refuse (d.allow_any_host && not (is_nil d.allowed_hosts)) (both_host_policies d.access_key)
  refuse (not d.allow_any_host && is_nil d.allowed_hosts) (no_host_policy d.access_key)
  refuse (d.allow_any_prefix && not (is_nil d.allowed_prefixes)) (both_prefix_policies d.access_key)
  refuse (not d.allow_any_prefix && is_nil d.allowed_prefixes) (no_prefix_policy d.access_key)
  refuse (d.allow_default_methods && not (is_nil d.allowed_methods))
      (both_method_policies d.access_key)
  refuse (not d.allow_default_methods && is_nil d.allowed_methods) (no_method_policy d.access_key)
  refuse (out_of_range d.max_expires) (max_expires_out_of_range d.access_key)

unfoldable pub parse_directive : List Bytes → Parsed CredentialDirective
unfolding parse_arguments validate
parse_directive [] = err missing_access_key
parse_directive (first ∷ rest) = do
  let access_key = trim first
  refuse (is_nil access_key) empty_access_key
  refuse (any (λ b. b == b'=') access_key) access_key_not_first
  directive ← parse_arguments rest (record default_directive { access_key = access_key })
  validate directive
  ok directive
