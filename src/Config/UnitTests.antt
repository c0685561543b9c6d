-- ===== src/Config/UnitTests.antt =====
-- The unit tests of rust/module-config/src/lib.rs, each the conjunction of its assertions; an
-- `expect` that fails fails the test. The directory of the tests with files is a parameter, and what
-- `fs::read` finds is what the test has written there.
use sigv4_verify.Base.{
  ℕ, ◌*◌, zero, suc, Bool, true, false, not, ◌&&◌, Option, some, none, List, [], ◌∷◌, ◌++◌, ◌==◌,
  Bytes, codes, bytes_eq, length, ok, err, if◌then◌else◌,
}
use sigv4_verify.Verifier.{Duration}
use sigv4_verify.Config.Defs.{Mode, parse_mode, merge, verifies, parse_duration}
use sigv4_verify.Config.Directive.{Parsed, is_nil, parse_directive}
use sigv4_verify.Config.Secret.{resolve}

-- `is_err`, and `expect` before the assertions on the value.
abbrev is_err : {A : Type 0} → Parsed A → Bool
is_err (ok a) = false
is_err (err e) = true

abbrev expect : {A : Type 0} → Parsed A → (A → Bool) → Bool
expect (ok a) asserts = asserts a
expect (err e) asserts = false

abbrev expect_some : {A : Type 0} → Option A → (A → Bool) → Bool
expect_some (some a) asserts = asserts a
expect_some none asserts = false

-- A loop over test cases.
unfoldable pub for_all : {A : Type 0} → List A → (A → Bool) → Bool
for_all [] body = true
for_all (a ∷ rest) body = body a && for_all rest body

abbrev is_secs : ℕ → Duration → Bool
is_secs n d = (d.secs == n) && (d.nanos == 0)

-- `==` on `Mode`.
abbrev is_mode : Mode → Mode → Bool
is_mode Mode.unset Mode.unset = true
is_mode Mode.off Mode.off = true
is_mode Mode.on Mode.on = true
is_mode Mode.shadow Mode.shadow = true
is_mode a b = false

-- `Vec::remove` and `Vec::push`.
unfoldable pub remove : {A : Type 0} → ℕ → List A → List A
remove n [] = []
remove zero (a ∷ rest) = rest
remove (suc n) (a ∷ rest) = a ∷ remove n rest

abbrev push : {A : Type 0} → A → List A → List A
push a list = list ++ a ∷ []

abbrev no_files : Bytes → Option Bytes
no_files path = none

abbrev base : List Bytes
base =
    codes "AKIATEST"
    ∷ codes "secret_key=local-dev"
    ∷ codes "allowed_host=assets.example.com"
    ∷ codes "allowed_method=GET"
    ∷ codes "allowed_prefix=/bucket/"
    ∷ []

abbrev full_args : List Bytes
full_args =
    codes "AKIATEST"
    ∷ codes "secret_key=local-dev"
    ∷ codes "enabled=on"
    ∷ codes "max_expires=10m"
    ∷ codes "allowed_host=assets.example.com"
    ∷ codes "allowed_host=cdn.example.com"
    ∷ codes "allowed_method=GET"
    ∷ codes "allowed_method=HEAD"
    ∷ codes "allowed_prefix=/my-bucket/public/"
    ∷ codes "allowed_prefix=/my-bucket/reports/"
    ∷ []

abbrev is_get_head : List Bytes → Bool
is_get_head (m ∷ n ∷ []) = bytes_eq m (codes "GET") && bytes_eq n (codes "HEAD")
is_get_head methods = false

unfoldable pub parses_full_credential_directive : Bool
unfolding parse_directive resolve
parses_full_credential_directive = expect (parse_directive full_args) (λ directive.
    bytes_eq directive.access_key (codes "AKIATEST")
    && expect_some directive.enabled (λ b. b)
    && expect_some directive.max_expires (is_secs 600)
    && (length directive.allowed_hosts == 2)
    && is_get_head directive.allowed_methods
    && (length directive.allowed_prefixes == 2)
    && expect (resolve no_files directive) (λ credential.
      bytes_eq credential.access_key (codes "AKIATEST")
      && bytes_eq credential.secret_key (codes "local-dev")
      && credential.enabled))

-- The arguments after the first two of a directive without restrictions.
abbrev allow_any : List Bytes
allow_any = codes "allow_any_host" ∷ codes "allow_default_methods" ∷ codes "allow_any_prefix" ∷ []

unfoldable pub parses_explicit_allow_any_flags : Bool
unfolding parse_directive resolve
parses_explicit_allow_any_flags =
    expect (parse_directive (codes "AKIATEST" ∷ codes "secret_key=local-dev" ∷ allow_any))
      (λ directive. expect (resolve no_files directive) (λ credential.
        is_nil credential.allowed_hosts
        && is_nil credential.allowed_methods
        && is_nil credential.allowed_prefixes))

unfoldable pub rejects_blank_policy_list_values : Bool
unfolding for_all parse_directive
rejects_blank_policy_list_values =
    for_all (codes "allowed_host" ∷ codes "allowed_method" ∷ codes "allowed_prefix" ∷ []) (λ key.
      for_all (codes " " ∷ (b'\t' ∷ []) ∷ codes "   " ∷ []) (λ blank.
        let arg = key ++ codes "=" ++ blank in
        is_err (parse_directive (codes "AKIATEST" ∷ codes "secret_key=local-dev" ∷ arg ∷ []))))

unfoldable pub rejects_omitted_policy_lists_without_explicit_flags : Bool
unfolding remove parse_directive
rejects_omitted_policy_lists_without_explicit_flags =
    is_err (parse_directive (remove 2 base))
    && is_err (parse_directive (remove 3 base))
    && is_err (parse_directive (remove 4 base))

unfoldable pub rejects_conflicting_policy_arguments : Bool
unfolding parse_directive
rejects_conflicting_policy_arguments =
    is_err (parse_directive (push (codes "allow_any_host") base))
    && is_err (parse_directive (push (codes "allow_default_methods") base))
    && is_err (parse_directive (push (codes "allow_any_prefix") base))

abbrev malformed : List (List Bytes)
malformed =
    []
    ∷ ([] ∷ [])
    ∷ (codes "secret_key=x" ∷ [])
    ∷ (codes "AKIATEST" ∷ [])
    ∷ (codes "AKIATEST" ∷ codes "bogus" ∷ [])
    ∷ (codes "AKIATEST" ∷ codes "bogus=1" ∷ [])
    ∷ (codes "AKIATEST" ∷ codes "allowed_host=" ∷ [])
    ∷ (codes "AKIATEST" ∷ codes "secret_key=a" ∷ codes "secret_key=b" ∷ [])
    ∷ (codes "AKIATEST" ∷ codes "secret_key=a" ∷ codes "secret_key_file=/x" ∷ [])
    ∷ (codes "AKIATEST" ∷ codes "secret_key=a" ∷ codes "enabled=maybe" ∷ [])
    ∷ (codes "AKIATEST" ∷ codes "secret_key=a" ∷ codes "enabled=on" ∷ codes "enabled=on" ∷ [])
    ∷ (codes "AKIATEST" ∷ codes "secret_key=a" ∷ codes "max_expires=abc" ∷ [])
    ∷ (codes "AKIATEST" ∷ codes "secret_key=a" ∷ codes "max_expires=8d" ∷ [])
    ∷ (codes "AKIATEST" ∷ codes "secret_key=a" ∷ codes "max_expires=0" ∷ [])
    ∷ []

unfoldable pub rejects_malformed_arguments : Bool
unfolding for_all parse_directive
rejects_malformed_arguments = for_all malformed (λ args. is_err (parse_directive args))

-- A directory with one file.
abbrev one_file : Bytes → Bytes → Bytes → Option Bytes
one_file path text p = if bytes_eq p path then some text else none

module _ (dir : Bytes) where
  abbrev file_args : Bytes → List Bytes
  file_args path = codes "AKIATEST" ∷ (codes "secret_key_file=" ++ path) ∷ allow_any

  unfoldable pub loads_secret_from_file_and_trims_trailing_newline : Bool
  unfolding parse_directive resolve
  loads_secret_from_file_and_trims_trailing_newline =
      let path = dir ++ codes "/secret" in
      expect (parse_directive (file_args path)) (λ directive.
        expect (resolve (one_file path (codes "file-secret" ++ b'\n' ∷ [])) directive)
          (λ credential. bytes_eq credential.secret_key (codes "file-secret")))

  unfoldable pub rejects_missing_and_empty_secret_files : Bool
  unfolding for_all parse_directive resolve
  rejects_missing_and_empty_secret_files =
      let empty = dir ++ codes "/empty" in
      for_all (empty ∷ (dir ++ codes "/absent") ∷ []) (λ path.
        expect (parse_directive (file_args path))
          (λ directive. is_err (resolve (one_file empty (b'\n' ∷ [])) directive)))

abbrev durations : List (Bytes × ℕ)
durations =
    (codes "30", 30)
    ∷ (codes "90s", 90)
    ∷ (codes "15m", 15 * 60)
    ∷ (codes "12h", 12 * 60 * 60)
    ∷ (codes "7d", 7 * 24 * 60 * 60)
    ∷ (codes "1w", 7 * 24 * 60 * 60)
    ∷ (codes "1h30m", 90 * 60)
    ∷ (codes "0", 0)
    ∷ []

abbrev no_durations : List Bytes
no_durations =
    []
    ∷ codes "-5m"
    ∷ codes "5x"
    ∷ codes "m"
    ∷ codes "1.5h"
    ∷ codes " 5m"
    ∷ codes "5m "
    ∷ codes "99999999999999999999d"
    ∷ []

unfoldable pub parses_durations : Bool
unfolding for_all parse_duration
parses_durations =
    for_all durations (λ (input, want). expect (parse_duration input) (is_secs want))
    && for_all no_durations (λ input. is_err (parse_duration input))

unfoldable pub parses_mode_and_merges : Bool
unfolding parse_mode merge
parses_mode_and_merges =
    expect (parse_mode (codes "on")) (is_mode Mode.on)
    && expect (parse_mode (codes "off")) (is_mode Mode.off)
    && expect (parse_mode (codes "shadow")) (is_mode Mode.shadow)
    && is_err (parse_mode (codes "enabled"))
    && is_mode (merge Mode.unset Mode.on) Mode.on
    && is_mode (merge Mode.unset Mode.unset) Mode.off
    && is_mode (merge Mode.off Mode.on) Mode.off
    && is_mode (merge Mode.shadow Mode.on) Mode.shadow
    && verifies Mode.on
    && verifies Mode.shadow
    && not (verifies Mode.off)
