-- ===== src/Nginx/Directives.antt =====
-- The directive handlers, and the table of commands that NGINX calls them by.
use sigv4_verify.Base.{
  Bool, true, false, not, ◌&&◌, ◌||◌, Option, none, some, List, [], ◌∷◌, ◌++◌, Bytes, codes,
  if◌then◌else◌, bytes_eq, Result, ok, err, ◌>>=◌, ◌>>◌,
}
use sigv4_verify.Text.Utf8.{is_utf8}
use sigv4_verify.Verifier.{Duration}
use sigv4_verify.Config.{
  DirectiveError, Mode, parse_mode, verifies, parse_on_off, parse_duration, CredentialDirective,
  parse_directive,
}
use sigv4_verify.Nginx.Conf.{
  MainConf, LocConf, ConfFailure, is_duplicate, conf_error, panicked, not_utf8, directive_error,
  method_not_supported, same_access_key, Body, guard_conf,
}

-- The arguments after the directive's name.
unfoldable pub all_utf8 : List Bytes → Bool
all_utf8 [] = true
all_utf8 (arg ∷ args) = is_utf8 arg && all_utf8 args

unfoldable pub directive_args : List Bytes → Body (List Bytes)
unfolding all_utf8
directive_args [] = err panicked
directive_args (name ∷ args) = if all_utf8 args then ok args else err (conf_error not_utf8)

-- `args[0]`.
abbrev pub first_arg : List Bytes → Body Bytes
first_arg [] = err panicked
first_arg (arg ∷ args) = ok arg

-- An error of the crate `sigv4-module-config`, reported by its message.
abbrev pub report : {A : Type 0} → Result DirectiveError A → Body A
report (ok a) = ok a
report (err e) = err (conf_error (directive_error e))

abbrev pub stop_if : Bool → ConfFailure → Body Unit
stop_if stop failure = if stop then err failure else ok tt

abbrev pub is_set : {A : Type 0} → Option A → Bool
is_set none = false
is_set (some a) = true

abbrev pub is_unset : Mode → Bool
is_unset Mode.unset = true
is_unset mode = false

-- `main.enabled_anywhere = true`, where the main configuration is found.
abbrev pub enable : Mode → Option MainConf → Option MainConf
enable mode none = none
enable mode (some main) =
    some (if verifies mode then record main { enabled_anywhere = true } else main)

unfoldable pub set_mode : List Bytes → LocConf → Option MainConf → Body (LocConf × Option MainConf)
unfolding directive_args guard_conf parse_mode
set_mode cf_args loc main = guard_conf (do
  stop_if (not (is_unset loc.mode)) is_duplicate
  args ← directive_args cf_args
  arg ← first_arg args
  mode ← report (parse_mode arg)
  ok (record { mode = mode }, enable mode main))

-- `set_main_duration`, with the slot that `field` selects: its new value.
unfoldable pub set_main_duration : List Bytes → Option Duration → Body (Option Duration)
unfolding directive_args guard_conf parse_duration
set_main_duration cf_args slot = guard_conf (do
  stop_if (is_set slot) is_duplicate
  args ← directive_args cf_args
  arg ← first_arg args
  duration ← report (parse_duration arg)
  ok (some duration))

unfoldable pub set_clock_skew : List Bytes → MainConf → Body MainConf
unfolding set_main_duration
set_clock_skew cf_args main = do
  slot ← set_main_duration cf_args main.clock_skew
  ok (record main { clock_skew = slot })

unfoldable pub set_default_max_expires : List Bytes → MainConf → Body MainConf
unfolding set_main_duration
set_default_max_expires cf_args main = do
  slot ← set_main_duration cf_args main.default_max_expires
  ok (record main { default_max_expires = slot })

abbrev pub is_empty_list : List Bytes → Bool
is_empty_list [] = true
is_empty_list (x ∷ xs) = false

-- The loop of `set_methods`.
unfoldable pub check_methods : List Bytes → Body Unit
check_methods [] = ok tt
check_methods (method ∷ methods) = do
  stop_if (not (bytes_eq method (codes "GET") || bytes_eq method (codes "HEAD")))
      (conf_error (method_not_supported method))
  check_methods methods

unfoldable pub set_methods : List Bytes → MainConf → Body MainConf
unfolding directive_args guard_conf check_methods
set_methods cf_args main = guard_conf (do
  stop_if (not (is_empty_list main.supported_methods)) is_duplicate
  args ← directive_args cf_args
  check_methods args
  ok (record main { supported_methods = args }))

unfoldable pub set_main_flag : List Bytes → Option Bool → Body (Option Bool)
unfolding directive_args guard_conf parse_on_off
set_main_flag cf_args slot = guard_conf (do
  stop_if (is_set slot) is_duplicate
  args ← directive_args cf_args
  arg ← first_arg args
  value ← report (parse_on_off arg)
  ok (some value))

unfoldable pub set_log_denies : List Bytes → MainConf → Body MainConf
unfolding set_main_flag
set_log_denies cf_args main = do
  slot ← set_main_flag cf_args main.log_denies
  ok (record main { log_denies = slot })

unfoldable pub set_log_all : List Bytes → MainConf → Body MainConf
unfolding set_main_flag
set_log_all cf_args main = do
  slot ← set_main_flag cf_args main.log_all
  ok (record main { log_all = slot })

-- `iter().any(|existing| existing.access_key == directive.access_key)`.
unfoldable pub has_access_key : Bytes → List CredentialDirective → Bool
has_access_key k [] = false
has_access_key k (d ∷ ds) = bytes_eq d.access_key k || has_access_key k ds

unfoldable pub set_credential : List Bytes → MainConf → Body MainConf
unfolding directive_args guard_conf parse_directive has_access_key
set_credential cf_args main = guard_conf (do
  args ← directive_args cf_args
  directive ← report (parse_directive args)
  stop_if (has_access_key directive.access_key main.credentials)
      (conf_error (same_access_key directive.access_key))
  ok (record main { credentials = main.credentials ++ directive ∷ [] }))

-- The entries of `COMMANDS`.
pub data Command : Type 0 where
  mode clock_skew default_max_expires methods log_denies log_all credential : Command

abbrev pub command_name : Command → Bytes
command_name mode = codes "sigv4_verify"
command_name clock_skew = codes "sigv4_verify_clock_skew"
command_name default_max_expires = codes "sigv4_verify_default_max_expires"
command_name methods = codes "sigv4_verify_methods"
command_name log_denies = codes "sigv4_verify_log_denies"
command_name log_all = codes "sigv4_verify_log_all"
command_name credential = codes "sigv4_verify_credential"

-- `NGX_CONF_TAKE1`; the others are `NGX_CONF_1MORE`.
abbrev pub takes_one : Command → Bool
takes_one methods = false
takes_one credential = false
takes_one command = true

-- The handler `set`, on the configuration that `conf` selects.
unfoldable pub call_command :
    Command → List Bytes → LocConf → MainConf → Body (LocConf × Option MainConf)
unfolding set_mode set_clock_skew set_default_max_expires set_methods set_log_denies set_log_all
    set_credential
call_command mode cf_args loc main = set_mode cf_args loc (some main)
call_command clock_skew cf_args loc main = do m ← set_clock_skew cf_args main; ok (loc, some m)
call_command default_max_expires cf_args loc main = do
  m ← set_default_max_expires cf_args main
  ok (loc, some m)
call_command methods cf_args loc main = do m ← set_methods cf_args main; ok (loc, some m)
call_command log_denies cf_args loc main = do m ← set_log_denies cf_args main; ok (loc, some m)
call_command log_all cf_args loc main = do m ← set_log_all cf_args main; ok (loc, some m)
call_command credential cf_args loc main = do m ← set_credential cf_args main; ok (loc, some m)
