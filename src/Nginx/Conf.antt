-- ===== src/Nginx/Conf.antt =====
-- `MainConf`, `LocConf`, and how a directive handler ends.
use sigv4_verify.Base.{Bool, true, false, Option, none, some, List, [], Bytes, Result, ok, err}
use sigv4_verify.Verifier.{Duration, ConfigError, State}
use sigv4_verify.Config.{DirectiveError, Mode, merge, CredentialDirective}

pub record MainConf : Type 0 where
  pub clock_skew : Option Duration
  pub default_max_expires : Option Duration
  pub supported_methods : List Bytes
  pub log_denies : Option Bool
  pub log_all : Option Bool
  pub credentials : List CredentialDirective
  pub enabled_anywhere : Bool
  pub verifier : Option State

-- `MainConf::default()`.
abbrev pub default_main : MainConf
default_main = record {
  clock_skew = none;
  default_max_expires = none;
  supported_methods = [];
  log_denies = none;
  log_all = none;
  credentials = [];
  enabled_anywhere = false;
  verifier = none;
}

-- `unwrap_or`.
abbrev pub flag_or : Bool → Option Bool → Bool
flag_or default none = default
flag_or default (some b) = b

-- `MainConf::log_denies` and `MainConf::log_all`.
abbrev pub logs_denies : MainConf → Bool
logs_denies main = flag_or true main.log_denies

abbrev pub logs_all : MainConf → Bool
logs_all main = flag_or false main.log_all

pub record LocConf : Type 0 where
  pub mode : Mode

abbrev pub default_loc : LocConf
default_loc = record { mode = Mode.unset }

-- `Merge for LocConf`.
unfoldable pub merge_loc : LocConf → LocConf → LocConf
merge_loc self prev = record { mode = merge self.mode prev.mode }

-- One constructor for each message of `conf_error`.
pub data ConfMessage : Type 0 where
  not_utf8 no_credential default_expires_out_of_range panic_message : ConfMessage
  directive_error : DirectiveError → ConfMessage
  method_not_supported same_access_key : Bytes → ConfMessage
  verifier_error : ConfigError → ConfMessage

-- What a handler returns in place of `NGX_CONF_OK`; `panicked` is a panic of its body.
pub data ConfFailure : Type 0 where
  is_duplicate : ConfFailure
  conf_error : ConfMessage → ConfFailure
  panicked : ConfFailure

-- A handler's body, with the configuration that it leaves.
abbrev pub Body : Type 0 → Type 0
Body = Result ConfFailure

-- `guard_conf`.
unfoldable pub guard_conf : {A : Type 0} → Body A → Body A
guard_conf (ok a) = ok a
guard_conf (err is_duplicate) = err is_duplicate
guard_conf (err (conf_error m)) = err (conf_error m)
guard_conf (err panicked) = err (conf_error panic_message)
