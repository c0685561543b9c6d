-- ===== src/Nginx/Init.antt =====
-- `init_main_conf`, which compiles the verifier once the `http` block is parsed.
use sigv4_verify.Base.{
  Bool, false, ◌||◌, Option, none, some, List, [], ◌∷◌, Bytes, if◌then◌else◌, Result, ok, err,
  ◌>>=◌, ◌>>◌,
}
use sigv4_verify.Crypto.{Crypto}
use sigv4_verify.Verifier.{
  Duration, is_zero, exceeds, max_sigv4_expires, Settings, default_settings, Credential,
  ConfigError, State, new, compile_state,
}
use sigv4_verify.Config.{CredentialDirective, resolve}
use sigv4_verify.Nginx.Conf.{
  MainConf, conf_error, no_credential, default_expires_out_of_range, verifier_error, Body,
  guard_conf,
}
use sigv4_verify.Nginx.Directives.{report, stop_if}

abbrev pub expires_out_of_range : Option Duration → Bool
expires_out_of_range none = false
expires_out_of_range (some d) = is_zero d || exceeds d max_sigv4_expires

abbrev pub duration_or : Duration → Option Duration → Duration
duration_or default none = default
duration_or default (some d) = d

abbrev pub methods_or : List Bytes → List Bytes → List Bytes
methods_or default [] = default
methods_or default (m ∷ ms) = m ∷ ms

-- The settings that the main configuration gives.
unfoldable pub settings_of : MainConf → Settings
settings_of main = record {
  allowed_clock_skew = duration_or default_settings.allowed_clock_skew main.clock_skew;
  default_max_expires = duration_or default_settings.default_max_expires main.default_max_expires;
  supported_methods = methods_or default_settings.supported_methods main.supported_methods;
  supported_service = default_settings.supported_service;
}

abbrev pub report_verifier : Result ConfigError State → Body State
report_verifier (ok state) = ok state
report_verifier (err e) = err (conf_error (verifier_error e))

module _ (crypto : Crypto) (read_file : Bytes → Option Bytes) where
  -- The loop over the credentials.
  unfoldable pub resolve_all : List CredentialDirective → Body (List Credential)
  unfolding resolve
  resolve_all [] = ok []
  resolve_all (directive ∷ directives) = do
    credential ← report (resolve read_file directive)
    credentials ← resolve_all directives
    ok (credential ∷ credentials)

  unfoldable pub compile_main : MainConf → Body MainConf
  unfolding resolve_all settings_of compile_state
  compile_main main = do
    stop_if (expires_out_of_range main.default_max_expires)
        (conf_error default_expires_out_of_range)
    credentials ← resolve_all main.credentials
    state ← report_verifier (new crypto (settings_of main) credentials)
    ok (record main { verifier = some state })

  unfoldable pub init_main_conf : MainConf → Body MainConf
  unfolding guard_conf compile_main
  init_main_conf main = guard_conf (elim main.credentials [
    | [] ↦ if main.enabled_anywhere then err (conf_error no_credential) else ok main
    | d ∷ ds ↦ compile_main main
  ])
