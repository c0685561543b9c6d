-- ===== src/Tests/NginxTests.antt =====
-- A configuration and requests of the NGINX module, and tests.
use sigv4_verify.Running.{running}
use sigv4_verify.Base.{
  ◌≡◌, refl, codes, Bytes, true, false, [], ◌∷◌, ok, err, some, none, List, All,
}
use sigv4_verify.Text.Lossy.{from_utf8_lossy}
use sigv4_verify.Tests.SigningTests.{toy}
use sigv4_verify.Tests.VerifierTests.{signed_uri, now}
use sigv4_verify.Tests.ConfigTests.{args, directive, cred, no_files}
use sigv4_verify.Verifier.{State, default_settings}
use sigv4_verify.Verifier.Allowed.{IsSound}
use sigv4_verify.Signing.Threads
use sigv4_verify.Signing.Threads.{Reach-IsValid}
use sigv4_verify.Config.{Mode, verifies}
use sigv4_verify.Nginx.{
  MainConf, default_main, LocConf, default_loc, call_command, init_main_conf, not_utf8,
  no_credential, conf_error, is_duplicate, Request, LogLine, Status, ngx_ok, forbidden,
  handle_request, VariableValue, variable_latency_us, access_handler, Command,
}
use sigv4_verify.Nginx.Loading.{HttpConf, Parses, start, next, block, call, IsIn, effective}

abbrev pub credential_args : List Bytes
credential_args = codes "sigv4_verify_credential" ∷ args

abbrev pub mode_args : List Bytes
mode_args = codes "sigv4_verify" ∷ codes "on" ∷ []

abbrev pub with_credential : MainConf
with_credential = record default_main { credentials = directive ∷ [] }

abbrev pub parsed_main : MainConf
parsed_main = record with_credential { enabled_anywhere = true }

abbrev pub location : LocConf
location = record { mode = Mode.on }

abbrev pub parsed : HttpConf
parsed = record { main = parsed_main; locs = location ∷ default_loc ∷ [] }

pub stores_credential :
    call_command Command.credential credential_args default_loc default_main
    ≡ ok (default_loc, some with_credential)
unfolding running
stores_credential = refl

pub stores_mode :
    call_command Command.mode mode_args default_loc with_credential
    ≡ ok (location, some parsed_main)
unfolding running
stores_mode = refl

pub parsed-Parses : Parses parsed
parsed-Parses =
    next
      (next
        (next start (
          call Command.credential credential_args default_main with_credential default_loc
            default_loc [] [] stores_credential))
        (block (record { main = with_credential; locs = default_loc ∷ [] })))
      (call Command.mode mode_args with_credential parsed_main default_loc location []
        (default_loc ∷ []) stores_mode)

abbrev pub state : State
state = record {
  settings = default_settings;
  credentials = (codes "AKIA", cred) ∷ [];
  supported_methods = codes "HEAD" ∷ codes "GET" ∷ [];
}

abbrev pub main : MainConf
main = record parsed_main { verifier = some state }

pub initialised : init_main_conf toy no_files parsed_main ≡ ok main
unfolding running
initialised = refl

-- The location stands in a block without a directive of the module.
pub known : All (IsIn (location ∷ default_loc ∷ [])) (default_loc ∷ location ∷ [])
known = ((location ∷ [], [], refl), (([], default_loc ∷ [], refl), tt))

pub sound : IsSound toy state
sound = (Reach-IsValid toy (codes "AWS4secret") Threads.start, tt)

abbrev pub request : Request
request = record {
  location_conf = some location;
  main_conf = some main;
  allocates = true;
  method_name = codes "GET";
  unparsed_uri = signed_uri;
  host = some (codes "example.com");
  now = now;
  elapsed_us = 42;
}

-- The same request without its host.
abbrev pub anonymous : Request
anonymous = record request { host = none }

abbrev pub unset_value : VariableValue
unset_value = record { valid = false; no_cacheable = false; not_found = false; len = 0; bytes = [] }

serves : (handle_request toy request).status ≡ ngx_ok
unfolding running
serves = refl

refuses : (handle_request toy anonymous).status ≡ forbidden
unfolding running
refuses = refl

abbrev pub refusal : LogLine
refusal = record {
  result = codes "deny";
  reason = codes "missing_metadata";
  access_key_hash = codes "-";
  method = codes "GET";
  host = [];
  path = [];
}

pub logs_refusal : (handle_request toy anonymous).log ≡ some refusal
unfolding running
logs_refusal = refl

bad_utf8 :
    call_command Command.mode (codes "sigv4_verify" ∷ (0xFF ∷ []) ∷ []) default_loc default_main
    ≡ err (conf_error not_utf8)
unfolding running
bad_utf8 = refl

pub mode_twice : call_command Command.mode mode_args location default_main ≡ err is_duplicate
unfolding running
mode_twice = refl

without_credential :
    init_main_conf toy no_files (record default_main { enabled_anywhere = true })
    ≡ err (conf_error no_credential)
unfolding running
without_credential = refl

latency_text :
    (variable_latency_us true (handle_request toy request).ctx unset_value).0.bytes ≡ codes "42"
unfolding running
latency_text = refl

panics : (access_handler toy (λ r. none) request).status ≡ Status.http_status 500
unfolding running
panics = refl

lossy :
    from_utf8_lossy (0x61 ∷ 0xE2 ∷ 0x82 ∷ 0x62 ∷ 0xFF ∷ [])
    ≡ 0x61 ∷ 0xEF ∷ 0xBF ∷ 0xBD ∷ 0x62 ∷ 0xEF ∷ 0xBF ∷ 0xBD ∷ []
unfolding running
lossy = refl

pub is_on : (effective default_loc (location ∷ [])).mode ≡ Mode.on
unfolding running
is_on = refl

pub is_verifying : verifies (effective default_loc (location ∷ [])).mode ≡ true
unfolding running
is_verifying = refl

pub here : request.location_conf ≡ some (effective default_loc (location ∷ []))
unfolding running
here = refl
