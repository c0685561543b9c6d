-- ===== src/Tests/VerifierTests.antt =====
-- The theorems of the verifier at a concrete configuration and request, and tests.
use sigv4_verify.Running.{running}
use sigv4_verify.Base.{◌≡◌, ◌↔◌, refl, codes, Bytes, true, List, [], ◌∷◌, ◌++◌, map, ok, err, some}
use sigv4_verify.Tests.SigningTests.{toy}
use sigv4_verify.Verifier.Safety.{IsChecked}
use sigv4_verify.Verifier.Allowed.{
  IsSound, IsSigned, IsConsistent, verify-allowed, verify-IsConsistent,
}
use sigv4_verify.Verifier.Caches.{without_cache, verify-IsSound}
use sigv4_verify.Verifier.Stateless.{stateless}
use sigv4_verify.Verifier.History.{Call, request, reconfigure, run, answers, run-answers}
use sigv4_verify.Verifier.Configured.{IsConfigured, compile_state-IsConfigured}
use sigv4_verify.Verifier.{
  Credential, CompiledCredential, State, SystemTime, since_epoch, default_settings, from_secs,
  compile_state, reload, verify, Checked, duplicate_access_key,
}

abbrev pub credential : Credential
credential = record {
  access_key = codes " AKIA";
  secret_key = codes "secret";
  enabled = true;
  max_expires = from_secs 3_600;
  allowed_hosts = codes "Example.com" ∷ [];
  allowed_methods = codes "get" ∷ [];
  allowed_prefixes = codes "/photos" ∷ [];
}

abbrev pub cred : CompiledCredential
cred = record {
  access_key = codes "AKIA";
  access_key_hash = codes "sha256:c5c5c5c5c5c5c5c5";
  secret_seed = codes "AWS4secret";
  enabled = true;
  max_expires = from_secs 3_600;
  allowed_hosts = codes "example.com" ∷ [];
  allowed_methods = codes "GET" ∷ [];
  allowed_prefixes = codes "/photos" ∷ [];
  signing_cache = [];
}

abbrev pub state : State
state = record {
  settings = default_settings;
  credentials = (codes "AKIA", cred) ∷ [];
  supported_methods = codes "HEAD" ∷ codes "GET" ∷ [];
}

abbrev pub uri_up_to_signature : Bytes
uri_up_to_signature =
    codes
      "/photos/a?X-Amz-Algorithm=AWS4-HMAC-SHA256&X-Amz-Credential=AKIA%2F20260102%2Feu%2Fs3%2Faws4_request"
    ++ codes
        "&X-Amz-Date=20260102T030405Z&X-Amz-Expires=600&X-Amz-SignedHeaders=host&X-Amz-Signature="

abbrev pub now : SystemTime
now = since_epoch (from_secs 1_767_323_100)

pub compiled : compile_state toy default_settings (credential ∷ []) ≡ ok state
unfolding running
compiled = refl

abbrev signature_hex : Bytes
signature_hex = codes "6262626262626262626262626262626262626262626262626262626262626262"

abbrev pub signed_uri : Bytes
signed_uri = uri_up_to_signature ++ signature_hex

abbrev pub method : Bytes
method = codes "get"

abbrev pub host : Bytes
host = codes "EXAMPLE.com "

accepted : (verify toy state method signed_uri host now).0 ≡ record {
  allowed = true;
  reason = codes "ok";
  path = codes "/photos/a";
  access_key = some (codes "AKIA");
  access_key_hash = codes "sha256:c5c5c5c5c5c5c5c5";
}
unfolding running
accepted = refl

wrong :
    (verify toy state method (uri_up_to_signature ++ codes "00") host now).0.reason
    ≡ codes "signature_mismatch"
unfolding running
wrong = refl

other_host :
    (verify toy state method signed_uri (codes "example.org") now).0.reason ≡ codes "unauthorized"
unfolding running
other_host = refl

expired :
    (verify toy state method signed_uri host (since_epoch (from_secs 1_767_323_646))).0.reason
    ≡ codes "expired"
unfolding running
expired = refl

twice :
    (reload toy state default_settings (credential ∷ credential ∷ []))
    ≡ (err duplicate_access_key, state)
unfolding running
twice = refl

pub configured : IsConfigured state × IsSound toy state
configured = compile_state-IsConfigured toy default_settings (credential ∷ []) compiled

compile_state-IsConfigured_example : IsConfigured state × IsSound toy state
compile_state-IsConfigured_example =
    compile_state-IsConfigured toy default_settings (credential ∷ []) compiled

verify-allowed_example :
    ((verify toy state method signed_uri host now).0.allowed ≡ true)
    ↔ ((c : Checked) × IsChecked state method signed_uri host now c × IsSigned toy c)
verify-allowed_example = verify-allowed toy state method signed_uri host now configured.1

verify-IsConsistent_example : IsConsistent (verify toy state method signed_uri host now).0
verify-IsConsistent_example = verify-IsConsistent toy state method signed_uri host now

verify-IsSound_example :
    let state' = (verify toy state method signed_uri host now).1 in
    IsSound toy state'
    × (state'.settings ≡ state.settings)
    × (state'.supported_methods ≡ state.supported_methods)
    × (map without_cache state'.credentials ≡ map without_cache state.credentials)
verify-IsSound_example = verify-IsSound toy state method signed_uri host now configured.1

-- A request, a reload that fails, and the request again.
abbrev calls : List Call
calls =
    request method signed_uri host now
    ∷ reconfigure default_settings (credential ∷ credential ∷ [])
    ∷ request method signed_uri host now
    ∷ []

run-answers_example : run toy state calls ≡ answers toy (stateless state) calls
run-answers_example = run-answers toy state calls configured.1
