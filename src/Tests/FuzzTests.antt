-- ===== src/Tests/FuzzTests.antt =====
-- The fuzz targets at concrete inputs.
use sigv4_verify.Running.{running}
use sigv4_verify.Base.{
  ℕ, ◌≡◌, refl, true, false, [], ◌∷◌, ◌++◌, Option, some, Bytes, codes, ok, arith,
}
use sigv4_verify.Tests.SigningTests.{toy}
use sigv4_verify.Verifier.{
  SystemTime, since_epoch, from_secs, State, CompiledCredential, compile_state,
}
use sigv4_verify.Fuzz.{
  Input, fuzz_settings, fuzz_credential, fuzz_verify, fuzz_canonical_path, fuzz_canonical_query,
  fuzz_split_uri,
}
use sigv4_verify.Fuzz.Passes.{fuzz_targets_pass}

abbrev cred : CompiledCredential
cred = record {
  access_key = codes "AKIATEST";
  access_key_hash = codes "sha256:ffffffffffffffff";
  secret_seed = codes "AWS4test-secret";
  enabled = true;
  max_expires = from_secs 3_600;
  allowed_hosts = codes "minio.example.com" ∷ [];
  allowed_methods = codes "HEAD" ∷ codes "GET" ∷ [];
  allowed_prefixes = codes "/bucket/" ∷ [];
  signing_cache = [];
}

abbrev verifier : State
verifier = record {
  settings = fuzz_settings;
  credentials = (codes "AKIATEST", cred) ∷ [];
  supported_methods = codes "HEAD" ∷ codes "GET" ∷ [];
}

compiled : compile_state toy fuzz_settings (fuzz_credential ∷ []) ≡ ok verifier
unfolding running
compiled = refl

abbrev uri_up_to_signature : Bytes
uri_up_to_signature =
    codes
      "/bucket/a?X-Amz-Algorithm=AWS4-HMAC-SHA256&X-Amz-Credential=AKIATEST%2F20260102%2Feu%2Fs3%2Faws4_request"
    ++ codes
        "&X-Amz-Date=20260102T030405Z&X-Amz-Expires=600&X-Amz-SignedHeaders=host&X-Amz-%53ignature="

abbrev input : Input
input = record {
  method = codes "GET";
  uri =
      uri_up_to_signature
      ++ codes "2222222222222222222222222222222222222222222222222222222222222222";
  host = codes "minio.example.com";
  now_secs = 1_767_323_100;
}

abbrev checked_add : ℕ → Option SystemTime
checked_add n = some (since_epoch (from_secs n))

-- The verifier decodes the names of the parameters, so it reads the signature of a request that
-- does not spell `X-Amz-Signature`, and the assertion of fuzz_verify fails on a signed one.
escaped_name : (fuzz_verify toy checked_add verifier input).0 ≡ false
unfolding running
escaped_name = refl

abbrev query : Bytes
query = codes "b=%2f&a=1+2&X-Amz-Signature=00"

query_runs : fuzz_canonical_query query ≡ true
unfolding running
query_runs = refl

fuzz_targets_pass_example :
    (fuzz_canonical_path query ≡ true)
    × (fuzz_canonical_query query ≡ true)
    × (fuzz_split_uri query ≡ true)
fuzz_targets_pass_example = fuzz_targets_pass query (omega arith)
