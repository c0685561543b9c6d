-- ===== src/Tests/ScopeTests.antt =====
-- The theorems of this component at a concrete scope, and tests.
use sigv4_verify.Running.{running}
use sigv4_verify.Base.{◌≡◌, refl, arith, codes, Bytes, ok, err}
use sigv4_verify.Percent.{uri_error}
use sigv4_verify.Text.Split.{join}
use sigv4_verify.Scope.{CredentialScope, parse_credential_scope}
use sigv4_verify.Scope.Laws.{IsScope, parts_of, parse_credential_scope-IsScope}

abbrev value : Bytes
value = codes "AKIA/20260102/us-east-1/s3/aws4_request"

abbrev scope : CredentialScope
scope = record {
  access_key = codes "AKIA";
  date = codes "20260102";
  region = codes "us-east-1";
  service = codes "s3";
  terminal = codes "aws4_request";
  scope = codes "20260102/us-east-1/s3/aws4_request";
}

parsed : parse_credential_scope value ≡ ok scope
unfolding running
parsed = refl

six_parts : parse_credential_scope (codes "a/20260102/r/s3/aws4_request/x") ≡ err uri_error
unfolding running
six_parts = refl

scope-IsScope : IsScope scope
scope-IsScope = record {
  access_key_present = cc;
  region_present = cc;
  service_present = cc;
  terminal_present = cc;
  date_length = refl;
  date_digits = ground arith;
  no_slash = omega arith;
  scope_lem = refl;
}

parse_credential_scope-IsScope_example : IsScope scope × (join b'/' (parts_of scope) ≡ value)
parse_credential_scope-IsScope_example = parse_credential_scope-IsScope value parsed
