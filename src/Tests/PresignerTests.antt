-- ===== src/Tests/PresignerTests.antt =====
-- A request with an extra parameter, signed by the presigner and verified.
use sigv4_verify.Running.{running}
use sigv4_verify.Base.{◌≡◌, refl, arith, true, some, [], ◌∷◌, Bytes, codes, ok, All, IsByte}
use sigv4_verify.Base.Int.{pos}
use sigv4_verify.Date.{ParsedAmzDate}
use sigv4_verify.Query.{canonical_query}
use sigv4_verify.Tests.SigningTests.{toy, total}
use sigv4_verify.Tests.PresignTests.{repeat-IsByte, total-IsByte}
use sigv4_verify.Tests.VerifierTests.{state, cred, now, configured}
use sigv4_verify.Verifier.{from_secs, since_epoch, verify}
use sigv4_verify.Presigner.{
  PresignInput, qp, presigned_uri, join_raw_query, params_of, test_canonical_query,
}
use sigv4_verify.Presigner.Canonical.{test_canonical_query-canonical_query}
use sigv4_verify.Presigner.Parts.{IsExtra}
use sigv4_verify.Presigner.Grantable.{IsGrantable}
use sigv4_verify.Nginx.{Request, default_main, ngx_ok, handle_request}
use sigv4_verify.Nginx.Clients.{IsSent, handle_request-presigned}
use sigv4_verify.Tests.NginxTests.{location}
use sigv4_verify.Presigner.Accepted.{presigned_uri-verify}

abbrev input : PresignInput
input = record {
  method = codes "GET";
  path = codes "/photos/a(b%7e";
  host = codes "EXAMPLE.com ";
  access_key = codes "AKIA";
  secret_key = codes "secret";
  region = codes "eu";
  sign_time = record {
    date = codes "20260102";
    timestamp = codes "20260102T030405Z";
    system_time = since_epoch (from_secs 1_767_323_045);
  };
  expires = from_secs 600;
  extra = qp (codes "response-content-type") (codes "image%2fpng") ∷ [];
}

abbrev parsed : ParsedAmzDate
parsed = record { date = codes "20260102"; epoch_seconds = pos 1_767_323_045 }

image-IsExtra : IsExtra (qp (codes "response-content-type") (codes "image%2fpng"))
unfolding running
image-IsExtra = record {
  decoded = (codes "response-content-type", codes "image/png");
  part_lem = refl;
  unknown = refl;
  whole = omega arith;
  clean = refl;
}

grantable : IsGrantable state input now cred parsed
unfolding running
grantable = record {
  method_lem = refl;
  method_present = refl;
  supported = refl;
  host_present = refl;
  path_lem = refl;
  path_clean = refl;
  path_whole = omega arith;
  scope_lem = record {
    access_key_present = λ e. cc;
    region_present = λ e. cc;
    service_present = λ e. cc;
    terminal_present = λ e. cc;
    date_length = refl;
    date_digits = (refl, (refl, (refl, (refl, (refl, (refl, (refl, (refl, tt))))))));
    no_slash = omega arith;
    scope_lem = refl;
  };
  service_lem = refl;
  credential_bytes = omega arith;
  credential_utf8 = refl;
  parsed_lem = refl;
  date_lem = refl;
  positive = omega arith;
  bounded = omega arith;
  granted = record {
    lookup_lem = refl;
    enabled = refl;
    method_lem = refl;
    host_lem = refl;
    path_lem = refl;
    within = refl;
  };
  seed_lem = refl;
  timely = record { not_future = omega arith; not_expired = omega arith };
  extra_lem = (image-IsExtra, tt);
}

hmac-IsByte : (key data' : Bytes) → All IsByte (toy.hmac_sign key data')
hmac-IsByte key data' = repeat-IsByte 32 (total _) (total-IsByte _)

presigned_uri-verify_example :
    (uri : Bytes) × (presigned_uri toy input ≡ some uri)
    × ((verify toy state input.method uri input.host now).0.allowed ≡ true)
presigned_uri-verify_example =
    presigned_uri-verify toy state input now cred parsed configured.1 grantable hmac-IsByte

abbrev read : (out : _) × (canonical_query (join_raw_query (params_of input)) ≡ ok out)
unfolding running
read = (_, refl)

test_canonical_query-canonical_query_example :
    test_canonical_query (join_raw_query (params_of input)) ≡ some read.0.0
test_canonical_query-canonical_query_example =
    test_canonical_query-canonical_query (join_raw_query (params_of input)) (λ e. cc) read.1

-- The request as a client sends it to NGINX.
abbrev signed : (uri : Bytes) × (presigned_uri toy input ≡ some uri)
unfolding running
signed = (_, refl)

abbrev request : Request
request = record {
  location_conf = some location;
  main_conf = some (record default_main { verifier = some state });
  allocates = true;
  method_name = codes "GET";
  unparsed_uri = signed.0;
  host = some (codes "EXAMPLE.com ");
  now = now;
  elapsed_us = 42;
}

sent : IsSent toy request input
unfolding running
sent = record { method_lem = refl; host_lem = refl; uri_lem = signed.1 }

handle_request-presigned_example : (handle_request toy request).status ≡ ngx_ok
handle_request-presigned_example =
    handle_request-presigned toy request input state cred parsed refl refl refl configured.1
      hmac-IsByte sent grantable
