-- ===== src/Tests/PresignTests.antt =====
-- Presigning at a concrete request, and the queries behind it.
use sigv4_verify.Running.{running}
use sigv4_verify.Base.{
  ℕ, zero, suc, ◌≡◌, ◌<◌, refl, arith, [], ◌∷◌, ◌++◌, Bytes, codes, ok, All, IsByte,
}
use sigv4_verify.Base.Int.{pos}
use sigv4_verify.Hex.{is_hex}
use sigv4_verify.Query.{SigV4Query, canonical_query}
use sigv4_verify.Query.Signed.{IsHexText, with_signature}
use sigv4_verify.Tests.SigningTests.{toy, total, repeat}
use sigv4_verify.Tests.VerifierTests.{state, method, host, now, cred}
use sigv4_verify.Verifier.{Checked, check_request}
use sigv4_verify.Verifier.SignedUri.{signed_uri}

abbrev path : Bytes
path = codes "/photos/a"

abbrev query : Bytes
query =
    codes
      "X-Amz-Algorithm=AWS4-HMAC-SHA256&X-Amz-Credential=AKIA%2F20260102%2Feu%2Fs3%2Faws4_request"
    ++ codes "&X-Amz-Date=20260102T030405Z&X-Amz-Expires=600&X-Amz-SignedHeaders=host"

abbrev values : SigV4Query
values = record {
  algorithm = codes "AWS4-HMAC-SHA256";
  algorithm_count = 1;
  credential = codes "AKIA/20260102/eu/s3/aws4_request";
  credential_count = 1;
  date = codes "20260102T030405Z";
  date_count = 1;
  expires = codes "600";
  expires_count = 1;
  signed_headers = codes "host";
  signed_headers_count = 1;
  signature = codes "00";
  signature_count = 1;
}

-- What the handler finds with the signature 00.
abbrev checked : Checked
checked = record {
  method = codes "GET";
  host = codes "example.com";
  uri = record { path = path; canonical_query_string = query; query = values };
  scope = record {
    access_key = codes "AKIA";
    date = codes "20260102";
    region = codes "eu";
    service = codes "s3";
    terminal = codes "aws4_request";
    scope = codes "20260102/eu/s3/aws4_request";
  };
  amz_date = codes "20260102T030405Z";
  parsed_date = record { date = codes "20260102"; epoch_seconds = pos 1_767_323_045 };
  expires_seconds = 600;
  signature_hex = codes "00";
  cred = cred;
}

passes : check_request toy state method (signed_uri path query (codes "00")) host now ≡ ok checked
unfolding running
passes = refl

pub repeat-IsByte : (n b : ℕ) → b < 256 → All IsByte (repeat n b)
repeat-IsByte zero b h = tt
repeat-IsByte (suc n) b h = (h, repeat-IsByte n b h)

pub total-IsByte : (d : Bytes) → total d < 256
total-IsByte [] = omega arith
total-IsByte (b ∷ r) = omega arith

zeros : IsHexText (codes "00")
unfolding is_hex
zeros = (refl, (refl, tt))

decoded : canonical_query (with_signature query (codes "00")) ≡ ok (query, values)
unfolding running
decoded = refl
