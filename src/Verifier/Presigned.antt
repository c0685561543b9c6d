-- ===== src/Verifier/Presigned.antt =====
-- `Verifier::verify` on a URI that is presigned: checked with one signature, then given another.
use sigv4_verify.Base.{◌≡◌, refl, true, false, some, [], ◌∷◌, arith, Bytes, All, IsByte}
use sigv4_verify.Hex.{append_hex_lower}
use sigv4_verify.Crypto.{Crypto}
use sigv4_verify.Text.Split.{Lacks}
use sigv4_verify.Query.{SigV4Query, single_known_query_value}
use sigv4_verify.Verifier.Compile.{is_empty}
use sigv4_verify.Verifier.Checks.{IsUri}
use sigv4_verify.Query.Signed.{IsHexText, with_signature, canonical_query-with_signature}
use sigv4_verify.Signing.Signatures.{decode_signature-append_hex_lower}
use sigv4_verify.Verifier.Types.{SystemTime, State}
use sigv4_verify.Verifier.Defs.{RequestUri}
use sigv4_verify.Verifier.Handler.{Checked, signature_of, verify}
use sigv4_verify.Verifier.Safety.{IsChecked}
use sigv4_verify.Verifier.Allowed.{IsSound, expected_signature, verify-allowed}
use sigv4_verify.Verifier.SignedUri.{
  append_hex_lower-IsHexText, signed_uri, split_original_uri-signed,
}

-- What is checked, with another signature.
abbrev pub resigned : Checked → Bytes → Checked
resigned c t = record c {
  uri = record c.uri { query = record c.uri.query { signature = t } };
  signature_hex = t;
}

signature_of-resigned :
    (query : SigV4Query) (t : Bytes) {s : Bytes}
    → signature_of query ≡ some s
    → signature_of (record query { signature = t }) ≡ some t
unfolding single_known_query_value
signature_of-resigned query t h = ground arith

IsUri-resigned :
    (path query s t : Bytes) (uri : RequestUri)
    → Lacks b'?' path
    → IsHexText s
    → IsHexText t
    → IsUri (signed_uri path query s) uri
    → IsUri (signed_uri path query t) (record uri { query = record uri.query { signature = t } })
IsUri-resigned path query s t uri lacks hs ht h =
    let (same, split') = split_original_uri-signed path query s t lacks hs ht h.split_lem in
    let path_lem : uri.path ≡ path = ground arith in
    let query_lem : h.raw_query ≡ with_signature query s = ground arith in
    let (_, again) = canonical_query-with_signature query s t hs ht (rw query_lem at h.query_lem) in
    record { raw_query = with_signature query t; split_lem = rw path_lem split'; query_lem = again }

uri_present : (path query s : Bytes) → is_empty (signed_uri path query s) ≡ false
uri_present [] query s = refl
uri_present (c ∷ path) query s = refl

IsChecked-resigned :
    (state : State) (method host : Bytes) (now : SystemTime) (path query s t : Bytes) (c : Checked)
    → Lacks b'?' path
    → IsHexText s
    → IsHexText t
    → IsChecked state method (signed_uri path query s) host now c
    → IsChecked state method (signed_uri path query t) host now (resigned c t)
IsChecked-resigned state method host now path query s t c lacks hs ht h = record {
  metadata = record {
    method_lem = h.metadata.method_lem;
    host_lem = h.metadata.host_lem;
    method_present = h.metadata.method_present;
    uri_present = uri_present path query t;
    host_present = h.metadata.host_present;
    supported = h.metadata.supported;
  };
  uri_parts = IsUri-resigned path query s t c.uri lacks hs ht h.uri_parts;
  scoped = record {
    credential_value = h.scoped.credential_value;
    algorithm_lem = h.scoped.algorithm_lem;
    credential_lem = h.scoped.credential_lem;
    scope_lem = h.scoped.scope_lem;
    service_lem = h.scoped.service_lem;
    terminal_lem = h.scoped.terminal_lem;
    signed_headers_lem = h.scoped.signed_headers_lem;
  };
  dated = record {
    date_lem = h.dated.date_lem;
    parsed_lem = h.dated.parsed_lem;
    same_date_lem = h.dated.same_date_lem;
  };
  expiring = record {
    expires_value = h.expiring.expires_value;
    expires_lem = h.expiring.expires_lem;
    seconds_lem = h.expiring.seconds_lem;
    positive = h.expiring.positive;
    bounded = h.expiring.bounded;
    signature_lem = signature_of-resigned c.uri.query t h.expiring.signature_lem;
  };
  granted = h.granted;
  timely = h.timely;
}

module _ (crypto : Crypto) where
  -- If every credential's cache holds keys of its own secret only, and a request whose path has no
  -- question mark meets every condition of IsChecked with some hexadecimal signature as the last
  -- parameter of its query, then the same request with the lower-case hexadecimal form of its
  -- expected signature, which consists of bytes, in place of that is allowed.
  pub verify-presigned :
      (state : State) (raw_method raw_host : Bytes) (now : SystemTime) (path query s : Bytes)
      (c : Checked)
      → IsSound crypto state
      → Lacks b'?' path
      → IsHexText s
      → IsChecked state raw_method (signed_uri path query s) raw_host now c
      → All IsByte (expected_signature crypto c)
      → let signature_hex = append_hex_lower (expected_signature crypto c) in
        (verify crypto state raw_method
          (signed_uri path query signature_hex)
          raw_host
          now).0.allowed
        ≡ true
  verify-presigned state raw_method raw_host now path query s c sound lacks hs met bytes =
      let signature_hex = append_hex_lower (expected_signature crypto c) in
      let ht = append_hex_lower-IsHexText (expected_signature crypto c) bytes in
      (verify-allowed crypto state raw_method (signed_uri path query signature_hex) raw_host now
          sound).1
        (
          resigned c signature_hex,
          IsChecked-resigned state raw_method raw_host now path query s signature_hex c lacks hs ht
              met,
          decode_signature-append_hex_lower (expected_signature crypto c) bytes
              (crypto.hmac_sign_length _ _),
        )
