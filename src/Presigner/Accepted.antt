-- ===== src/Presigner/Accepted.antt =====
-- The verifier on a request that the presigner has signed.
use sigv4_verify.Base.{◌≡◌, refl, true, some, [], ◌++◌, Bytes, codes, All, IsByte}
use sigv4_verify.Hex.{append_hex_lower}
use sigv4_verify.Crypto.{Crypto}
use sigv4_verify.Date.{ParsedAmzDate}
use sigv4_verify.Signing.{derive_key, hash_canonical_request, string_to_sign}
use sigv4_verify.Verifier.{SystemTime, State, CompiledCredential, verify}
use sigv4_verify.Verifier.Allowed.{IsSound, expected_signature}
use sigv4_verify.Verifier.SignedUri.{signed_uri}
use sigv4_verify.Verifier.Presigned.{verify-presigned}
use sigv4_verify.Presigner.Defs.{
  PresignInput, test_canonical_query, test_signature, presigned_uri, uri_encode,
}
use sigv4_verify.Presigner.Canonical.{test_canonical_path-canonical_uri}
use sigv4_verify.Presigner.Grantable.{IsGrantable, IsGrantable-IsWritable}
use sigv4_verify.Presigner.Unsigned.{raw_query_of, query_lem, checked_of, unsigned-IsChecked}

module _ (crypto : Crypto) where
  -- The presigner's signature is the one that the verifier expects.
  presigned_uri-signed :
      (input : PresignInput) (cred : CompiledCredential) (parsed : ParsedAmzDate) (out : Bytes)
      → cred.secret_seed ≡ codes "AWS4" ++ input.secret_key
      → test_canonical_query (raw_query_of input) ≡ some out
      → presigned_uri crypto input
        ≡ some (
            signed_uri input.path
              (raw_query_of input)
              (append_hex_lower (expected_signature crypto (checked_of input cred parsed out))))
  unfolding presigned_uri test_signature derive_key hash_canonical_request string_to_sign uri_encode
  presigned_uri-signed input cred parsed out seed q =
      rw (presigned_uri, q, test_canonical_path-canonical_uri input.path, seed) refl

  -- If every credential's cache holds keys of its own secret only, HMAC values consist of bytes,
  -- and a request meets IsGrantable (the configuration supports and grants its method, host, path,
  -- access key and expiry, its secret is the credential's, its path is valid and has no question
  -- mark, its scope and time stamp are well formed, the time is within its window, and its extra
  -- parameters decode to names that verify does not read), then the presigner of the tests gives a
  -- URI for it, and verify allows the request with that URI.
  pub presigned_uri-verify :
      (state : State) (input : PresignInput) (now : SystemTime) (cred : CompiledCredential)
      (parsed : ParsedAmzDate)
      → IsSound crypto state
      → IsGrantable state input now cred parsed
      → ((key data' : Bytes) → All IsByte (crypto.hmac_sign key data'))
      → (uri : Bytes) × (presigned_uri crypto input ≡ some uri)
        × ((verify crypto state input.method uri input.host now).0.allowed ≡ true)
  presigned_uri-verify state input now cred parsed sound g bytes =
      let w = IsGrantable-IsWritable g in
      let (out, written, read) = query_lem input w in
      let c = checked_of input cred parsed out in
      (
        signed_uri input.path (raw_query_of input) (append_hex_lower (expected_signature crypto c)),
        presigned_uri-signed input cred parsed out g.seed_lem written,
        verify-presigned crypto state input.method input.host now input.path (raw_query_of input) []
            c sound g.path_whole tt (unsigned-IsChecked state input now cred parsed out g read)
            (bytes _ _),
      )
