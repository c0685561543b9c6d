-- ===== src/Presigner/Defs.antt =====
-- `presigned_uri` of rust/sigv4-verifier/tests/verifier.rs with what it calls. Its copies of the
-- byte helpers are those of the verifier, in Hex. Where it indexes past the end of a slice, it
-- panics: the result is `none`.
use sigv4_verify.Base.{
  ℕ, Bool, not, ◌&&◌, ◌||◌, ltb, Option, none, some, List, [], ◌∷◌, ◌++◌, map, Bytes, codes, ◌==◌,
  if◌then◌else◌, bytes_eq,
}
use sigv4_verify.Hex.{
  is_ascii_digit, is_unreserved, is_hex, hex_byte, upper_hex, to_ascii_lowercase,
  write_escaped_byte, append_hex_lower,
}
use sigv4_verify.Crypto.{Crypto}
use sigv4_verify.Text.{split}
use sigv4_verify.Text.Split.{join}
use sigv4_verify.Text.Trim.{trim}
use sigv4_verify.Text.Decimal.{to_string}
use sigv4_verify.Query.{CanonicalQueryParam, name_and_value, cons_some, sort_params, write_params}
use sigv4_verify.Verifier.{SystemTime, Duration}

pub record AmzTime : Type 0 where
  pub date : Bytes
  pub timestamp : Bytes
  pub system_time : SystemTime

pub record RawQueryParam : Type 0 where
  pub name : Bytes
  pub value : Bytes

pub record PresignInput : Type 0 where
  pub method : Bytes
  pub path : Bytes
  pub host : Bytes
  pub access_key : Bytes
  pub secret_key : Bytes
  pub region : Bytes
  pub sign_time : AmzTime
  pub expires : Duration
  pub extra : List RawQueryParam

abbrev pub test_service : Bytes
test_service = codes "s3"

abbrev pub qp : Bytes → Bytes → RawQueryParam
qp name value = record { name = name; value = value }

unfoldable pub uri_encode : Bytes → Bytes
uri_encode [] = []
uri_encode (c ∷ value) =
    (if is_unreserved c then c ∷ [] else write_escaped_byte c) ++ uri_encode value

abbrev push : ℕ → Option Bytes → Option Bytes
push c none = none
push c (some out) = some (c ∷ out)

-- `from_hex` subtracts below zero, which panics in the tests' debug build.
unfoldable pub is_below_hex : ℕ → Bool
is_below_hex c = not (is_ascii_digit c) && ltb c b'A'

-- Not every escape is tested to be one.
unfoldable pub percent_decode : Bytes → Option Bytes
percent_decode [] = some []
percent_decode (c ∷ h ∷ l ∷ r) =
    let plain = push c (percent_decode (h ∷ l ∷ r)) in
    let escape = push (hex_byte h l) (percent_decode r) in
    if not (c == b'%') then plain else if is_below_hex h || is_below_hex l then none else escape
percent_decode (c ∷ r) =
    let plain = push c (percent_decode r) in if not (c == b'%') then plain else none

unfoldable pub test_canonical_path : Bytes → Bytes
test_canonical_path [] = []
test_canonical_path (c ∷ h ∷ l ∷ r) =
    let plain = test_canonical_path (h ∷ l ∷ r) in
    let escape = test_canonical_path r in
    if c == b'/'
    then b'/' ∷ plain
    else if (c == b'%') && is_hex h && is_hex l
    then b'%' ∷ upper_hex h ∷ upper_hex l ∷ escape
    else if is_unreserved c
    then c ∷ plain
    else write_escaped_byte c ++ plain
test_canonical_path (c ∷ r) =
    let plain = test_canonical_path r in
    if c == b'/'
    then b'/' ∷ plain
    else if is_unreserved c
    then c ∷ plain
    else write_escaped_byte c ++ plain

-- One round of the first loop of `test_canonical_query`: the parameter that it pushes.
unfoldable pub encoded_part : Bytes → Option (Option CanonicalQueryParam)
encoded_part part = elim (percent_decode (name_and_value part).0) [
  | none ↦ none
  | some name ↦ elim (percent_decode (name_and_value part).1) [
    | none ↦ none
    | some value ↦ some (
        if bytes_eq name (codes "X-Amz-Signature")
        then none
        else some (record { name = uri_encode name; value = uri_encode value }))
  ]
]

unfoldable pub encoded_parts : List Bytes → Option (List CanonicalQueryParam)
encoded_parts [] = some []
encoded_parts (part ∷ parts) = elim (encoded_part part) [
  | none ↦ none
  | some param ↦ elim (encoded_parts parts) [
    | none ↦ none
    | some params ↦ some (cons_some param params)
  ]
]

-- `EncodedQueryParam` has the fields of the verifier's parameter, and its derived order is that of
-- the verifier's comparator. The writing loop is the verifier's too.
unfoldable pub test_canonical_query : Bytes → Option Bytes
test_canonical_query raw_query = elim (encoded_parts (split b'&' raw_query)) [
  | none ↦ none
  | some params ↦ some (write_params (sort_params params))
]

abbrev pub raw_part : RawQueryParam → Bytes
raw_part param = param.name ++ b'=' ∷ param.value

abbrev pub join_raw_query : List RawQueryParam → Bytes
join_raw_query params = join b'&' (map raw_part params)

-- `format!("{}/{}/{}/aws4_request", …)`.
abbrev pub credential_scope_of : PresignInput → Bytes
credential_scope_of input =
    join b'/' (input.sign_time.date ∷ input.region ∷ test_service ∷ codes "aws4_request" ∷ [])

abbrev pub credential_text : PresignInput → Bytes
credential_text input = input.access_key ++ b'/' ∷ credential_scope_of input

-- The parameters before the signature.
abbrev pub params_of : PresignInput → List RawQueryParam
params_of input =
    qp (codes "X-Amz-Algorithm") (codes "AWS4-HMAC-SHA256")
    ∷ qp (codes "X-Amz-Credential") (uri_encode (credential_text input))
    ∷ qp (codes "X-Amz-Date") input.sign_time.timestamp
    ∷ qp (codes "X-Amz-Expires") (to_string input.expires.secs)
    ∷ qp (codes "X-Amz-SignedHeaders") (codes "host")
    ∷ input.extra

module _ (crypto : Crypto) where
  open crypto use {digest, hmac_sign}

  unfoldable pub test_signature : Bytes → Bytes → Bytes → Bytes → Bytes → Bytes
  test_signature secret_key date region service string_to_sign =
      let k_date = hmac_sign (codes "AWS4" ++ secret_key) date in
      let k_region = hmac_sign k_date region in
      let k_service = hmac_sign k_region service in
      let k_signing = hmac_sign k_service (codes "aws4_request") in
      hmac_sign k_signing string_to_sign

  abbrev pub canonical_request_of : PresignInput → Bytes → Bytes
  canonical_request_of input canonical_query =
      input.method
      ++ (b'\n'
          ∷ (test_canonical_path input.path
              ++ (b'\n'
                  ∷ (canonical_query
                      ++ (codes "\nhost:"
                          ++ (map to_ascii_lowercase (trim input.host)
                              ++ codes "\n\nhost\nUNSIGNED-PAYLOAD"))))))

  abbrev pub string_to_sign_of : PresignInput → Bytes → Bytes
  string_to_sign_of input canonical_query =
      codes "AWS4-HMAC-SHA256\n"
      ++ (input.sign_time.timestamp
          ++ (b'\n'
              ∷ (credential_scope_of input
                  ++ (b'\n'
                      ∷ append_hex_lower (digest (canonical_request_of input canonical_query))))))

  unfoldable pub presigned_uri : PresignInput → Option Bytes
  presigned_uri input =
      let raw_query = join_raw_query (params_of input) in
      elim (test_canonical_query raw_query) [
        | none ↦ none
        | some canonical_query ↦
            let signature =
              test_signature input.secret_key input.sign_time.date input.region test_service
                (string_to_sign_of input canonical_query) in
            some (
              input.path
              ++ (b'?' ∷ (raw_query ++ (codes "&X-Amz-Signature=" ++ append_hex_lower signature))))
      ]
