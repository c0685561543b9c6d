-- ===== src/Presigner/Unsigned.antt =====
-- The verifier's checks of a presigned request, all but that of the signature.
use sigv4_verify.Base.{
  ◌≡◌, refl, sym, ◌∙◌, ap, arith, true, false, some, [], ◌∷◌, ◌++◌, map, Bytes, codes, bytes_eq, ok,
}
use sigv4_verify.Hex.{is_ascii_uppercase, to_ascii_lowercase}
use sigv4_verify.Text.{any, starts_with_byte}
use sigv4_verify.Text.Split.{Lacks}
use sigv4_verify.Text.Joined.{split_once-append}
use sigv4_verify.Text.Trim.{trim}
use sigv4_verify.Text.Decimal.{to_string}
use sigv4_verify.Text.Printing.{parse_u64-to_string}
use sigv4_verify.Uri.{is_forbidden, validate_raw_path, split_original_uri, path_and_query}
use sigv4_verify.Query.{
  SigV4Query, KnownName, known_name, sort_params, write_params, canonical_query, store,
  single_known_query_value,
}
use sigv4_verify.Query.Params.{pushed_all}
use sigv4_verify.Query.Signed.{with_signature, signature_part, canonical_query-signed}
use sigv4_verify.Scope.Laws.{parse_credential_scope-join}
use sigv4_verify.Date.{ParsedAmzDate}
use sigv4_verify.Verifier.{
  SystemTime, State, CompiledCredential, Checked, is_empty, ascii_lower_cow,
}
use sigv4_verify.Verifier.Safety.{IsChecked}
use sigv4_verify.Verifier.SignedUri.{signed_uri, any-append}
use sigv4_verify.Presigner.Defs.{
  PresignInput, params_of, credential_text, join_raw_query, test_canonical_query,
}
use sigv4_verify.Presigner.Canonical.{encoded_parts-agrees}
use sigv4_verify.Presigner.Query.{IsWritable, query-clean, decode_parts-query, first_params}
use sigv4_verify.Presigner.Grantable.{scope_of, lower_host, IsGrantable, IsGrantable-IsWritable}

lower_fixed : (s : Bytes) → any is_ascii_uppercase s ≡ false → map to_ascii_lowercase s ≡ s
unfolding any
lower_fixed [] h = refl
lower_fixed (c ∷ s) h = ground (arith, lower_fixed s)

ascii_lower_cow-map : (s : Bytes) → ascii_lower_cow s ≡ map to_ascii_lowercase s
unfolding ascii_lower_cow
ascii_lower_cow-map s = ground (arith, lower_fixed s)

-- The known values of the presigned query, with an empty signature.
abbrev pub values_of : PresignInput → SigV4Query
values_of input = record {
  algorithm = codes "AWS4-HMAC-SHA256";
  algorithm_count = 1;
  credential = credential_text input;
  credential_count = 1;
  date = input.sign_time.timestamp;
  date_count = 1;
  expires = to_string input.expires.secs;
  expires_count = 1;
  signed_headers = codes "host";
  signed_headers_count = 1;
  signature = [];
  signature_count = 1;
}

abbrev pub raw_query_of : PresignInput → Bytes
raw_query_of input = join_raw_query (params_of input)

starts_with-path :
    (path rest : Bytes)
    → validate_raw_path path ≡ ok tt
    → starts_with_byte b'/' (path ++ rest) ≡ true
unfolding validate_raw_path
starts_with-path [] rest h = ground arith
starts_with-path (c ∷ path) rest h = ground arith

module _ (input : PresignInput) (w : IsWritable input) where
  -- What both sides make of the query.
  pub query_lem :
      (out : Bytes) × (test_canonical_query (raw_query_of input) ≡ some out)
      × (canonical_query (with_signature (raw_query_of input) []) ≡ ok (out, values_of input))
  unfolding test_canonical_query known_name bytes_eq store
  query_lem =
      let (ds, hds, same) = decode_parts-query input w in
      let out = write_params (sort_params (pushed_all (first_params input w ++ ds))) in
      (
        out,
        rw (test_canonical_query, encoded_parts-agrees _ hds) refl,
        canonical_query-signed (raw_query_of input) [] _ tt hds
            ∙ ap (λ q. ok (out, store KnownName.signature [] q)) (same _),
      )

uri_lem :
    (path query : Bytes)
    → validate_raw_path path ≡ ok tt
    → any is_forbidden path ≡ false
    → Lacks b'?' path
    → any is_forbidden query ≡ false
    → split_original_uri (signed_uri path query []) ≡ ok (path, with_signature query [])
unfolding any split_original_uri
uri_lem path query valid clean whole query_clean =
    let rest = b'?' ∷ with_signature query [] in
    let all_clean : any is_forbidden (path ++ rest) ≡ false =
      rw
        (
          any-append is_forbidden path rest,
          any-append is_forbidden query (b'&' ∷ signature_part []),
          clean,
          query_clean,
        )
        refl in
    rw
      (
        split_original_uri,
        starts_with-path path rest valid,
        all_clean,
        path_and_query,
        split_once-append b'?' path (with_signature query []) whole,
        valid,
      )
      refl

-- What the verifier finds, the signature being empty yet.
abbrev pub checked_of : PresignInput → CompiledCredential → ParsedAmzDate → Bytes → Checked
checked_of input cred parsed out = record {
  method = input.method;
  host = lower_host input;
  uri = record { path = input.path; canonical_query_string = out; query = values_of input };
  scope = scope_of input;
  amz_date = input.sign_time.timestamp;
  parsed_date = parsed;
  expires_seconds = input.expires.secs;
  signature_hex = [];
  cred = cred;
}

abbrev pub unsigned_uri : PresignInput → Bytes
unsigned_uri input = signed_uri input.path (raw_query_of input) []

uri_present : (path rest : Bytes) → is_empty (path ++ b'?' ∷ rest) ≡ false
uri_present [] rest = refl
uri_present (c ∷ path) rest = refl

pub unsigned-IsChecked :
    (state : State) (input : PresignInput) (now : SystemTime) (cred : CompiledCredential)
    (parsed : ParsedAmzDate) (out : Bytes)
    → IsGrantable state input now cred parsed
    → canonical_query (with_signature (raw_query_of input) []) ≡ ok (out, values_of input)
    → IsChecked state input.method
        (unsigned_uri input)
        input.host
        now
        (checked_of input cred parsed out)
unfolding single_known_query_value
unsigned-IsChecked state input now cred parsed out g q =
    let w = IsGrantable-IsWritable g in
    record {
      metadata = record {
        method_lem = sym g.method_lem;
        host_lem = sym (ascii_lower_cow-map (trim input.host));
        method_present = g.method_present;
        uri_present = uri_present input.path (with_signature (raw_query_of input) []);
        host_present = g.host_present;
        supported = g.supported;
      };
      uri_parts = record {
        raw_query = with_signature (raw_query_of input) [];
        split_lem =
            uri_lem input.path (raw_query_of input) g.path_lem g.path_clean g.path_whole
              (query-clean input w);
        query_lem = q;
      };
      scoped = record {
        credential_value = credential_text input;
        algorithm_lem = refl;
        credential_lem = refl;
        scope_lem = parse_credential_scope-join (scope_of input) g.scope_lem;
        service_lem = sym g.service_lem;
        terminal_lem = refl;
        signed_headers_lem = refl;
      };
      dated = record { date_lem = refl; parsed_lem = g.parsed_lem; same_date_lem = g.date_lem };
      expiring = record {
        expires_value = to_string input.expires.secs;
        expires_lem = refl;
        seconds_lem = parse_u64-to_string input.expires.secs (omega (arith, g.bounded));
        positive = g.positive;
        bounded = g.bounded;
        signature_lem = refl;
      };
      granted = g.granted;
      timely = g.timely;
    }
