-- ===== src/Verifier/Checks.antt =====
-- What the parts of `verify` before the signature check require of a request.
use sigv4_verify.Base.{
  ◌≡◌, true, false, some, Bytes, codes, bytes_eq→eq, ok, arith, Option-cases, Result-cases, inl,
  inr,
}
use sigv4_verify.Crypto.{Crypto}
use sigv4_verify.Text.Trim.{trim}
use sigv4_verify.Uri.{split_original_uri}
use sigv4_verify.Query.{SigV4Query, canonical_query}
use sigv4_verify.Scope.{CredentialScope, parse_credential_scope}
use sigv4_verify.Signing.{algorithm_name, terminal_name}
use sigv4_verify.Verifier.Types.{State, contains}
use sigv4_verify.Verifier.Compile.{is_empty}
use sigv4_verify.Verifier.Defs.{
  ascii_upper_cow, ascii_lower_cow, RequestUri, read_metadata, read_uri,
}
use sigv4_verify.Verifier.Handler.{algorithm_of, credential_of, signed_headers_of, read_scope}

-- The metadata in normal form.
pub record IsMetadata (state : State) (raw_method raw_uri raw_host method host : Bytes)
    : Type 0 where
  pub method_lem : method ≡ ascii_upper_cow (trim raw_method)
  pub host_lem : host ≡ ascii_lower_cow (trim raw_host)
  pub method_present : is_empty method ≡ false
  pub uri_present : is_empty raw_uri ≡ false
  pub host_present : is_empty host ≡ false
  pub supported : contains method state.supported_methods ≡ true

pub read_metadata-IsMetadata :
    (state : State) (raw_method raw_uri raw_host : Bytes) {method host : Bytes}
    → read_metadata state raw_method raw_uri raw_host ≡ ok (method, host)
    → IsMetadata state raw_method raw_uri raw_host method host
unfolding read_metadata
read_metadata-IsMetadata state raw_method raw_uri raw_host h = ground arith

-- The URI's parts.
pub record IsUri (raw_uri : Bytes) (uri : RequestUri) : Type 0 where
  pub raw_query : Bytes
  pub split_lem : split_original_uri raw_uri ≡ ok (uri.path, raw_query)
  pub query_lem : canonical_query raw_query ≡ ok (uri.canonical_query_string, uri.query)

pub read_uri-IsUri :
    (raw_uri : Bytes) {uri : RequestUri} → read_uri raw_uri ≡ ok uri → IsUri raw_uri uri
unfolding read_uri
read_uri-IsUri raw_uri h = elim (Result-cases (split_original_uri raw_uri)) [
  | inr (e, bad) ↦ ground arith
  | inl (parts, split_ok) ↦ elim (Result-cases (canonical_query parts.1)) [
    | inr (e, bad) ↦ ground arith
    | inl (q, query_ok) ↦ record {
      raw_query = parts.1;
      split_lem = ground arith;
      query_lem = ground arith;
    }
  ]
]

-- The scope of a credential, and the fixed parameters.
pub record IsScoped (state : State) (query : SigV4Query) (scope : CredentialScope) : Type 0 where
  pub credential_value : Bytes
  pub algorithm_lem : algorithm_of query ≡ some algorithm_name
  pub credential_lem : credential_of query ≡ some credential_value
  pub scope_lem : parse_credential_scope credential_value ≡ ok scope
  pub service_lem : scope.service ≡ state.settings.supported_service
  pub terminal_lem : scope.terminal ≡ terminal_name
  pub signed_headers_lem : signed_headers_of query ≡ some (codes "host")

module _ (crypto : Crypto) where
  pub read_scope-IsScoped :
      (state : State) (uri : RequestUri) {scope : CredentialScope}
      → read_scope crypto state uri ≡ ok scope
      → IsScoped state uri.query scope
  unfolding read_scope
  read_scope-IsScoped state uri {scope} h = elim (Option-cases (algorithm_of uri.query)) [
    | inl missing ↦ ground arith
    | inr (alg, a) ↦ elim (Option-cases (credential_of uri.query)) [
      | inl missing ↦ ground arith
      | inr (v, b) ↦ elim (Result-cases (parse_credential_scope v)) [
        | inr (e, c) ↦ ground arith
        | inl (scope', c) ↦ elim (Option-cases (signed_headers_of uri.query)) [
          | inl missing ↦ ground arith
          | inr (sh, d) ↦
              let same : scope' ≡ scope = ground arith in
              record {
                credential_value = v;
                algorithm_lem = ground (arith, bytes_eq→eq alg algorithm_name);
                credential_lem = b;
                scope_lem = ground arith;
                service_lem =
                    ground (arith, bytes_eq→eq scope.service state.settings.supported_service);
                terminal_lem = ground (arith, bytes_eq→eq scope.terminal terminal_name);
                signed_headers_lem = ground (arith, bytes_eq→eq sh (codes "host"));
              }
        ]
      ]
    ]
  ]
