-- ===== src/Presigner/Grantable.antt =====
-- The requests that a verifier's configuration grants, as the presigner is asked for them.
use sigv4_verify.Base.{◌≤◌, ◌≡◌, true, false, some, ◌++◌, map, Bytes, codes, ok, All, IsByte}
use sigv4_verify.Hex.{to_ascii_lowercase}
use sigv4_verify.Text.{any}
use sigv4_verify.Text.Split.{Lacks}
use sigv4_verify.Text.Trim.{trim}
use sigv4_verify.Text.Utf8.{is_utf8}
use sigv4_verify.Uri.{is_forbidden, validate_raw_path}
use sigv4_verify.Scope.{CredentialScope}
use sigv4_verify.Scope.Laws.{IsScope}
use sigv4_verify.Date.{ParsedAmzDate, parse_amz_date}
use sigv4_verify.Verifier.{
  SystemTime, State, CompiledCredential, contains, is_empty, ascii_upper_cow,
}
use sigv4_verify.Verifier.Limits.{IsGranted, IsTimely}
use sigv4_verify.Presigner.Defs.{PresignInput, test_service, credential_scope_of, credential_text}
use sigv4_verify.Presigner.Parts.{IsExtra}
use sigv4_verify.Presigner.Query.{IsWritable, timestamp-IsPlain}

abbrev pub scope_of : PresignInput → CredentialScope
scope_of input = record {
  access_key = input.access_key;
  date = input.sign_time.date;
  region = input.region;
  service = test_service;
  terminal = codes "aws4_request";
  scope = credential_scope_of input;
}

abbrev pub lower_host : PresignInput → Bytes
lower_host input = map to_ascii_lowercase (trim input.host)

-- A request that the verifier's configuration grants, at a time within its window.
pub record IsGrantable (state : State) (input : PresignInput) (now : SystemTime)
    (cred : CompiledCredential) (parsed : ParsedAmzDate) : Type 0 where
  pub method_lem : ascii_upper_cow (trim input.method) ≡ input.method
  pub method_present : is_empty input.method ≡ false
  pub supported : contains input.method state.supported_methods ≡ true
  pub host_present : is_empty (lower_host input) ≡ false
  pub path_lem : validate_raw_path input.path ≡ ok tt
  pub path_clean : any is_forbidden input.path ≡ false
  pub path_whole : Lacks b'?' input.path
  pub scope_lem : IsScope (scope_of input)
  pub service_lem : state.settings.supported_service ≡ test_service
  pub credential_bytes : All IsByte (credential_text input)
  pub credential_utf8 : is_utf8 (credential_text input) ≡ true
  pub parsed_lem : parse_amz_date input.sign_time.timestamp ≡ some parsed
  pub date_lem : parsed.date ≡ input.sign_time.date
  pub positive : 1 ≤ input.expires.secs
  pub bounded : input.expires.secs ≤ 604_800
  pub granted :
      IsGranted state input.method
        (lower_host input)
        input.path
        input.access_key
        input.expires.secs
        cred
  pub seed_lem : cred.secret_seed ≡ codes "AWS4" ++ input.secret_key
  pub timely : IsTimely state now parsed input.expires.secs
  pub extra_lem : All IsExtra input.extra

pub IsGrantable-IsWritable :
    {state : State} {input : PresignInput} {now : SystemTime} {cred : CompiledCredential}
    {parsed : ParsedAmzDate}
    → IsGrantable state input now cred parsed
    → IsWritable input
IsGrantable-IsWritable {input = input} {parsed = parsed} g = record {
  credential_bytes = g.credential_bytes;
  credential_utf8 = g.credential_utf8;
  stamp_plain = timestamp-IsPlain input.sign_time.timestamp parsed g.parsed_lem;
  extra_lem = g.extra_lem;
}
