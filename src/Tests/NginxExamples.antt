-- ===== src/Tests/NginxExamples.antt =====
-- The theorems of the NGINX module at a concrete configuration and request.
use sigv4_verify.Base.{
  ltb, if◌then◌else◌, ◌-◌, ◌^◌, ◌≡◌, ◌≢◌, ◌⊎◌, ◌↔◌, refl, arith, Bytes, true, false, [], ◌∷◌, some,
}
use sigv4_verify.Text.Lossy.{from_utf8_lossy}
use sigv4_verify.Text.Decimal.{parse_u64}
use sigv4_verify.Tests.SigningTests.{toy}
use sigv4_verify.Tests.VerifierTests.{signed_uri, now}
use sigv4_verify.Tests.ConfigTests.{no_files}
use sigv4_verify.Verifier.{State, Checked}
use sigv4_verify.Verifier.Safety.{IsChecked}
use sigv4_verify.Verifier.Allowed.{IsSigned, IsSound}
use sigv4_verify.Verifier.Paths.{IsPathOf}
use sigv4_verify.Config.{Mode, verifies}
use sigv4_verify.Nginx.{
  MainConf, default_loc, Request, ngx_ok, ngx_declined, ngx_error, forbidden, handle_request,
  variable_latency_us, set_not_found, verifier_of, method_of, host_of, logs_all, logs_denies,
}
use sigv4_verify.Nginx.{Command, is_duplicate, default_main}
use sigv4_verify.Nginx.Arity.{IsReported, call_command-IsReported}
use sigv4_verify.Nginx.Loading.{HasVerifier, effective-HasVerifier}
use sigv4_verify.Nginx.Serving.{IsMode, handle_request-IsMode, handle_request-enforces}
use sigv4_verify.Nginx.Observed.{Agrees, handle_request-Agrees, handle_request-log}
use sigv4_verify.Nginx.Latency.{IsJudged, variable_latency_us-handle_request}
use sigv4_verify.Nginx.Workers.{loaded, handled, Worker-enforces}
use sigv4_verify.Tests.NginxTests.{
  mode_args, mode_twice, location, parsed, state, main, request, anonymous, unset_value, refusal,
  initialised, known, sound, logs_refusal, parsed-Parses, is_on, is_verifying, here,
}

effective-HasVerifier_example : HasVerifier toy no_files main
effective-HasVerifier_example =
    effective-HasVerifier toy no_files {c = parsed} main default_loc (location ∷ []) parsed-Parses
      initialised known is_verifying

handle_request-IsMode_example :
    let answer = handle_request toy anonymous in
    (answer.status ≡ ngx_ok → IsMode toy anonymous (λ m. verifies m ≡ true))
    × (answer.status ≡ ngx_declined → IsMode toy anonymous (λ m. verifies m ≡ false))
    × (answer.status ≡ forbidden → IsMode toy anonymous (λ m. m ≡ Mode.on))
    × (answer.status ≢ ngx_error)
handle_request-IsMode_example = handle_request-IsMode toy anonymous

-- The only verifier that the request finds is sound.
only_state : (v : State) → verifier_of (some main) ≡ some v → IsSound toy v
only_state v h = let same : v ≡ state = ground arith in rw same sound

handle_request-enforces_example : ((handle_request toy request).status ≡ ngx_ok) ↔ (
    (true ≡ true)
    × (v : State) × (some state ≡ some v)
    × (c : Checked) × IsChecked v (method_of request) signed_uri (host_of request) now c
    × IsSigned toy c)
handle_request-enforces_example = handle_request-enforces toy request refl only_state

handle_request-Agrees_example :
    let answer = handle_request toy anonymous in Agrees answer.status answer.ctx unset_value
handle_request-Agrees_example = handle_request-Agrees toy anonymous unset_value

handle_request-log_example :
    (p : Bytes) × ([] ≡ from_utf8_lossy p)
    × IsPathOf signed_uri p
    × (m : MainConf) × (some main ≡ some m)
    × ((logs_all m ≡ true) ⊎ (logs_denies m ≡ true))
handle_request-log_example = handle_request-log toy anonymous {line = refusal} logs_refusal

-- The main configuration after the worker's first request.
abbrev main_after : MainConf
main_after = record main { verifier = (handle_request toy request).verifier }

abbrev second : Request
second = record anonymous { main_conf = some main_after }

Worker-enforces_example :
    let status = (handle_request toy second).status in
    (v : State) × (main_after.verifier ≡ some v)
    × ((status ≡ ngx_ok) ⊎ (status ≡ forbidden))
    × ((status ≡ ngx_ok) ↔ (
        (c : Checked) × IsChecked v (method_of second) signed_uri (host_of second) now c
        × IsSigned toy c))
Worker-enforces_example =
    Worker-enforces toy no_files {c = parsed} main main_after default_loc (location ∷ []) second
      parsed-Parses initialised known is_on (handled request loaded refl) here refl refl

variable_latency_us-handle_request_example :
    let shown = (variable_latency_us true (handle_request toy request).ctx unset_value).0 in
    (IsJudged request
      × (shown.not_found ≡ false)
      × (parse_u64 shown.bytes
          ≡ some (if ltb request.elapsed_us (2 ^ 64) then request.elapsed_us else 2 ^ 64 - 1)))
    ⊎ ((¬ IsJudged request) × (shown ≡ set_not_found unset_value))
variable_latency_us-handle_request_example =
    variable_latency_us-handle_request toy request unset_value

call_command-IsReported_example : IsReported is_duplicate
call_command-IsReported_example =
    call_command-IsReported Command.mode mode_args location default_main refl mode_twice
