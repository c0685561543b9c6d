-- ===== src/Nginx/Observed.antt =====
-- What the variables and the log show of an answer.
use sigv4_verify.Base.{
  ◌≡◌, ◌≢◌, ◌⊎◌, ◌↔◌, refl, sym, ◌∙◌, inl, inr, Bool, true, false, false≢true, not, ◌||◌, ◌&&◌,
  Option, none, some, Bytes, arith, Bool-cases,
}
use sigv4_verify.Crypto.{Crypto}
use sigv4_verify.Text.Lossy.{from_utf8_lossy}
use sigv4_verify.Verifier.Paths.{IsPathOf, verify-IsPathOf}
use sigv4_verify.Verifier.{State}
use sigv4_verify.Config.{Mode, verifies}
use sigv4_verify.Nginx.Conf.{MainConf, logs_all, logs_denies}
use sigv4_verify.Nginx.Access.{
  result_deny, result_error, result_off, RequestCtx, Status, ngx_declined, internal_server_error,
  forbidden, Request, LogLine, status_of, result_of, method_of, host_of, judged_ctx, log_line,
  log_of, judge, handle_request,
}
use sigv4_verify.Nginx.Variables.{VariableValue, variable_result, bind_variable}
use sigv4_verify.Nginx.Serving.{unconfigured, passed_by, no_verifier, judged, way, outcome}

-- The variable has the value.
abbrev pub Shows : VariableValue → Bytes → Type 0
Shows v bytes = (v.not_found ≡ false) × (v.bytes ≡ bytes)

-- The variable `sigv4_verify_result` tells the status.
abbrev pub Agrees : Status → Option RequestCtx → VariableValue → Type 0
Agrees status ctx v =
    let shown = (variable_result ctx v).0 in
    ((status ≡ forbidden) ↔ Shows shown result_deny)
    × ((status ≡ ngx_declined) ↔ Shows shown result_off)
    × ((status ≡ internal_server_error) ↔ (Shows shown result_error ⊎ (shown.not_found ≡ true)))

Agrees-none : (v : VariableValue) → Agrees internal_server_error none v
unfolding variable_result
Agrees-none v = ground arith

Agrees-off :
    (ctx : RequestCtx) (v : VariableValue)
    → ctx.result ≡ result_off
    → Agrees ngx_declined (some ctx) v
unfolding variable_result bind_variable
Agrees-off ctx v h = rw h (ground arith)

Agrees-error :
    (ctx : RequestCtx) (v : VariableValue)
    → ctx.result ≡ result_error
    → Agrees internal_server_error (some ctx) v
unfolding variable_result bind_variable
Agrees-error ctx v h = rw h (ground arith)

Agrees-judged :
    (allowed : Bool) (m : Mode) (ctx : RequestCtx) (v : VariableValue)
    → verifies m ≡ true
    → ctx.result ≡ result_of allowed m
    → Agrees (status_of allowed m) (some ctx) v
unfolding variable_result bind_variable
Agrees-judged true Mode.on ctx v on h = rw h (ground arith)
Agrees-judged true Mode.shadow ctx v on h = rw h (ground arith)
Agrees-judged false Mode.on ctx v on h = rw h (ground arith)
Agrees-judged false Mode.shadow ctx v on h = rw h (ground arith)
Agrees-judged allowed Mode.off ctx v on h = absurd (false≢true on)
Agrees-judged allowed Mode.unset ctx v on h = absurd (false≢true on)

log_condition :
    (a b allowed : Bool)
    → (a || (not allowed && b)) ≡ true
    → (a ≡ true) ⊎ ((b ≡ true) × (allowed ≡ false))
log_condition a b allowed h = ground arith

none-ne-some : {line : LogLine} → none ≢ some line
none-ne-some h = ground arith

module _ (crypto : Crypto) (request : Request) where
  judge-Agrees :
      (m : Mode) (main : MainConf) (st : State) (v : VariableValue)
      → verifies m ≡ true
      → let answer = judge crypto request m main st in Agrees answer.status answer.ctx v
  unfolding judge judged_ctx
  judge-Agrees m main st v on = Agrees-judged (outcome crypto request st).allowed m _ v on refl

  -- After the handler, the variable sigv4_verify_result is deny exactly for the status 403, off
  -- exactly for NGX_DECLINED, and error or not found exactly for the status 500.
  pub handle_request-Agrees :
      (v : VariableValue)
      → let answer = handle_request crypto request in Agrees answer.status answer.ctx v
  handle_request-Agrees v = elim (way crypto request) [
    | unconfigured why s c l ↦ rw (s, c) (Agrees-none v)
    | passed_by m ctx e off s c l r ↦ rw (s, c) (Agrees-off ctx v r)
    | no_verifier m ctx e on missing s c l r ↦ rw (s, c) (Agrees-error ctx v r)
    | judged m main st room e on found stored s ↦ rw s (judge-Agrees m main st v on)
  ]

  judge-log :
      (m : Mode) (main : MainConf) (st : State) {line : LogLine}
      → (judge crypto request m main st).log ≡ some line
      → (line.path ≡ from_utf8_lossy (outcome crypto request st).path)
        × ((logs_all main ≡ true)
            ⊎ ((logs_denies main ≡ true) × ((outcome crypto request st).allowed ≡ false)))
  unfolding judge log_of log_line
  judge-log m main st {line} h =
      elim (Bool-cases
        (logs_all main || (not (outcome crypto request st).allowed && logs_denies main))) [
          | inr silent ↦ let absurd : none ≡ some line = rw silent at h in ground arith
          | inl loud ↦
              let written : some (
                    log_line request (judged_ctx request m (outcome crypto request st))
                      (outcome crypto request st))
                  ≡ some line =
                rw loud at h in
              let same : log_line request (judged_ctx request m (outcome crypto request st))
                    (outcome crypto request st)
                  ≡ line =
                cc in
              (
                rw (← same) refl,
                log_condition (logs_all main) (logs_denies main) (outcome crypto request st).allowed
                    loud,
              )
        ]

  -- If the handler writes a log line, the logged path is the lossy text of the empty string or of
  -- the path part of the request URI, the main configuration is found, and it logs all requests or
  -- denied ones.
  pub handle_request-log :
      {line : LogLine}
      → (handle_request crypto request).log ≡ some line
      → (p : Bytes) × (line.path ≡ from_utf8_lossy p)
        × IsPathOf request.unparsed_uri p
        × (main : MainConf) × (request.main_conf ≡ some main)
        × ((logs_all main ≡ true) ⊎ (logs_denies main ≡ true))
  handle_request-log {line} h = elim (way crypto request) [
    | unconfigured why s c l ↦ absurd (none-ne-some (sym l ∙ h))
    | passed_by m ctx e off s c l r ↦ absurd (none-ne-some (sym l ∙ h))
    | no_verifier m ctx e on missing s c l r ↦ absurd (none-ne-some (sym l ∙ h))
    | judged m main st room e on found stored s ↦
        let written : (judge crypto request m main st).log ≡ some line = rw s at h in
        let (shown, why) = judge-log m main st written in
        (
          (outcome crypto request st).path,
          shown,
          verify-IsPathOf crypto st (method_of request) request.unparsed_uri (host_of request)
              request.now,
          main,
          found,
          elim why [ inl all ↦ inl all | inr some_ ↦ inr some_.0 ],
        )
  ]
