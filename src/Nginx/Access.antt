-- ===== src/Nginx/Access.antt =====
-- `handle_request` and the access-phase handler around it.
use sigv4_verify.Base.{
  ℕ, ◌-◌, ◌^◌, Bool, true, false, not, ◌&&◌, ◌||◌, Option, none, some, [], ◌∷◌, Bytes, codes, ltb,
  if◌then◌else◌,
}
use sigv4_verify.Crypto.{Crypto}
use sigv4_verify.Text.Utf8.{is_utf8}
use sigv4_verify.Text.Lossy.{from_utf8_lossy}
use sigv4_verify.Verifier.{SystemTime, State, VerifyResult, verify}
use sigv4_verify.Config.{Mode, verifies}
use sigv4_verify.Nginx.Conf.{MainConf, LocConf, logs_denies, logs_all}

abbrev pub result_allow : Bytes
result_allow = codes "allow"

abbrev pub result_deny : Bytes
result_deny = codes "deny"

abbrev pub result_error : Bytes
result_error = codes "error"

abbrev pub result_off : Bytes
result_off = codes "off"

abbrev pub result_shadow : Bytes
result_shadow = codes "shadow"

abbrev pub reason_panic : Bytes
reason_panic = codes "internal_error"

abbrev pub reason_not_configured : Bytes
reason_not_configured = codes "not_configured"

pub record RequestCtx : Type 0 where
  pub result : Bytes
  pub reason : Bytes
  pub access_key_hash : Bytes
  pub latency_us : Option ℕ

-- `RequestCtx::default()`.
abbrev pub default_ctx : RequestCtx
default_ctx = record { result = []; reason = []; access_key_hash = []; latency_us = none }

pub data Status : Type 0 where
  ngx_ok ngx_declined ngx_error : Status
  http_status : ℕ → Status

abbrev pub internal_server_error : Status
internal_server_error = http_status 500

abbrev pub forbidden : Status
forbidden = http_status 403

-- What the handler reads of a request and of NGINX. `allocates` is whether the request pool has
-- room for the context, `now` the system time and `elapsed_us` what the clock says of the call.
pub record Request : Type 0 where
  pub location_conf : Option LocConf
  pub main_conf : Option MainConf
  pub allocates : Bool
  pub method_name : Bytes
  pub unparsed_uri : Bytes
  pub host : Option Bytes
  pub now : SystemTime
  pub elapsed_us : ℕ

-- The line that `ngx_log_error!` writes.
pub record LogLine : Type 0 where
  pub result : Bytes
  pub reason : Bytes
  pub access_key_hash : Bytes
  pub method : Bytes
  pub host : Bytes
  pub path : Bytes

-- The status, the context that the variables read, the log line, and the verifier's state after.
pub record Served : Type 0 where
  pub status : Status
  pub ctx : Option RequestCtx
  pub log : Option LogLine
  pub verifier : Option State

-- `alloc_ctx`.
unfoldable pub alloc_ctx : Request → Option RequestCtx
alloc_ctx request = if request.allocates then some default_ctx else none

abbrev pub verifier_of : Option MainConf → Option State
verifier_of none = none
verifier_of (some main) = main.verifier

-- `headers_in.host`.
abbrev pub host_bytes : Option Bytes → Bytes
host_bytes none = []
host_bytes (some host) = host

-- `std::str::from_utf8(bytes).unwrap_or("")`.
abbrev pub text_or_empty : Bytes → Bytes
text_or_empty bytes = if is_utf8 bytes then bytes else []

abbrev pub u64_max : ℕ
u64_max = 2 ^ 64 - 1

abbrev pub latency_of : Request → ℕ
latency_of request = if ltb u64_max request.elapsed_us then u64_max else request.elapsed_us

-- `match (outcome.allowed, mode)`, for the variable and for the status.
abbrev pub result_of : Bool → Mode → Bytes
result_of allowed Mode.shadow = result_shadow
result_of true mode = result_allow
result_of false mode = result_deny

abbrev pub status_of : Bool → Mode → Status
status_of true mode = ngx_ok
status_of false Mode.shadow = ngx_ok
status_of false mode = forbidden

abbrev pub dash_if_empty : Bytes → Bytes
dash_if_empty [] = codes "-"
dash_if_empty (b ∷ r) = b ∷ r

abbrev pub method_of : Request → Bytes
method_of request = text_or_empty request.method_name

abbrev pub host_of : Request → Bytes
host_of request = text_or_empty (host_bytes request.host)

-- The context of a request that the verifier has judged.
unfoldable pub judged_ctx : Request → Mode → VerifyResult → RequestCtx
judged_ctx request mode outcome = record {
  result = result_of outcome.allowed mode;
  reason = outcome.reason;
  access_key_hash = outcome.access_key_hash;
  latency_us = some (latency_of request);
}

unfoldable pub log_line : Request → RequestCtx → VerifyResult → LogLine
log_line request ctx outcome = record {
  result = ctx.result;
  reason = ctx.reason;
  access_key_hash = dash_if_empty ctx.access_key_hash;
  method = method_of request;
  host = host_of request;
  path = from_utf8_lossy outcome.path;
}

unfoldable pub log_of : Request → MainConf → RequestCtx → VerifyResult → Option LogLine
unfolding log_line
log_of request main ctx outcome =
    if logs_all main || (not outcome.allowed && logs_denies main)
    then some (log_line request ctx outcome)
    else none

abbrev pub refused : Status → Option RequestCtx → Option State → Served
refused status ctx verifier = record { status = status; ctx = ctx; log = none; verifier = verifier }

module _ (crypto : Crypto) where
  -- From `Instant::now()` on.
  unfoldable pub judge : Request → Mode → MainConf → State → Served
  unfolding verify judged_ctx log_of
  judge request mode main verifier =
      let (outcome, verifier') =
        verify crypto verifier (method_of request) request.unparsed_uri (host_of request)
          request.now in
      let ctx = judged_ctx request mode outcome in
      record {
        status = status_of outcome.allowed mode;
        ctx = some ctx;
        log = log_of request main ctx outcome;
        verifier = some verifier';
      }

  abbrev pub not_configured : RequestCtx → Served
  not_configured ctx =
      refused internal_server_error
        (some (record ctx { result = result_error; reason = reason_not_configured })) none

  -- The two nested matches on the main configuration and its verifier.
  unfoldable pub with_verifier : Request → Mode → RequestCtx → Served
  unfolding judge
  with_verifier request mode ctx = elim request.main_conf [
    | none ↦ not_configured ctx
    | some main ↦ elim main.verifier [
      | none ↦ not_configured ctx
      | some verifier ↦ judge request mode main verifier
    ]
  ]

  unfoldable pub handle_request : Request → Served
  unfolding alloc_ctx with_verifier
  handle_request request = elim request.location_conf [
    | none ↦ refused internal_server_error none (verifier_of request.main_conf)
    | some loc ↦ elim (alloc_ctx request) [
      | none ↦ refused internal_server_error none (verifier_of request.main_conf)
      | some ctx ↦
          if not (verifies loc.mode)
          then refused ngx_declined (some (record ctx { result = result_off }))
              (verifier_of request.main_conf)
          else with_verifier request loc.mode ctx
    ]
  ]

  -- The `Err` arm of the handler: the body has panicked.
  unfoldable pub after_panic : Request → Served
  unfolding alloc_ctx
  after_panic request = elim (alloc_ctx request) [
    | none ↦ refused internal_server_error none (verifier_of request.main_conf)
    | some ctx ↦
        refused internal_server_error
          (some (record ctx { result = result_error; reason = reason_panic }))
          (verifier_of request.main_conf)
  ]

  -- `catch_unwind` of a body that returns a value, or `none` for a panic.
  unfoldable pub access_handler : (Request → Option Served) → Request → Served
  unfolding after_panic
  access_handler body request = elim (body request) [
    | some served ↦ served
    | none ↦ after_panic request
  ]
