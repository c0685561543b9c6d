-- ===== src/Nginx/Variables.antt =====
-- The variables, and the registration of the module's variables and its handler.
use sigv4_verify.Base.{
  ℕ, ◌^◌, ◌%◌, Bool, true, false, Option, none, some, List, [], ◌∷◌, Bytes, codes, if◌then◌else◌,
  length,
}
use sigv4_verify.Text.Decimal.{to_string}
use sigv4_verify.Nginx.Access.{RequestCtx, Status, ngx_ok, ngx_error}

-- `ngx_variable_value_t`; `bytes` is what `data` points at.
pub record VariableValue : Type 0 where
  pub valid : Bool
  pub no_cacheable : Bool
  pub not_found : Bool
  pub len : ℕ
  pub bytes : Bytes

-- `bind_variable`.
unfoldable pub bind_variable : Bytes → VariableValue → VariableValue
bind_variable bytes v = record {
  valid = true;
  no_cacheable = false;
  not_found = false;
  len = length bytes % 2 ^ 32;
  bytes = bytes;
}

abbrev pub set_not_found : VariableValue → VariableValue
set_not_found v = record v { not_found = true }

-- A value that is bound if it is not empty.
abbrev pub bind_if_present : Bytes → VariableValue → VariableValue
bind_if_present [] v = set_not_found v
bind_if_present (b ∷ r) v = bind_variable (b ∷ r) v

unfoldable pub variable_result : Option RequestCtx → VariableValue → VariableValue × Status
unfolding bind_variable
variable_result none v = (set_not_found v, ngx_ok)
variable_result (some ctx) v = (bind_if_present ctx.result v, ngx_ok)

unfoldable pub variable_reason : Option RequestCtx → VariableValue → VariableValue × Status
unfolding bind_variable
variable_reason none v = (set_not_found v, ngx_ok)
variable_reason (some ctx) v = (bind_if_present ctx.reason v, ngx_ok)

unfoldable pub variable_access_key_hash : Option RequestCtx → VariableValue → VariableValue × Status
unfolding bind_variable
variable_access_key_hash none v = (set_not_found v, ngx_ok)
variable_access_key_hash (some ctx) v = (bind_if_present ctx.access_key_hash v, ngx_ok)

abbrev pub latency_field : Option RequestCtx → Option ℕ
latency_field none = none
latency_field (some ctx) = ctx.latency_us

-- `allocates` is whether the request pool has room for the text.
unfoldable pub variable_latency_us :
    Bool → Option RequestCtx → VariableValue → VariableValue × Status
unfolding bind_variable to_string
variable_latency_us allocates ctx v = elim (latency_field ctx) [
  | none ↦ (set_not_found v, ngx_ok)
  | some latency_us ↦
      if allocates then (bind_variable (to_string latency_us) v, ngx_ok) else (v, ngx_error)
]

-- The entries of `VARIABLES`.
pub data Variable : Type 0 where
  result reason access_key_hash latency_us : Variable

abbrev pub variable_name : Variable → Bytes
variable_name result = codes "sigv4_verify_result"
variable_name reason = codes "sigv4_verify_reason"
variable_name access_key_hash = codes "sigv4_verify_access_key_hash"
variable_name latency_us = codes "sigv4_verify_latency_us"

abbrev pub variables : List Variable
variables = result ∷ reason ∷ access_key_hash ∷ latency_us ∷ []

unfoldable pub get_variable :
    Variable → Bool → Option RequestCtx → VariableValue → VariableValue × Status
unfolding variable_result variable_reason variable_access_key_hash variable_latency_us
get_variable result allocates ctx v = variable_result ctx v
get_variable reason allocates ctx v = variable_reason ctx v
get_variable access_key_hash allocates ctx v = variable_access_key_hash ctx v
get_variable latency_us allocates ctx v = variable_latency_us allocates ctx v

-- The loop of `preconfiguration`: the status and the variables whose handlers are set.
-- `add` is whether `ngx_http_add_variable` returns a variable.
unfoldable pub add_variables : (Bytes → Bool) → List Variable → Status × List Variable
add_variables add [] = (ngx_ok, [])
add_variables add (v ∷ vs) =
    let (status, registered) = add_variables add vs in
    if add (variable_name v) then (status, v ∷ registered) else (ngx_error, [])

abbrev pub preconfiguration : (Bytes → Bool) → Status × List Variable
preconfiguration add = add_variables add variables

-- `postconfiguration`: the status, and whether the access handler is pushed. The arguments are
-- whether the core's main configuration is found and whether `ngx_array_push` returns a slot.
unfoldable pub postconfiguration : Bool → Bool → Status × Bool
postconfiguration found pushes =
    if found then (if pushes then (ngx_ok, true) else (ngx_error, false)) else (ngx_error, false)
