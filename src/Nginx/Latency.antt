-- ===== src/Nginx/Latency.antt =====
-- The latency that the variable sigv4_verify_latency_us shows.
use sigv4_verify.Base.{
  ◌<◌, ◌^◌, ◌-◌, ◌≡◌, ◌⊎◌, ◌∙◌, ap, refl, inl, inr, true, false, none, some, arith, ltb,
  if◌then◌else◌, Bool-cases, Option-cases,
}
use sigv4_verify.Verifier.{State}
use sigv4_verify.Nginx.Conf.{MainConf, LocConf}
use sigv4_verify.Crypto.{Crypto}
use sigv4_verify.Text.Decimal.{parse_u64}
use sigv4_verify.Text.Printing.{parse_u64-to_string}
use sigv4_verify.Config.{verifies}
use sigv4_verify.Nginx.Access.{
  Request, latency_of, alloc_ctx, judged_ctx, judge, with_verifier, handle_request,
}
use sigv4_verify.Nginx.Variables.{
  VariableValue, latency_field, set_not_found, bind_variable, variable_latency_us,
}

-- The request gets as far as the verifier: its location is found and enables the module, the context
-- is allocated, and the main configuration holds a compiled verifier.
abbrev pub IsJudged : Request → Type 0
IsJudged request =
    (loc : LocConf) × (main : MainConf) × (verifier : State) × (request.location_conf ≡ some loc)
    × (request.allocates ≡ true)
    × (verifies loc.mode ≡ true)
    × (request.main_conf ≡ some main)
    × (main.verifier ≡ some verifier)

latency_of_capped :
    (request : Request)
    → latency_of request
      ≡ (if ltb request.elapsed_us (2 ^ 64) then request.elapsed_us else 2 ^ 64 - 1)
latency_of_capped request = ground arith

latency_of-bound : (request : Request) → latency_of request < 2 ^ 64
latency_of-bound request = ground arith

module _ (crypto : Crypto) (request : Request) where
  handle_request-latency_field :
      (IsJudged request
        × (latency_field (handle_request crypto request).ctx ≡ some (latency_of request)))
      ⊎ ((¬ IsJudged request) × (latency_field (handle_request crypto request).ctx ≡ none))
  unfolding handle_request alloc_ctx with_verifier judge judged_ctx
  handle_request-latency_field = elim (Option-cases request.location_conf) [
    | inl missing ↦ inr ((λ (l, m, v, el, ea, on, em, ev). cc), rw missing refl)
    | inr (loc, here) ↦ elim (Bool-cases request.allocates) [
      | inr full ↦ inr ((λ (l, m, v, el, ea, on, em, ev). cc), rw (here, full) refl)
      | inl room ↦ elim (Bool-cases (verifies loc.mode)) [
        | inr off ↦
            inr ((λ (l, m, v, el, ea, on', em, ev). ground arith), rw (here, room, off) refl)
        | inl on ↦ elim (Option-cases request.main_conf) [
          | inl missing ↦
              inr ((λ (l, m, v, el, ea, on', em, ev). cc), rw (here, room, on, missing) refl)
          | inr (main, found) ↦ elim (Option-cases main.verifier) [
            | inl missing ↦
                inr
                  ((λ (l, m, v, el, ea, on', em, ev). cc), rw (here, room, on, found, missing) refl)
            | inr (v, stored) ↦ inl (
              (loc, main, v, here, room, on, found, stored),
              rw (here, room, on, found, stored) refl,
            )
          ]
        ]
      ]
    ]
  ]

  -- After the handler, if the request pool has room for the text, one of two things holds. The
  -- request's location is found and verifies, the context is allocated and the main configuration
  -- holds a verifier, and then the variable sigv4_verify_latency_us is found and shows decimal
  -- digits that parse_u64 reads as the elapsed microseconds, or as 2^64 - 1 where these are 2^64
  -- or more. Or one of these conditions fails, and the variable is not found.
  pub variable_latency_us-handle_request :
      (v : VariableValue)
      → let shown = (variable_latency_us true (handle_request crypto request).ctx v).0 in
        (IsJudged request
          × (shown.not_found ≡ false)
          × (parse_u64 shown.bytes
              ≡ some (if ltb request.elapsed_us (2 ^ 64) then request.elapsed_us else 2 ^ 64 - 1)))
        ⊎ ((¬ IsJudged request) × (shown ≡ set_not_found v))
  unfolding variable_latency_us bind_variable
  variable_latency_us-handle_request v = elim handle_request-latency_field [
    | inr (unjudged, missing) ↦ inr (unjudged, rw (variable_latency_us, missing) refl)
    | inl (judged, stored) ↦ inl (
        rw (variable_latency_us, stored)
          (
            judged,
            refl,
            parse_u64-to_string (latency_of request) (latency_of-bound request)
                ∙ ap some (latency_of_capped request),
          ))
  ]
