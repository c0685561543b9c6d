-- ===== src/Nginx/Serving.antt =====
-- What the access handler answers.
use sigv4_verify.Base.{
  ◌≡◌, ◌≢◌, ◌⊎◌, ◌↔◌, refl, sym, ◌∙◌, inl, inr, Bool, true, false, Option, none, some, arith,
  Bool-cases, Option-cases,
}
use sigv4_verify.Crypto.{Crypto}
use sigv4_verify.Verifier.{State, VerifyResult, Checked, verify}
use sigv4_verify.Verifier.Safety.{IsChecked}
use sigv4_verify.Verifier.Allowed.{IsSigned, IsSound, verify-allowed}
use sigv4_verify.Config.{Mode, verifies}
use sigv4_verify.Nginx.Conf.{MainConf, LocConf}
use sigv4_verify.Nginx.Access.{
  result_error, result_off, reason_not_configured, RequestCtx, ngx_ok, ngx_declined, ngx_error,
  internal_server_error, forbidden, Request, Served, alloc_ctx, default_ctx, verifier_of, status_of,
  method_of, host_of, judge, with_verifier, handle_request,
}

-- The status of a judged request.
status_of-cases :
    (allowed : Bool) (m : Mode)
    → verifies m ≡ true
    → (status_of allowed m ≢ ngx_declined)
      × (status_of allowed m ≢ ngx_error)
      × (status_of allowed m ≡ forbidden → m ≡ Mode.on)
status_of-cases allowed m h = ground arith

status_of-on : (allowed : Bool) → (status_of allowed Mode.on ≡ ngx_ok) ↔ (allowed ≡ true)
status_of-on allowed = ground arith

module _ (crypto : Crypto) (request : Request) where
  abbrev pub served : Served
  served = handle_request crypto request

  -- The mode that the handler goes by.
  abbrev pub mode_of : Option Mode
  mode_of = elim request.location_conf [ none ↦ none | some loc ↦ some loc.mode ]

  -- The ways through the handler.
  pub data Way : Type 0 where
    unconfigured :
        (mode_of ≡ none) ⊎ (request.allocates ≡ false)
        → served.status ≡ internal_server_error
        → served.ctx ≡ none
        → served.log ≡ none
        → Way
    passed_by :
        (m : Mode) (ctx : RequestCtx)
        → mode_of ≡ some m
        → verifies m ≡ false
        → served.status ≡ ngx_declined
        → served.ctx ≡ some ctx
        → served.log ≡ none
        → ctx.result ≡ result_off
        → Way
    no_verifier :
        (m : Mode) (ctx : RequestCtx)
        → mode_of ≡ some m
        → verifies m ≡ true
        → verifier_of request.main_conf ≡ none
        → served.status ≡ internal_server_error
        → served.ctx ≡ some ctx
        → served.log ≡ none
        → ctx.result ≡ result_error
        → Way
    judged :
        (m : Mode) (main : MainConf) (v : State)
        → request.allocates ≡ true
        → mode_of ≡ some m
        → verifies m ≡ true
        → request.main_conf ≡ some main
        → main.verifier ≡ some v
        → served ≡ judge crypto request m main v
        → Way

  way_of_verifier :
      (loc : LocConf)
      → request.location_conf ≡ some loc
      → request.allocates ≡ true
      → verifies loc.mode ≡ true
      → Way
  unfolding handle_request alloc_ctx with_verifier
  way_of_verifier loc here room on = elim (Option-cases request.main_conf) [
    | inl missing ↦
        no_verifier loc.mode
          (record default_ctx { result = result_error; reason = reason_not_configured })
          (rw here refl) on (rw missing refl) (rw (here, room, on, missing) refl)
          (rw (here, room, on, missing) refl) (rw (here, room, on, missing) refl) refl
    | inr (main, found) ↦ elim (Option-cases main.verifier) [
      | inl missing ↦
          no_verifier loc.mode
            (record default_ctx { result = result_error; reason = reason_not_configured })
            (rw here refl) on (rw found missing) (rw (here, room, on, found, missing) refl)
            (rw (here, room, on, found, missing) refl) (rw (here, room, on, found, missing) refl)
            refl
      | inr (v, stored) ↦
          judged loc.mode main v room (rw here refl) on found stored
            (rw (here, room, on, found, stored) refl)
    ]
  ]

  pub way : Way
  unfolding handle_request alloc_ctx
  way = elim (Option-cases request.location_conf) [
    | inl missing ↦
        unconfigured (inl (rw missing refl)) (rw missing refl) (rw missing refl) (rw missing refl)
    | inr (loc, here) ↦ elim (Bool-cases request.allocates) [
      | inr full ↦
          unconfigured (inr full) (rw (here, full) refl) (rw (here, full) refl)
            (rw (here, full) refl)
      | inl room ↦ elim (Bool-cases (verifies loc.mode)) [
        | inr off ↦
            passed_by loc.mode (record default_ctx { result = result_off }) (rw here refl) off
              (rw (here, room, off) refl) (rw (here, room, off) refl) (rw (here, room, off) refl)
              refl
        | inl on ↦ way_of_verifier loc here room on
      ]
    ]
  ]

  -- What the verifier says of the request.
  abbrev pub outcome : State → VerifyResult
  outcome v =
      (verify crypto v (method_of request) request.unparsed_uri (host_of request) request.now).0

  pub status_of-judge :
      (m : Mode) (main : MainConf) (v : State)
      → (judge crypto request m main v).status ≡ status_of (outcome v).allowed m
  unfolding judge
  status_of-judge m main v = refl

  abbrev pub IsMode : (Mode → Type 0) → Type 0
  IsMode P = (m : Mode) × (mode_of ≡ some m) × P m

  -- The handler answers NGX_OK only in a location whose mode verifies, NGX_DECLINED only in one
  -- whose mode does not, 403 only in one whose mode is on, and never NGX_ERROR.
  pub handle_request-IsMode :
      (served.status ≡ ngx_ok → IsMode (λ m. verifies m ≡ true))
      × (served.status ≡ ngx_declined → IsMode (λ m. verifies m ≡ false))
      × (served.status ≡ forbidden → IsMode (λ m. m ≡ Mode.on))
      × (served.status ≢ ngx_error)
  handle_request-IsMode = elim way [
    | unconfigured why s c l ↦ ground arith
    | passed_by m ctx e off s c l r ↦
        ((λ h. ground arith), (λ h. (m, e, off)), (λ h. ground arith), (λ h. ground arith))
    | no_verifier m ctx e on v s c l r ↦ ground arith
    | judged m main v room e on found stored s ↦
        let status : served.status ≡ status_of (outcome v).allowed m =
          rw s (status_of-judge m main v) in
        let (declines, fails, forbids) = status_of-cases (outcome v).allowed m on in
        (
          (λ h. (m, e, on)),
          (λ h. absurd (declines (sym status ∙ h))),
          (λ h. (m, e, forbids (sym status ∙ h))),
          (λ h. fails (sym status ∙ h)),
        )
  ]

  -- In a location whose mode is on, if any verifier that the request finds has sound caches, the
  -- handler answers NGX_OK exactly if its context is allocated, it finds a verifier, the parts of
  -- some reading of the request meet every condition of IsChecked, and the signature is that of
  -- the parts.
  pub handle_request-enforces :
      mode_of ≡ some Mode.on
      → ((v : State) → verifier_of request.main_conf ≡ some v → IsSound crypto v)
      → (served.status ≡ ngx_ok) ↔ (
          (request.allocates ≡ true)
          × (v : State) × (verifier_of request.main_conf ≡ some v)
          × (c : Checked) × IsChecked v
              (method_of request)
              request.unparsed_uri
              (host_of request)
              request.now
              c
          × IsSigned crypto c)
  handle_request-enforces on sound = elim way [
    | unconfigured why s c l ↦ ((λ h. ground arith), (λ h. ground arith))
    | passed_by m ctx e off s c l r ↦ ((λ h. ground arith), (λ h. ground arith))
    | no_verifier m ctx e v missing s c l r ↦ ((λ h. ground arith), (λ h. ground arith))
    | judged m main v room e verified found stored s ↦
        let same : m ≡ Mode.on = ground arith in
        let here : verifier_of request.main_conf ≡ some v = rw found stored in
        let status : served.status ≡ status_of (outcome v).allowed Mode.on =
          rw (← same, s) (status_of-judge m main v) in
        let (sees, gives) =
          verify-allowed crypto v (method_of request) request.unparsed_uri (host_of request)
            request.now (sound v here) in
        (
          (λ h.
              let (c, met, signed) = sees ((status_of-on (outcome v).allowed).0 (sym status ∙ h)) in
              (room, v, here, c, met, signed)),
          (λ (r, v', here', c, met, signed).
              let one : v' ≡ v = ground arith in
              status ∙ (status_of-on (outcome v).allowed).1 (gives (c, rw one at met, signed))),
        )
  ]
