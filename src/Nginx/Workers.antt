-- ===== src/Nginx/Workers.antt =====
-- A worker process: it starts from a loaded configuration and handles requests one after the
-- other, each of which may fill the verifier's caches.
use sigv4_verify.Base.{
  ◌≡◌, ◌⊎◌, ◌↔◌, refl, sym, ◌∙◌, inl, inr, Bool, true, false, Option, some, List, ◌∷◌, All, Bytes,
  ok, arith, Bool-cases, Option-cases,
}
use sigv4_verify.Crypto.{Crypto}
use sigv4_verify.Verifier.{State, Checked, verify}
use sigv4_verify.Verifier.Safety.{IsChecked}
use sigv4_verify.Verifier.Allowed.{IsSound, IsSigned, verify-allowed}
use sigv4_verify.Verifier.Caches.{verify-IsSound}
use sigv4_verify.Config.{Mode, verifies}
use sigv4_verify.Nginx.Conf.{MainConf, LocConf}
use sigv4_verify.Nginx.Access.{
  Request, ngx_ok, forbidden, alloc_ctx, status_of, method_of, host_of, judge, with_verifier,
  handle_request,
}
use sigv4_verify.Nginx.Init.{init_main_conf}
use sigv4_verify.Nginx.Loading.{HttpConf, Parses, IsIn, effective, effective-HasVerifier}
use sigv4_verify.Nginx.Serving.{outcome, status_of-judge}

-- The statuses of a request that is judged in mode on.
status_of-allows :
    (allowed : Bool)
    → ((status_of allowed Mode.on ≡ ngx_ok) ⊎ (status_of allowed Mode.on ≡ forbidden))
      × ((status_of allowed Mode.on ≡ ngx_ok) ↔ (allowed ≡ true))
status_of-allows true = (inl refl, ground arith)
status_of-allows false = (inr refl, ground arith)

module _ (crypto : Crypto) where
  -- The main configurations that a worker's requests leave.
  pub data Worker (main : MainConf) : MainConf → Type 0 where
    loaded : Worker main main
    handled :
        {m : MainConf} (request : Request)
        → Worker main m
        → request.main_conf ≡ some m
        → Worker main (record m { verifier = (handle_request crypto request).verifier })

  -- A main configuration with a verifier whose caches are sound.
  abbrev pub IsVerifying : MainConf → Type 0
  IsVerifying main = (v : State) × (main.verifier ≡ some v) × IsSound crypto v

  handle_request-verifier :
      (request : Request) (m : MainConf) (v : State)
      → request.main_conf ≡ some m
      → m.verifier ≡ some v
      → let after = (handle_request crypto request).verifier in
        (after ≡ some v)
        ⊎ (after
            ≡ some
                (verify crypto v
                  (method_of request)
                  request.unparsed_uri
                  (host_of request)
                  request.now).1)
  unfolding handle_request alloc_ctx with_verifier judge
  handle_request-verifier request m v found stored = elim (Option-cases request.location_conf) [
    | inl missing ↦ inl (rw (missing, found) stored)
    | inr (loc, here) ↦ elim (Bool-cases request.allocates) [
      | inr full ↦ inl (rw (here, full, found) stored)
      | inl room ↦ elim (Bool-cases (verifies loc.mode)) [
        | inr off ↦ inl (rw (here, room, off, found) stored)
        | inl on ↦ inr (rw (here, room, on, found, stored) refl)
      ]
    ]
  ]

  Worker-IsVerifying :
      {main main' : MainConf} → Worker main main' → IsVerifying main → IsVerifying main'
  Worker-IsVerifying loaded h = h
  Worker-IsVerifying (handled {m} request r found) h =
      let (v, stored, sound) = Worker-IsVerifying r h in
      elim (handle_request-verifier request m v found stored) [
        | inl same ↦ (v, same, sound)
        | inr next ↦ (
          (verify crypto v (method_of request) request.unparsed_uri (host_of request)
              request.now).1,
          next,
          (verify-IsSound crypto v (method_of request) request.unparsed_uri (host_of request)
              request.now sound).0,
        )
      ]

  handle_request-judges :
      (request : Request) (loc : LocConf) (m : MainConf) (v : State)
      → request.location_conf ≡ some loc
      → request.allocates ≡ true
      → verifies loc.mode ≡ true
      → request.main_conf ≡ some m
      → m.verifier ≡ some v
      → handle_request crypto request ≡ judge crypto request loc.mode m v
  unfolding handle_request alloc_ctx with_verifier
  handle_request-judges request loc m v here room on found stored =
      rw (here, room, on, found, stored) refl

  module _ (read_file : Bytes → Option Bytes) where
    -- After any directives that NGINX accepts and an init_main_conf that succeeds, in a block
    -- whose merged mode is on, after any requests that the worker has handled, a request with an
    -- allocated context is either allowed or forbidden, and it is allowed exactly if the parts of
    -- some reading of it meet every condition of IsChecked and its signature is that of its parts.
    pub Worker-enforces :
        {c : HttpConf} (main main' : MainConf) (outer : LocConf) (inner : List LocConf)
        (request : Request)
        → Parses c
        → init_main_conf crypto read_file c.main ≡ ok main
        → All (IsIn c.locs) (outer ∷ inner)
        → (effective outer inner).mode ≡ Mode.on
        → Worker main main'
        → request.location_conf ≡ some (effective outer inner)
        → request.main_conf ≡ some main'
        → request.allocates ≡ true
        → let status = (handle_request crypto request).status in
          (v : State) × (main'.verifier ≡ some v)
          × ((status ≡ ngx_ok) ⊎ (status ≡ forbidden))
          × ((status ≡ ngx_ok) ↔ (
              (c : Checked) × IsChecked v
                (method_of request)
                request.unparsed_uri
                (host_of request)
                request.now
                c
              × IsSigned crypto c))
    Worker-enforces main main' outer inner request parses compiled known on worker here found room =
        let verifying : verifies (effective outer inner).mode ≡ true = rw on refl in
        let (v0, stored0, configured, sound0) =
          effective-HasVerifier crypto read_file main outer inner parses compiled known verifying in
        let (v, stored, sound) = Worker-IsVerifying worker (v0, stored0, sound0) in
        let status : (handle_request crypto request).status
            ≡ status_of (outcome crypto request v).allowed Mode.on =
          rw
            (handle_request-judges request (effective outer inner) main' v here room verifying found
              stored)
            (status_of-judge crypto request (effective outer inner).mode main' v ∙ rw on refl) in
        let (decides, allows) = status_of-allows (outcome crypto request v).allowed in
        let (sees, gives) =
          verify-allowed crypto v (method_of request) request.unparsed_uri (host_of request)
            request.now sound in
        (
          v,
          stored,
          rw status decides,
          ((λ h. sees (allows.0 (sym status ∙ h))), (λ h. status ∙ allows.1 (gives h))),
        )
