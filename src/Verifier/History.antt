-- ===== src/Verifier/History.antt =====
-- Histories of `Verifier::verify` and `Verifier::reload`: a verifier with its caches against one
-- that keeps its configuration only.
use sigv4_verify.Base.{
  ◌≡◌, refl, sym, ap, ◌∙◌, List, [], ◌∷◌, map, Bytes, Result, Result-cases, inl, inr,
}
use sigv4_verify.Crypto.{Crypto}
use sigv4_verify.Verifier.Types.{
  SystemTime, Settings, Credential, ConfigError, State, VerifyResult, Credentials,
}
use sigv4_verify.Verifier.Compile.{compile_state, reload}
use sigv4_verify.Verifier.Handler.{verify}
use sigv4_verify.Verifier.Allowed.{IsSound}
use sigv4_verify.Verifier.Caches.{without_cache, verify-IsSound}
use sigv4_verify.Verifier.Configured.{compile_state-IsConfigured}
use sigv4_verify.Verifier.Stateless.{stateless, stateless-IsSound, verify-stateless}

pub data Call : Type 0 where
  request : (raw_method raw_uri raw_host : Bytes) (now : SystemTime) → Call
  reconfigure : (settings : Settings) (credentials : List Credential) → Call

pub data Answer : Type 0 where
  judged : VerifyResult → Answer
  reconfigured : Result ConfigError Unit → Answer

-- Two sound states of one configuration.
record Tracks (crypto : Crypto) (state conf : State) : Type 0 where
  cached : IsSound crypto state
  plain : IsSound crypto conf
  same : stateless state ≡ stateless conf

map-without_cache_idem :
    (es : Credentials) → map without_cache (map without_cache es) ≡ map without_cache es
map-without_cache_idem [] = refl
map-without_cache_idem (e ∷ es) =
    ap (λ r. (e.0, record e.1 { signing_cache = [] }) ∷ r) (map-without_cache_idem es)

module _ (crypto : Crypto) where
  -- A call's answer, and the state that the verifier keeps after it.
  unfoldable pub call : State → Call → Answer × State
  unfolding reload verify
  call state (request raw_method raw_uri raw_host now) =
      let (result, state') = verify crypto state raw_method raw_uri raw_host now in
      (judged result, state')
  call state (reconfigure settings credentials) =
      let (result, state') = reload crypto state settings credentials in
      (reconfigured result, state')

  -- The verifier with its caches.
  unfoldable pub run : State → List Call → List Answer
  unfolding call
  run state [] = []
  run state (c ∷ calls) = let (answer, state') = call state c in answer ∷ run state' calls

  -- The configuration alone: a request leaves no trace.
  unfoldable pub answers : State → List Call → List Answer
  unfolding call
  answers conf [] = []
  answers conf (request raw_method raw_uri raw_host now ∷ calls) =
      (call conf (request raw_method raw_uri raw_host now)).0 ∷ answers conf calls
  answers conf (reconfigure settings credentials ∷ calls) =
      let (answer, conf') = call conf (reconfigure settings credentials) in
      answer ∷ answers conf' calls

  stateless-eq :
      (a b : State)
      → a.settings ≡ b.settings
      → a.supported_methods ≡ b.supported_methods
      → map without_cache a.credentials ≡ map without_cache b.credentials
      → stateless a ≡ stateless b
  stateless-eq a b p q r = rw (p, q, r) refl

  Tracks-verify :
      {state conf : State} (raw_method raw_uri raw_host : Bytes) (now : SystemTime)
      → Tracks crypto state conf
      → Tracks crypto (verify crypto state raw_method raw_uri raw_host now).1 conf
  Tracks-verify {state} {conf} raw_method raw_uri raw_host now t =
      let (sound, p, q, r) = verify-IsSound crypto state raw_method raw_uri raw_host now t.cached in
      record {
        cached = sound;
        plain = t.plain;
        same =
            stateless-eq (verify crypto state raw_method raw_uri raw_host now).1 state p q r
            ∙ t.same;
      }

  Tracks-answer :
      {state conf : State} (raw_method raw_uri raw_host : Bytes) (now : SystemTime)
      → Tracks crypto state conf
      → (verify crypto state raw_method raw_uri raw_host now).0
        ≡ (verify crypto conf raw_method raw_uri raw_host now).0
  Tracks-answer {state} {conf} raw_method raw_uri raw_host now t =
      verify-stateless crypto state raw_method raw_uri raw_host now t.cached
      ∙ ap (λ s. (verify crypto s raw_method raw_uri raw_host now).0) t.same
      ∙ sym (verify-stateless crypto conf raw_method raw_uri raw_host now t.plain)

  Tracks-reload :
      {state conf : State} (settings : Settings) (credentials : List Credential)
      → Tracks crypto state conf
      → Tracks crypto
          (reload crypto state settings credentials).1
          (reload crypto conf settings credentials).1
        × ((reload crypto state settings credentials).0
            ≡ (reload crypto conf settings credentials).0)
  unfolding reload
  Tracks-reload {state} {conf} settings credentials t =
      elim (Result-cases (compile_state crypto settings credentials)) [
        | inr (e, bad) ↦ rw (reload, bad) (t, refl)
        | inl (state', good) ↦
            let (configured, sound) = compile_state-IsConfigured crypto settings credentials good in
            rw (reload, good) (record { cached = sound; plain = sound; same = refl }, refl)
      ]

  Tracks-run :
      (calls : List Call) {state conf : State}
      → Tracks crypto state conf
      → run state calls ≡ answers conf calls
  unfolding run answers call
  Tracks-run [] t = refl
  Tracks-run (request m u h now ∷ calls) {state} {conf} t =
      rw (Tracks-answer m u h now t, Tracks-run calls (Tracks-verify m u h now t)) refl
  Tracks-run (reconfigure settings credentials ∷ calls) {state} {conf} t =
      let (next, same) = Tracks-reload settings credentials t in
      rw (same, Tracks-run calls next) refl

  -- A verifier whose caches are sound answers every sequence of requests and reloads as the
  -- specification does that keeps a configuration with empty caches, which only a reload that
  -- succeeds changes.
  pub run-answers :
      (state : State) (calls : List Call)
      → IsSound crypto state
      → run state calls ≡ answers (stateless state) calls
  run-answers state calls sound = Tracks-run calls (record {
    cached = sound;
    plain = stateless-IsSound crypto state.credentials;
    same =
        stateless-eq state (stateless state) refl refl
          (sym (map-without_cache_idem state.credentials));
  })
