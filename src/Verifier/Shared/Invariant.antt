-- ===== src/Verifier/Shared/Invariant.antt =====
-- What holds between the steps of verifiers on several threads: what the states hold, and what a
-- thread's locals say about the state it works on.
use sigv4_verify.Base.{
  ap, subst, arith, ◌≡◌, refl, sym, ◌∙◌, some, Bytes, ok, err, Option-cases, inl, inr,
}
use sigv4_verify.Crypto.{Crypto}
use sigv4_verify.Signing.{derive_key, write_step}
use sigv4_verify.Signing.Threads.{IsValid, Reach-IsValid, start, read_step-derived, write_step_lem}
use sigv4_verify.Verifier.Types.{CompiledCredential, State, VerifyResult, lookup}
use sigv4_verify.Verifier.Handler.{Checked, verify}
use sigv4_verify.Verifier.Safety.{check_request-IsChecked}
use sigv4_verify.Verifier.Allowed.{IsSound, lookup-All, verify-passed, verify-denied}
use sigv4_verify.Verifier.Caches.{set_cache-All, set_cache-without_cache}
use sigv4_verify.Verifier.Stateless.{
  stateless, emptied, emptied_option, emptied_of, lookup-without_cache, check_request-stateless,
  check_signature_lem,
}
use sigv4_verify.Verifier.Shared.{Arrival, cache_of, check_arrival, look, fill, finish}

-- A credential of the emptied state is one of the state, with another cache.
found_in_stateless :
    (k : Bytes) (state : State) (cred : CompiledCredential)
    → lookup k (stateless state).credentials ≡ some (emptied cred)
    → (cred' : CompiledCredential) × (lookup k state.credentials ≡ some cred')
      × (cred'.secret_seed ≡ cred.secret_seed)
found_in_stateless k state cred h = elim (Option-cases (lookup k state.credentials)) [
  | inl missing ↦ ground (arith, lookup-without_cache k state.credentials)
  | inr (cred', found) ↦
      let at_cred' : emptied_option (lookup k state.credentials) ≡ some (emptied cred) =
        sym (lookup-without_cache k state.credentials) ∙ h in
      let same : some (emptied cred') ≡ some (emptied cred) = rw found at at_cred' in
      (cred', found, ground arith)
]

module _ (crypto : Crypto) where
  abbrev pub key_of : Checked → Bytes
  key_of c = derive_key crypto c.cred.secret_seed c.scope.date c.scope.region c.scope.service

  -- What passed the checks names a credential of every state that is configured alike.
  passed_in :
      (state : State) (conf : State) (a : Arrival) (c : Checked)
      → stateless state ≡ conf
      → check_arrival crypto conf a ≡ ok (emptied_of crypto c)
      → (cred' : CompiledCredential) × (lookup c.scope.access_key state.credentials ≡ some cred')
        × (cred'.secret_seed ≡ c.cred.secret_seed)
  passed_in state conf a c alike passed =
      let checked =
        check_request-IsChecked crypto conf a.raw_method a.raw_uri a.raw_host a.now
          (emptied_of crypto c) passed in
      let found : lookup c.scope.access_key (stateless state).credentials ≡ some (emptied c.cred) =
        ap (λ s. lookup c.scope.access_key s.credentials) alike ∙ checked.granted.lookup_lem in
      found_in_stateless c.scope.access_key state c.cred found

  cache_of-IsValid :
      (state : State) (conf : State) (a : Arrival) (c : Checked)
      → IsSound crypto state
      → stateless state ≡ conf
      → check_arrival crypto conf a ≡ ok (emptied_of crypto c)
      → IsValid crypto c.cred.secret_seed (cache_of state c.scope.access_key)
  unfolding cache_of
  cache_of-IsValid state conf a c sound alike passed =
      let (cred', found, seed) = passed_in state conf a c alike passed in
      subst (λ seed. IsValid crypto seed (cache_of state c.scope.access_key)) seed
        (rw (cache_of, found) (lookup-All crypto c.scope.access_key state.credentials sound found))

  -- The look-up finds the key derived from the secret, or nothing.
  pub look-derived :
      (state : State) (conf : State) (a : Arrival) (c : Checked) {key : Bytes}
      → IsSound crypto state
      → stateless state ≡ conf
      → check_arrival crypto conf a ≡ ok (emptied_of crypto c)
      → look crypto state c ≡ some key
      → key ≡ key_of c
  unfolding look
  look-derived state conf a c sound alike passed hit =
      read_step-derived crypto c.cred.secret_seed c.scope.date c.scope.region c.scope.service
        (cache_of state c.scope.access_key) (cache_of-IsValid state conf a c sound alike passed) hit

  -- The write-locked part returns the derived key, and leaves a sound state that is configured alike.
  pub fill_lem :
      (state : State) (conf : State) (a : Arrival) (c : Checked)
      → IsSound crypto state
      → stateless state ≡ conf
      → check_arrival crypto conf a ≡ ok (emptied_of crypto c)
      → ((fill crypto state c).0 ≡ key_of c)
        × IsSound crypto (fill crypto state c).1
        × (stateless (fill crypto state c).1 ≡ conf)
  unfolding fill
  fill_lem state conf a c sound alike passed =
      let (cred', found, seed) = passed_in state conf a c alike passed in
      let cache = cache_of state c.scope.access_key in
      let (key, valid) =
        write_step_lem crypto c.cred.secret_seed c.scope.date c.scope.region c.scope.service cache
          (cache_of-IsValid state conf a c sound alike passed) in
      let cache' =
        (write_step crypto c.cred.secret_seed c.scope.date c.scope.region c.scope.service
          cache).1 in
      (
        key,
        set_cache-All crypto c.scope.access_key cache' state.credentials cred' found (rw seed valid)
            sound,
        rw (set_cache-without_cache c.scope.access_key cache' state.credentials) alike,
      )

  -- What a request that passed gets, with the derived key.
  pub finish-verify :
      (conf : State) (a : Arrival) (c : Checked)
      → check_arrival crypto conf a ≡ ok (emptied_of crypto c)
      → finish crypto c (key_of c) ≡ (verify crypto conf a.raw_method a.raw_uri a.raw_host a.now).0
  unfolding finish
  finish-verify conf a c passed =
      rw
        (verify-passed crypto conf a.raw_method a.raw_uri a.raw_host a.now (emptied_of crypto c)
          passed)
        (sym (
          check_signature_lem crypto (emptied_of crypto c)
            (Reach-IsValid crypto c.cred.secret_seed start)))

  -- The checks give the same on the emptied state.
  pub checked-emptied :
      (state : State) (a : Arrival) (c : Checked)
      → check_arrival crypto state a ≡ ok c
      → check_arrival crypto (stateless state) a ≡ ok (emptied_of crypto c)
  checked-emptied state a c passed =
      rw passed at (check_request-stateless crypto state a.raw_method a.raw_uri a.raw_host a.now)

  pub denied-verify :
      (state : State) (a : Arrival) (result : VerifyResult)
      → check_arrival crypto state a ≡ err result
      → result ≡ (verify crypto (stateless state) a.raw_method a.raw_uri a.raw_host a.now).0
  denied-verify state a result denied =
      let same : check_arrival crypto (stateless state) a ≡ err result =
        rw denied at
          (check_request-stateless crypto state a.raw_method a.raw_uri a.raw_host a.now) in
      rw
        (verify-denied crypto (stateless state) a.raw_method a.raw_uri a.raw_host a.now result same)
        refl
