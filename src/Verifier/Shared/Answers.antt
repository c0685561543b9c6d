-- ===== src/Verifier/Shared/Answers.antt =====
-- The answers of verifiers on several threads, against `Verifier::verify` on what was configured
-- when each call began.
use sigv4_verify.Base.{
  arith, ℕ, ◌+◌, ◌<◌, ◌==◌, ◌≡◌, refl, sym, ap, subst, ◌∙◌, ok, Bool-cases, inl, inr,
}
use sigv4_verify.Crypto.{Crypto}
use sigv4_verify.Verifier.Types.{State, VerifyResult}
use sigv4_verify.Verifier.Handler.{Checked, verify}
use sigv4_verify.Verifier.Allowed.{IsSound}
use sigv4_verify.Verifier.Configured.{compile_state-IsConfigured}
use sigv4_verify.Verifier.Stateless.{stateless, emptied_of}
use sigv4_verify.Verifier.Shared.{
  Arrival, check_arrival, fill, Pc, idle, looking, missed, keyed, answered, update, System, goes,
  Step, denied, checked, hit, miss, filled, finished, taken, cloned, reloaded, Reach, start, later,
}
use sigv4_verify.Verifier.Shared.Invariant.{
  key_of, look-derived, fill_lem, finish-verify, checked-emptied, denied-verify,
}

update-All :
    {A : Type 0} (P : A → Type 0) (f : ℕ → A) (i : ℕ) (a : A)
    → ((j : ℕ) → P (f j))
    → P a
    → (j : ℕ) → P (update f i a j)
update-All P f i a h ha j = elim (Bool-cases (i == j)) [
  | inl same ↦ rw same ha
  | inr other ↦ rw other (h j)
]

-- The states below `next` keep their configuration.
update-stateless :
    (heap : ℕ → State) (next o : ℕ) (state : State)
    → (o < next → stateless state ≡ stateless (heap o))
    → (j : ℕ) → j < next
    → stateless (update heap o state j) ≡ stateless (heap j)
update-stateless heap next o state h j below = elim (Bool-cases (o == j)) [
  | inl same ↦
      let here : o ≡ j = ground arith in
      rw same (h (rw here below) ∙ ap (λ n. stateless (heap n)) here)
  | inr other ↦ rw other refl
]

module _ (crypto : Crypto) where
  -- What a thread that passed the checks knows of the state it works on.
  abbrev IsOpen : (ℕ → State) → ℕ → Arrival → State → ℕ → Checked → Type 0
  IsOpen heap next a conf o c =
      (o < next)
      × (stateless (heap o) ≡ conf)
      × (check_arrival crypto conf a ≡ ok (emptied_of crypto c))

  -- The locals of a thread are fresh, whatever the others did meanwhile.
  abbrev IsFresh : (ℕ → State) → ℕ → Pc → Type 0
  IsFresh heap next idle = Unit
  IsFresh heap next (looking a conf o c) = IsOpen heap next a conf o c
  IsFresh heap next (missed a conf o c) = IsOpen heap next a conf o c
  IsFresh heap next (keyed a conf c key) =
      (check_arrival crypto conf a ≡ ok (emptied_of crypto c)) × (key ≡ key_of crypto c)
  IsFresh heap next (answered a conf result) =
      result ≡ (verify crypto conf a.raw_method a.raw_uri a.raw_host a.now).0

  record Inv (s : System) : Type 0 where
    sound : (o : ℕ) → IsSound crypto (s.heap o)
    handed : (v : ℕ) → s.verifiers v < s.next
    fresh : (i : ℕ) → IsFresh s.heap s.next (s.threads i)

  -- A change that keeps the configuration of every state below `next` keeps the locals fresh.
  IsFresh-mono :
      (heap heap' : ℕ → State) (next next' : ℕ) (pc : Pc)
      → ((n : ℕ) → n < next → n < next')
      → ((o : ℕ) → o < next → stateless (heap' o) ≡ stateless (heap o))
      → IsFresh heap next pc
      → IsFresh heap' next' pc
  IsFresh-mono heap heap' next next' idle le same h = tt
  IsFresh-mono heap heap' next next' (looking a conf o c) le same (below, alike, passed) =
      (le o below, same o below ∙ alike, passed)
  IsFresh-mono heap heap' next next' (missed a conf o c) le same (below, alike, passed) =
      (le o below, same o below ∙ alike, passed)
  IsFresh-mono heap heap' next next' (keyed a conf c key) le same h = h
  IsFresh-mono heap heap' next next' (answered a conf result) le same h = h

  -- A thread moves on, the heap being as it was.
  goes-Inv : (s : System) (i : ℕ) (pc : Pc) → Inv s → IsFresh s.heap s.next pc → Inv (goes s i pc)
  goes-Inv s i pc inv h = record {
    sound = inv.sound;
    handed = inv.handed;
    fresh = update-All (IsFresh s.heap s.next) s.threads i pc inv.fresh h;
  }

  Step-Inv : {s t : System} → Step crypto s t → Inv s → Inv t
  Step-Inv {s} (denied i v a result q h) inv =
      goes-Inv s i _ inv (denied-verify crypto (s.heap (s.verifiers v)) a result h)
  Step-Inv {s} (checked i v a c q h) inv =
      goes-Inv s i _ inv (inv.handed v, refl, checked-emptied crypto (s.heap (s.verifiers v)) a c h)
  Step-Inv {s} (hit i a conf o c key q h) inv =
      let (below, alike, passed) : IsOpen s.heap s.next a conf o c =
        subst (IsFresh s.heap s.next) q (inv.fresh i) in
      goes-Inv s i _ inv
        (passed, look-derived crypto (s.heap o) conf a c (inv.sound o) alike passed h)
  Step-Inv {s} (miss i a conf o c q h) inv =
      goes-Inv s i (missed a conf o c) inv (subst (IsFresh s.heap s.next) q (inv.fresh i))
  Step-Inv {s} (filled i a conf o c q) inv =
      let (below, alike, passed) : IsOpen s.heap s.next a conf o c =
        subst (IsFresh s.heap s.next) q (inv.fresh i) in
      let (key, sound, kept) = fill_lem crypto (s.heap o) conf a c (inv.sound o) alike passed in
      let (key', state') = fill crypto (s.heap o) c in
      let heap' = update s.heap o state' in
      record {
        sound = update-All (IsSound crypto) s.heap o state' inv.sound sound;
        handed = inv.handed;
        fresh =
            update-All (IsFresh heap' s.next) s.threads i (keyed a conf c key')
              (λ j.
                IsFresh-mono s.heap heap' s.next s.next (s.threads j) (λ n below. below)
                  (update-stateless s.heap s.next o state' (λ below. kept ∙ sym alike))
                  (inv.fresh j))
              (passed, key);
      }
  Step-Inv {s} (finished i a conf c key q) inv =
      let (passed, derived) : IsFresh s.heap s.next (keyed a conf c key) =
        subst (IsFresh s.heap s.next) q (inv.fresh i) in
      goes-Inv s i _ inv (rw derived (finish-verify crypto conf a c passed))
  Step-Inv {s} (taken i a conf result q) inv = goes-Inv s i idle inv tt
  Step-Inv {s} (cloned v w) inv = record {
    sound = inv.sound;
    handed = update-All (λ o. o < s.next) s.verifiers w (s.verifiers v) inv.handed (inv.handed v);
    fresh = inv.fresh;
  }
  Step-Inv {s} (reloaded v settings credentials state h) inv = record {
    sound =
        update-All (IsSound crypto) s.heap s.next state inv.sound
          (compile_state-IsConfigured crypto settings credentials h).1;
    handed =
        update-All (λ o. o < s.next + 1) s.verifiers v s.next (λ w. omega (arith, inv.handed w))
          (omega arith);
    fresh = λ i.
        IsFresh-mono s.heap (update s.heap s.next state) s.next (s.next + 1) (s.threads i)
          (λ n below. omega (arith, below))
          (update-stateless s.heap s.next s.next state (λ below. ground (arith, below)))
          (inv.fresh i);
  }

  Reach-Inv : {state : State} {s : System} → IsSound crypto state → Reach crypto state s → Inv s
  Reach-Inv sound start = record { sound = λ o. sound; handed = λ v. omega arith; fresh = λ i. tt }
  Reach-Inv sound (later r st) = Step-Inv st (Reach-Inv sound r)

  -- From a state whose caches are sound, after any interleaving of the steps of threads that call
  -- clones of a verifier, fill its signing-key caches and reload verifiers, a call that has
  -- answered has the result of verify on the configuration, with empty caches, of the state that
  -- its verifier held when the call began.
  pub Reach-answers :
      {state : State} {s : System} (i : ℕ) (a : Arrival) (conf : State) (result : VerifyResult)
      → IsSound crypto state
      → Reach crypto state s
      → s.threads i ≡ answered a conf result
      → result ≡ (verify crypto conf a.raw_method a.raw_uri a.raw_host a.now).0
  Reach-answers {s = s} i a conf result sound r q =
      subst (IsFresh s.heap s.next) q ((Reach-Inv sound r).fresh i)
