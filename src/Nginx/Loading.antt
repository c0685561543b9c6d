-- ===== src/Nginx/Loading.antt =====
-- Loading a configuration: directives in any order and any block, then `init_main_conf`, then the
-- merges. NGINX creates a location configuration for each block, calls the handlers while it
-- parses, stops at the first error, calls `init_main_conf` after the `http` block and merges each
-- block's configuration with that of the block around it.
use sigv4_verify.Base.{
  ◌≡◌, ◌⊎◌, refl, inl, inr, true, Option, some, List, [], ◌∷◌, ◌++◌, All, All-append, Bytes, ok,
  err, arith, Result-cases, Bool-cases,
}
use sigv4_verify.Crypto.{Crypto}
use sigv4_verify.Verifier.{State, compile_state}
use sigv4_verify.Verifier.Allowed.{IsSound}
use sigv4_verify.Verifier.Configured.{IsConfigured, compile_state-IsConfigured}
use sigv4_verify.Config.{merge, verifies}
use sigv4_verify.Nginx.Conf.{
  MainConf, default_main, LocConf, default_loc, merge_loc, Body, is_duplicate, panicked, conf_error,
  default_expires_out_of_range, no_credential, verifier_error, guard_conf,
}
use sigv4_verify.Nginx.Directives.{Command, call_command}
use sigv4_verify.Nginx.Init.{
  settings_of, resolve_all, compile_main, init_main_conf, expires_out_of_range,
}
use sigv4_verify.Nginx.Enabling.{Gives-ok, KeepsEnabled, call_command-KeepsEnabled}

-- The configurations while the `http` block is parsed.
pub record HttpConf : Type 0 where
  pub main : MainConf
  pub locs : List LocConf

-- A new block, or a directive in one of the blocks.
pub data Step : HttpConf → HttpConf → Type 0 where
  block : (c : HttpConf) → Step c (record c { locs = default_loc ∷ c.locs })
  call :
      (command : Command) (cf_args : List Bytes) (main main' : MainConf) (loc loc' : LocConf)
      (before after : List LocConf)
      → call_command command cf_args loc main ≡ ok (loc', some main')
      → Step
          (record { main = main; locs = before ++ loc ∷ after })
          (record { main = main'; locs = before ++ loc' ∷ after })

pub data Parses : HttpConf → Type 0 where
  start : Parses (record { main = default_main; locs = default_loc ∷ [] })
  next : {c c' : HttpConf} → Parses c → Step c c' → Parses c'

abbrev Implies : MainConf → LocConf → Type 0
Implies main loc = verifies loc.mode ≡ true → main.enabled_anywhere ≡ true

abbrev IsEnabled : HttpConf → Type 0
IsEnabled c = All (Implies c.main) c.locs

All-split :
    (P : LocConf → Type 0) (before after : List LocConf) (loc : LocConf)
    → All P (before ++ loc ∷ after)
    → All P before × P loc × All P after
All-split P [] after loc h = (tt, h.0, h.1)
All-split P (b ∷ before) after loc h =
    let (hb, hl, ha) = All-split P before after loc h.1 in ((h.0, hb), hl, ha)

All-Implies :
    (main main' : MainConf) (locs : List LocConf)
    → (main.enabled_anywhere ≡ true → main'.enabled_anywhere ≡ true)
    → All (Implies main) locs
    → All (Implies main') locs
All-Implies main main' [] k h = tt
All-Implies main main' (l ∷ locs) k h = ((λ v. k (h.0 v)), All-Implies main main' locs k h.1)

Step-IsEnabled : {c c' : HttpConf} → Step c c' → IsEnabled c → IsEnabled c'
Step-IsEnabled (block c) h = ((λ v. ground arith), h)
Step-IsEnabled (call command cf_args main main' loc loc' before after e) h =
    let (keeps, turns) =
      Gives-ok (KeepsEnabled loc main) (call_command command cf_args loc main)
        (call_command-KeepsEnabled command cf_args loc main) e in
    let (hb, hl, ha) = All-split (Implies main) before after loc h in
    All-append (Implies main') before (loc' ∷ after) (All-Implies main main' before keeps hb) (
      (λ v. elim (turns v) [ inl on ↦ on | inr same ↦ keeps (hl (rw same at v)) ]),
      All-Implies main main' after keeps ha,
    )

Parses-IsEnabled : {c : HttpConf} → Parses c → IsEnabled c
Parses-IsEnabled start = ((λ v. ground arith), tt)
Parses-IsEnabled (next r s) = Step-IsEnabled s (Parses-IsEnabled r)

-- The configuration of a block: its own, merged with that of the blocks around it, from the
-- outermost on.
abbrev pub effective : LocConf → List LocConf → LocConf
effective outer [] = outer
effective outer (loc ∷ inner) = effective (merge_loc loc outer) inner

abbrev pub IsIn : List LocConf → LocConf → Type 0
IsIn locs loc = (before : List LocConf) × (after : List LocConf) × (locs ≡ before ++ loc ∷ after)

merge_loc-Implies :
    (main : MainConf) (loc outer : LocConf)
    → Implies main loc
    → Implies main outer
    → Implies main (merge_loc loc outer)
unfolding merge_loc merge
merge_loc-Implies main loc outer h k v = ground arith

effective-Implies :
    (main : MainConf) (outer : LocConf) (inner : List LocConf)
    → Implies main outer
    → All (Implies main) inner
    → Implies main (effective outer inner)
effective-Implies main outer [] h k = h
effective-Implies main outer (loc ∷ inner) h k =
    effective-Implies main (merge_loc loc outer) inner (merge_loc-Implies main loc outer k.0 h) k.1

IsIn-Implies : (c : HttpConf) (loc : LocConf) → IsEnabled c → IsIn c.locs loc → Implies c.main loc
IsIn-Implies c loc h (before, after, e) =
    (All-split (Implies c.main) before after loc (rw e at h)).1

IsIn-All :
    (c : HttpConf) (locs : List LocConf)
    → IsEnabled c
    → All (IsIn c.locs) locs
    → All (Implies c.main) locs
IsIn-All c [] h k = tt
IsIn-All c (l ∷ locs) h k = (IsIn-Implies c l h k.0, IsIn-All c locs h k.1)

guard_conf-eq-ok : {A : Type 0} (m : Body A) {a : A} → guard_conf m ≡ ok a → m ≡ ok a
unfolding guard_conf
guard_conf-eq-ok (ok b) h = h
guard_conf-eq-ok (err is_duplicate) h = ground arith
guard_conf-eq-ok (err (conf_error m)) h = ground arith
guard_conf-eq-ok (err panicked) h = ground arith

nil_or_cons : {A : Type 0} (xs : List A) → (xs ≡ []) ⊎ ((x : A) × (r : List A) × (xs ≡ x ∷ r))
nil_or_cons [] = inl refl
nil_or_cons (x ∷ r) = inr (x, r, refl)

module _ (crypto : Crypto) (read_file : Bytes → Option Bytes) where
  -- A verifier that an accepted configuration gives.
  abbrev pub HasVerifier : MainConf → Type 0
  HasVerifier main = (v : State) × (main.verifier ≡ some v) × IsConfigured v × IsSound crypto v

  compile_main-HasVerifier :
      (main : MainConf) {main' : MainConf}
      → compile_main crypto read_file main ≡ ok main'
      → HasVerifier main'
  unfolding compile_main
  compile_main-HasVerifier main {main'} h =
      elim (Bool-cases (expires_out_of_range main.default_max_expires)) [
        | inl bad ↦
            let absurd : err (conf_error default_expires_out_of_range) ≡ ok main' = rw bad at h in
            ground arith
        | inr fine ↦ elim (Result-cases (resolve_all crypto read_file main.credentials)) [
          | inr (e, bad) ↦ let absurd : err e ≡ ok main' = rw (fine, bad) at h in ground arith
          | inl (cs, good) ↦ elim (Result-cases (compile_state crypto (settings_of main) cs)) [
            | inr (e, bad) ↦
                let absurd : err (conf_error (verifier_error e)) ≡ ok main' =
                  rw (fine, good, bad) at h in
                ground arith
            | inl (v, compiled) ↦
                let built : ok (record main { verifier = some v }) ≡ ok main' =
                  rw (fine, good, compiled) at h in
                let stored : main'.verifier ≡ some v = ground arith in
                let (configured, sound) =
                  compile_state-IsConfigured crypto (settings_of main) cs compiled in
                (v, stored, configured, sound)
          ]
        ]
      ]

  init_main_conf-HasVerifier :
      (main : MainConf) {main' : MainConf}
      → init_main_conf crypto read_file main ≡ ok main'
      → main.enabled_anywhere ≡ true
      → HasVerifier main'
  unfolding init_main_conf
  init_main_conf-HasVerifier main {main'} h on =
      let body = guard_conf-eq-ok _ h in
      elim (nil_or_cons main.credentials) [
        | inl missing ↦
            let absurd : err (conf_error no_credential) ≡ ok main' = rw (missing, on) at body in
            ground arith
        | inr (d, ds, present) ↦ compile_main-HasVerifier main (rw present at body)
      ]

  -- After any directives that NGINX accepts and an init_main_conf that succeeds, if the merged
  -- mode of some nested blocks verifies, the main configuration has a verifier, which is well
  -- formed and whose caches are sound.
  pub effective-HasVerifier :
      {c : HttpConf} (main : MainConf) (outer : LocConf) (inner : List LocConf)
      → Parses c
      → init_main_conf crypto read_file c.main ≡ ok main
      → All (IsIn c.locs) (outer ∷ inner)
      → verifies (effective outer inner).mode ≡ true
      → HasVerifier main
  effective-HasVerifier {c} main outer inner parses loaded known on =
      let enabled = IsIn-All c (outer ∷ inner) (Parses-IsEnabled parses) known in
      init_main_conf-HasVerifier c.main loaded
        (effective-Implies c.main outer inner enabled.0 enabled.1 on)
