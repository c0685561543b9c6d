-- ===== src/Signing/Locks/Completion.antt =====
-- The end of a run: whether some thread can take a step, and what the calls return.
use sigv4_verify.Base.{
  ℕ, ◌*◌, ◌≤◌, ◌≡◌, ◌≢◌, ◌⊎◌, inl, inr, refl, sym, ◌∙◌, ap, Bool, true, false, List, [], ◌∷◌, ◌++◌,
  map, length, arith, Bytes, All, Bool-cases,
}
use sigv4_verify.Crypto.{Crypto}
use sigv4_verify.Signing.Defs.{Cache, derive_key}
use sigv4_verify.Signing.Threads.{IsValid}
use sigv4_verify.Signing.Locks.{
  Stage, arrived, reading, missed, writing, returned, Names, Thread, Shared, is_writing, is_waiting,
  holds, count, is_blocked, advanced, Step, move, Run, begin,
}
use sigv4_verify.Signing.Locks.Guards.{IsExclusive, count-writing-le-holds, count-append}
use sigv4_verify.Signing.Locks.Runs.{
  IsRight, Run-IsRunning, begin-IsRunning, work-arrive, names-arrive,
}

-- Either no thread is at such a stage, or one is.
find_stage :
    (p : Stage → Bool) (ts : List Thread)
    → (count p ts ≡ 0)
      ⊎ ((before : List Thread) × (t : Thread) × (after : List Thread) × (ts ≡ before ++ t ∷ after)
          × (p t.stage ≡ true))
unfolding count
find_stage p [] = inl refl
find_stage p (x ∷ ts) = elim (Bool-cases (p x.stage)) [
  | inl here ↦ inr ([], x, ts, refl, here)
  | inr other ↦ elim (find_stage p ts) [
    | inl none_left ↦ inl (rw other (omega (arith, none_left)))
    | inr (before, t, after, at_lem, found) ↦
        inr (x ∷ before, t, after, ap (λ r. x ∷ r) at_lem, found)
  ]
]

count-others :
    (p : Stage → Bool) (before after : List Thread) (t : Thread)
    → count p (before ++ t ∷ after) ≡ 0
    → count p (before ++ after) ≡ 0
unfolding count
count-others p before after t h =
    omega (arith, count-append p before (t ∷ after), count-append p before after)

abbrev is_arrived : Stage → Bool
is_arrived arrived = true
is_arrived stage = false

holder_free :
    (prefers_writers : Bool) (others : List Thread) (stage : Stage)
    → holds stage ≡ true
    → (is_blocked prefers_writers others stage ≡ false) × ((key : Bytes) → stage ≢ returned key)
unfolding is_blocked
holder_free p others arrived h = cc
holder_free p others reading h = (refl, λ key e. cc)
holder_free p others missed h = cc
holder_free p others writing h = (refl, λ key e. cc)
holder_free p others (returned key) h = cc

waiting_free :
    (prefers_writers : Bool) (others : List Thread) (stage : Stage)
    → is_waiting stage ≡ true
    → count holds others ≡ 0
    → (is_blocked prefers_writers others stage ≡ false) × ((key : Bytes) → stage ≢ returned key)
unfolding is_blocked
waiting_free p others arrived h k = cc
waiting_free p others reading h k = cc
waiting_free p others missed h k = (rw k refl, λ key e. cc)
waiting_free p others writing h k = cc
waiting_free p others (returned key) h k = cc

arrived_free :
    (prefers_writers : Bool) (others : List Thread) (stage : Stage)
    → is_arrived stage ≡ true
    → count is_writing others ≡ 0
    → count is_waiting others ≡ 0
    → (is_blocked prefers_writers others stage ≡ false) × ((key : Bytes) → stage ≢ returned key)
unfolding is_blocked
arrived_free p others arrived h k l = (ground arith, λ key e. cc)
arrived_free p others reading h k l = cc
arrived_free p others missed h k l = cc
arrived_free p others writing h k l = cc
arrived_free p others (returned key) h k l = cc

-- No call is under way.
abbrev pub AllReturned : List Thread → Type 0
AllReturned = All (λ t. (key : Bytes) × (t.stage ≡ returned key))

stage_returned :
    (stage : Stage)
    → holds stage ≡ false
    → is_waiting stage ≡ false
    → is_arrived stage ≡ false
    → (key : Bytes) × (stage ≡ returned key)
stage_returned arrived h k l = cc
stage_returned reading h k l = cc
stage_returned missed h k l = cc
stage_returned writing h k l = cc
stage_returned (returned key) h k l = (key, refl)

none_AllReturned :
    (ts : List Thread)
    → count holds ts ≡ 0
    → count is_waiting ts ≡ 0
    → count is_arrived ts ≡ 0
    → AllReturned ts
unfolding count
none_AllReturned [] h k l = tt
none_AllReturned (t ∷ ts) h k l = (
  stage_returned t.stage (ground arith) (ground arith) (ground arith),
  none_AllReturned ts (omega arith) (omega arith) (omega arith),
)

module _ (crypto : Crypto) (secret_seed : Bytes) where
  -- The thread of a call that has returned the key for its names.
  abbrev pub finished : Names → Thread
  finished n = record {
    names = n;
    stage = returned (derive_key crypto secret_seed n.date n.region n.service);
  }

  AllReturned-finished :
      (ts : List Thread)
      → AllReturned ts
      → All (IsRight crypto secret_seed) ts
      → ts ≡ map finished (map (λ t. t.names) ts)
  AllReturned-finished [] h r = refl
  AllReturned-finished (t ∷ ts) ((key, e), h) (hr, r) =
      let right = hr key e in
      let here : t ≡ finished t.names = ap (λ s. record t { stage = s }) (e ∙ ap returned right) in
      let rest = AllReturned-finished ts h r in
      ap (λ x. x ∷ ts) here ∙ ap (λ xs. finished t.names ∷ xs) rest

  module _ (prefers_writers : Bool) where
    free_step :
        (s : Shared) (before : List Thread) (t : Thread) (after : List Thread)
        → s.threads ≡ before ++ t ∷ after
        → (is_blocked prefers_writers (before ++ after) t.stage ≡ false)
          × ((key : Bytes) → t.stage ≢ returned key)
        → (s' : Shared) × Step crypto secret_seed prefers_writers s s'
    free_step s before t after at_lem (free, unreturned) = (
      advanced crypto secret_seed before t after s.cache,
      move before t after at_lem unreturned free refl,
    )

    -- A thread with a guard can go on; if there is none, one that wants to write; if there is none,
    -- one that wants to read.
    next_step :
        (s : Shared)
        → AllReturned s.threads ⊎ ((s' : Shared) × Step crypto secret_seed prefers_writers s s')
    next_step s = elim (find_stage holds s.threads) [
      | inr (before, t, after, at_lem, found) ↦ inr (
          free_step s before t after at_lem
            (holder_free prefers_writers (before ++ after) t.stage found))
      | inl no_guard ↦ elim (find_stage is_waiting s.threads) [
        | inr (before, t, after, at_lem, found) ↦
            let none_held =
              count-others holds before after t (sym (ap (count holds) at_lem) ∙ no_guard) in
            inr (
              free_step s before t after at_lem
                (waiting_free prefers_writers (before ++ after) t.stage found none_held))
        | inl no_writer ↦ elim (find_stage is_arrived s.threads) [
          | inr (before, t, after, at_lem, found) ↦
              let none_held =
                count-others holds before after t (sym (ap (count holds) at_lem) ∙ no_guard) in
              let none_waits =
                count-others is_waiting before after t
                  (sym (ap (count is_waiting) at_lem) ∙ no_writer) in
              let none_writes : count is_writing (before ++ after) ≡ 0 =
                omega (arith, none_held, count-writing-le-holds (before ++ after)) in
              inr (
                free_step s before t after at_lem (
                  arrived_free prefers_writers (before ++ after) t.stage found none_writes
                    none_waits))
          | inl no_reader ↦ inl (none_AllReturned s.threads no_guard no_writer no_reader)
        ]
      ]
    ]

    -- Any number of threads begin one call of signing_key each on one cache that holds at most 32
    -- derived keys for distinct names, and run in any order, each waiting for the cache's lock
    -- where the others' guards demand it, whether or not a waiting writer keeps new readers out. A
    -- run has at most four steps for each call; after it the cache is still such a cache; no other
    -- guard is alive beside a write guard; and either every call has returned the key derived for
    -- its names or some thread can take a step.
    pub Run-completes :
        (cache : Cache) (calls : List Names) {n : ℕ} {s : Shared}
        → IsValid crypto secret_seed cache
        → Run crypto secret_seed prefers_writers (begin cache calls) n s
        → (n ≤ 4 * length calls)
          × IsValid crypto secret_seed s.cache
          × IsExclusive s.threads
          × ((s.threads ≡ map finished calls)
              ⊎ ((s' : Shared) × Step crypto secret_seed prefers_writers s s'))
    Run-completes cache calls {n} {s} v r =
        let (running, less, same) =
          Run-IsRunning crypto secret_seed prefers_writers r
            (begin-IsRunning crypto secret_seed cache calls v) in
        (
          omega (arith, less, work-arrive calls),
          running.valid,
          running.exclusive,
          elim (next_step s) [
            | inr step ↦ inr step
            | inl done ↦ inl (
                AllReturned-finished s.threads done running.right
                ∙ ap (map finished) (same ∙ names-arrive calls))
          ],
        )
