-- ===== src/Signing/Locks/Runs.antt =====
-- The states of a run: the guards, the keys, and the steps that are left.
use sigv4_verify.Base.{
  ℕ, ◌+◌, ◌*◌, ◌≤◌, ◌≡◌, ◌≢◌, inl, inr, refl, sym, ◌∙◌, ap, subst, Bool, false, List, [], ◌∷◌, ◌++◌,
  map, length, arith, Bytes, All, All-append, Option-cases,
}
use sigv4_verify.Crypto.{Crypto}
use sigv4_verify.Signing.Defs.{Cache, read_step, derive_key}
use sigv4_verify.Signing.Threads.{IsValid, read_step-derived, write_step_lem}
use sigv4_verify.Signing.Locks.{
  Stage, arrived, reading, missed, writing, returned, Names, Thread, Shared, is_writing, holds,
  count, is_blocked, advance, advanced, Step, move, Run, start, later, arrive, begin,
}
use sigv4_verify.Signing.Locks.Guards.{
  count-append, IsExclusive, leave-IsExclusive, count-writing-le-holds, count-arrive,
}

-- The steps that are left at most.
abbrev pub work_of : Stage → ℕ
work_of arrived = 4
work_of reading = 3
work_of missed = 2
work_of writing = 1
work_of (returned key) = 0

abbrev pub work : List Thread → ℕ
work [] = 0
work (t ∷ ts) = work_of t.stage + work ts

work-append : (xs ys : List Thread) → work (xs ++ ys) ≡ work xs + work ys
work-append [] ys = omega arith
work-append (x ∷ xs) ys = omega (arith, work-append xs ys)

pub All-split : (P : Thread → Type 0) (xs ys : List Thread) → All P (xs ++ ys) → All P xs × All P ys
All-split P [] ys h = (tt, h)
All-split P (x ∷ xs) ys (hx, h) = let (a, b) = All-split P xs ys h in ((hx, a), b)

pub work-arrive : (calls : List Names) → work (map arrive calls) ≡ 4 * length calls
work-arrive [] = refl
work-arrive (n ∷ calls) = omega (arith, work-arrive calls)

pub names-arrive : (calls : List Names) → map (λ t. t.names) (map arrive calls) ≡ calls
names-arrive [] = refl
names-arrive (n ∷ calls) = rw (names-arrive calls) refl

module _ (crypto : Crypto) (secret_seed : Bytes) where
  -- A thread that has returned has the key for its names.
  abbrev pub IsRight : Thread → Type 0
  IsRight t =
      (key : Bytes)
      → t.stage ≡ returned key
      → key ≡ derive_key crypto secret_seed t.names.date t.names.region t.names.service

  pub record IsRunning (s : Shared) : Type 0 where
    pub valid : IsValid crypto secret_seed s.cache
    pub right : All IsRight s.threads
    pub exclusive : IsExclusive s.threads

  arrive-IsRight : (calls : List Names) → All IsRight (map arrive calls)
  arrive-IsRight [] = tt
  arrive-IsRight (n ∷ calls) = ((λ key e. cc), arrive-IsRight calls)

  -- What one advance does to the thread and the cache.
  abbrev Advances : Names → Stage → Cache → Type 0
  Advances n stage cache =
      let next = advance crypto secret_seed n stage cache in
      IsValid crypto secret_seed next.1
      × IsRight (record { names = n; stage = next.0 })
      × (work_of next.0 + 1 ≤ work_of stage)

  advance-Advances :
      (n : Names) (stage : Stage) (cache : Cache)
      → IsValid crypto secret_seed cache
      → ((key : Bytes) → stage ≢ returned key)
      → Advances n stage cache
  unfolding advance
  advance-Advances n arrived cache v u = (v, (λ key e. cc), omega arith)
  advance-Advances n reading cache v u =
      elim (Option-cases (read_step n.date n.region n.service cache)) [
        | inl miss ↦ rw (advance, miss) (v, (λ key e. cc), omega arith)
        | inr (k, hit) ↦
            let derived =
              read_step-derived crypto secret_seed n.date n.region n.service cache v hit in
            rw (advance, hit) (v, (λ key e. cc), omega arith)
      ]
  advance-Advances n missed cache v u = (v, (λ key e. cc), omega arith)
  advance-Advances n writing cache v u =
      let (derived, v') = write_step_lem crypto secret_seed n.date n.region n.service cache v in
      (v', (λ key e. cc), omega arith)
  advance-Advances n (returned key) cache v u = absurd (u key refl)

  advance-IsExclusive :
      (prefers_writers : Bool) (before after : List Thread) (n : Names) (stage : Stage)
      (cache : Cache)
      → is_blocked prefers_writers (before ++ after) stage ≡ false
      → IsExclusive (before ++ record { names = n; stage = stage } ∷ after)
      → IsExclusive (
          before
          ++ record { names = n; stage = (advance crypto secret_seed n stage cache).0 } ∷ after)
  unfolding advance is_blocked count
  advance-IsExclusive p before after n arrived cache free e = ground (
    arith,
    count-append is_writing before after,
    count-append is_writing before (record { names = n; stage = reading } ∷ after),
  )
  advance-IsExclusive p before after n reading cache free e =
      let t : Thread = record { names = n; stage = reading } in
      elim (Option-cases (read_step n.date n.region n.service cache)) [
        | inl miss ↦
            rw (advance, miss)
              (leave-IsExclusive before after t (record { names = n; stage = missed }) refl refl
                refl e)
        | inr (k, hit) ↦
            rw (advance, hit)
              (leave-IsExclusive before after t (record { names = n; stage = returned k }) refl refl
                refl e)
      ]
  advance-IsExclusive p before after n missed cache free e = ground (
    arith,
    count-append holds before after,
    count-append holds before (record { names = n; stage = writing } ∷ after),
    count-append is_writing before after,
    count-append is_writing before (record { names = n; stage = writing } ∷ after),
    count-writing-le-holds (before ++ after),
  )
  advance-IsExclusive p before after n writing cache free e =
      leave-IsExclusive before after (record { names = n; stage = writing })
        (record { names = n; stage = (advance crypto secret_seed n writing cache).0 }) refl refl
        refl e
  advance-IsExclusive p before after n (returned key) cache free e = e

  abbrev pub names_of : List Thread → List Names
  names_of = map (λ t. t.names)

  names_of-advanced :
      (before after : List Thread) (t : Thread) (stage : Stage)
      → names_of (before ++ record t { stage = stage } ∷ after) ≡ names_of (before ++ t ∷ after)
  names_of-advanced [] after t stage = refl
  names_of-advanced (x ∷ before) after t stage = rw (names_of-advanced before after t stage) refl

  advanced-IsRunning :
      (prefers_writers : Bool) (before : List Thread) (t : Thread) (after : List Thread)
      (cache : Cache)
      → ((key : Bytes) → t.stage ≢ returned key)
      → is_blocked prefers_writers (before ++ after) t.stage ≡ false
      → IsValid crypto secret_seed cache
      → All IsRight (before ++ t ∷ after)
      → IsExclusive (before ++ t ∷ after)
      → IsRunning (advanced crypto secret_seed before t after cache)
        × (work (advanced crypto secret_seed before t after cache).threads + 1
            ≤ work (before ++ t ∷ after))
  advanced-IsRunning prefers before t after cache unreturned free v r e =
      let (v', key, less) = advance-Advances t.names t.stage cache v unreturned in
      let (left, (_, right)) = All-split IsRight before (t ∷ after) r in
      let next = (advance crypto secret_seed t.names t.stage cache).0 in
      let t' : Thread = record t { stage = next } in
      (
        record {
          valid = v';
          right = All-append IsRight before (t' ∷ after) left (key, right);
          exclusive = advance-IsExclusive prefers before after t.names t.stage cache free e;
        },
        omega (arith, less, work-append before (t ∷ after), work-append before (t' ∷ after)),
      )

  module _ (prefers_writers : Bool) where
    Step-IsRunning :
        {s s' : Shared}
        → Step crypto secret_seed prefers_writers s s'
        → IsRunning s
        → IsRunning s'
          × (work s'.threads + 1 ≤ work s.threads)
          × (names_of s'.threads ≡ names_of s.threads)
    Step-IsRunning {s} {s'} (move before t after at_lem unreturned free after_lem) h =
        let (running, less) =
          advanced-IsRunning prefers_writers before t after s.cache unreturned free h.valid
            (subst (All IsRight) at_lem h.right) (subst IsExclusive at_lem h.exclusive) in
        let stage = (advance crypto secret_seed t.names t.stage s.cache).0 in
        (
          subst IsRunning (sym after_lem) running,
          omega (arith, less, ap work at_lem, ap (λ (s : Shared). work s.threads) after_lem),
          ap (λ s. names_of s.threads) after_lem
              ∙ names_of-advanced before after t stage
              ∙ sym (ap names_of at_lem),
        )

    -- A run keeps all of this, and takes no more steps than there is work.
    pub Run-IsRunning :
        {first : Shared} {n : ℕ} {s : Shared}
        → Run crypto secret_seed prefers_writers first n s
        → IsRunning first
        → IsRunning s
          × (n + work s.threads ≤ work first.threads)
          × (names_of s.threads ≡ names_of first.threads)
    Run-IsRunning start h = (h, omega arith, refl)
    Run-IsRunning (later r st) h =
        let (h', less, same) = Run-IsRunning r h in
        let (h'', less', same') = Step-IsRunning st h' in
        (h'', omega (arith, less, less'), same' ∙ same)

  -- Where no call has begun.
  pub begin-IsRunning :
      (cache : Cache) (calls : List Names)
      → IsValid crypto secret_seed cache
      → IsRunning (begin cache calls)
  begin-IsRunning cache calls v = record {
    valid = v;
    right = arrive-IsRight calls;
    exclusive = inl (count-arrive calls);
  }
