-- ===== src/Signing/Locks.antt =====
-- `CompiledCredential::signing_key` on any number of threads that share one cache, with the
-- `RwLock` around it. A thread waits for the lock, holds it for one look-up, and lets it go; whether
-- a waiting writer keeps new readers out is left open, as the standard library leaves it.
pub mod Guards
pub mod Runs
pub mod Completion
use sigv4_verify.Base.{
  ℕ, zero, suc, ◌+◌, ◌==◌, ◌≡◌, ◌≢◌, Bool, true, false, not, ◌&&◌, ◌||◌, none, some, List, [], ◌∷◌,
  ◌++◌, map, Bytes, if◌then◌else◌,
}
use sigv4_verify.Crypto.{Crypto}
use sigv4_verify.Signing.Defs.{Cache, read_step, write_step}

-- Where a call stands: before `read()`, with the read guard, before `write()`, with the write
-- guard, or returned with its key.
pub data Stage : Type 0 where
  arrived reading missed writing : Stage
  returned : Bytes → Stage

pub record Names : Type 0 where
  pub date : Bytes
  pub region : Bytes
  pub service : Bytes

pub record Thread : Type 0 where
  pub names : Names
  pub stage : Stage

pub record Shared : Type 0 where
  pub cache : Cache
  pub threads : List Thread

abbrev pub is_writing : Stage → Bool
is_writing writing = true
is_writing stage = false

abbrev pub is_waiting : Stage → Bool
is_waiting missed = true
is_waiting stage = false

-- A guard is alive.
abbrev pub holds : Stage → Bool
holds reading = true
holds writing = true
holds stage = false

-- How many threads are at such a stage.
unfoldable pub count : (Stage → Bool) → List Thread → ℕ
count p [] = 0
count p (t ∷ ts) = (if p t.stage then 1 else 0) + count p ts

-- The lock does not let a thread in while these others are where they are.
unfoldable pub is_blocked : Bool → List Thread → Stage → Bool
is_blocked prefers_writers others arrived =
    not (count is_writing others == 0) || (prefers_writers && not (count is_waiting others == 0))
is_blocked prefers_writers others missed = not (count holds others == 0)
is_blocked prefers_writers others stage = false

module _ (crypto : Crypto) (secret_seed : Bytes) where
  -- What a thread does that is not blocked. The read guard goes at the end of the first block, the
  -- write guard at the end of the function.
  unfoldable pub advance : Names → Stage → Cache → Stage × Cache
  advance n arrived cache = (reading, cache)
  advance n reading cache = elim (read_step n.date n.region n.service cache) [
    | some key ↦ (returned key, cache)
    | none ↦ (missed, cache)
  ]
  advance n missed cache = (writing, cache)
  advance n writing cache =
      let (key, cache') = write_step crypto secret_seed n.date n.region n.service cache in
      (returned key, cache')
  advance n (returned key) cache = (returned key, cache)

  -- The threads after one of them, between `before` and `after`, has advanced.
  abbrev pub advanced : List Thread → Thread → List Thread → Cache → Shared
  advanced before t after cache =
      let next = advance t.names t.stage cache in
      record { cache = next.1; threads = before ++ record t { stage = next.0 } ∷ after }

  -- One thread that has not returned and is not blocked advances.
  pub data Step (prefers_writers : Bool) (s s' : Shared) : Type 0 where
    move :
        (before : List Thread) (t : Thread) (after : List Thread)
        → s.threads ≡ before ++ t ∷ after
        → ((key : Bytes) → t.stage ≢ returned key)
        → is_blocked prefers_writers (before ++ after) t.stage ≡ false
        → s' ≡ advanced before t after s.cache
        → Step prefers_writers s s'

  -- The states after a number of steps.
  pub data Run (prefers_writers : Bool) (first : Shared) : ℕ → Shared → Type 0 where
    start : Run prefers_writers first 0 first
    later :
        {n : ℕ} {s s' : Shared}
        → Run prefers_writers first n s
        → Step prefers_writers s s'
        → Run prefers_writers first (suc n) s'

abbrev pub arrive : Names → Thread
arrive names = record { names = names; stage = arrived }

-- Calls for these names on one cache, none of which has begun.
abbrev pub begin : Cache → List Names → Shared
begin cache calls = record { cache = cache; threads = map arrive calls }
