-- ===== src/Tests/LocksTests.antt =====
-- Two calls on one empty cache: both look up, and one has the lock for writing while the other
-- waits.
use sigv4_verify.Base.{
  ◌*◌, ◌≤◌, ◌≡◌, ◌≢◌, ◌⊎◌, Bytes, refl, arith, true, List, [], ◌∷◌, codes, map, length,
}
use sigv4_verify.Running.{running}
use sigv4_verify.Signing.Threads.{IsValid}
use sigv4_verify.Signing.Locks.{
  Names, Shared, arrived, reading, missed, writing, returned, is_blocked, arrive, begin, Step, move,
  Run, start, later,
}
use sigv4_verify.Signing.Locks.Guards.{IsExclusive}
use sigv4_verify.Signing.Locks.Completion.{finished, Run-completes}
use sigv4_verify.Tests.SigningTests.{toy, seed, date, region, service}

abbrev east : Names
east = record { date = date; region = region; service = service }

abbrev west : Names
west = record { date = date; region = codes "us-west-2"; service = service }

abbrev both : List Names
both = east ∷ west ∷ []

not_arrived : (key : Bytes) → arrived ≢ returned key
not_arrived key e = cc

not_reading : (key : Bytes) → reading ≢ returned key
not_reading key e = cc

not_missed : (key : Bytes) → missed ≢ returned key
not_missed key e = cc

abbrev second_waits : (s : Shared) × Run toy seed true (begin [] both) 5 s
unfolding running
second_waits = (
  _,
  later
      (later
        (later
          (later (later start (move [] (arrive east) (arrive west ∷ []) refl not_arrived refl refl))
            (move (record { names = east; stage = reading } ∷ []) (arrive west) [] refl not_arrived
              refl refl))
          (move [] (record { names = east; stage = reading })
            (record { names = west; stage = reading } ∷ []) refl not_reading refl refl))
        (move (record { names = east; stage = missed } ∷ [])
          (record { names = west; stage = reading }) [] refl not_reading refl refl))
      (move [] (record { names = east; stage = missed })
        (record { names = west; stage = missed } ∷ []) refl not_missed refl refl),
)

waits : is_blocked true (record { names = east; stage = writing } ∷ []) missed ≡ true
unfolding running
waits = refl

Run-completes_example :
    (5 ≤ 4 * length both)
    × IsValid toy seed second_waits.0.cache
    × IsExclusive second_waits.0.threads
    × ((second_waits.0.threads ≡ map (finished toy seed) both)
        ⊎ ((s' : Shared) × Step toy seed true second_waits.0 s'))
Run-completes_example =
    Run-completes toy seed true [] both
      (record { derived = tt; bounded = omega arith; distinct = tt }) second_waits.1
