-- ===== src/Signing/Locks/Guards.antt =====
-- The guards of the lock, counted.
use sigv4_verify.Base.{
  ◌+◌, ◌≤◌, ◌≡◌, ◌⊎◌, refl, Bool, true, false, List, [], ◌∷◌, ◌++◌, map, arith, if◌then◌else◌,
}
use sigv4_verify.Signing.Locks.{
  Stage, arrived, reading, missed, writing, returned, Names, Thread, is_writing, holds, count,
  arrive,
}

pub count-append :
    (p : Stage → Bool) (xs ys : List Thread) → count p (xs ++ ys) ≡ count p xs + count p ys
unfolding count
count-append p [] ys = omega arith
count-append p (x ∷ xs) ys = omega (arith, count-append p xs ys)

-- While a thread has the write guard, there is no other guard.
abbrev pub IsExclusive : List Thread → Type 0
IsExclusive ts = (count is_writing ts ≡ 0) ⊎ ((count is_writing ts ≡ 1) × (count holds ts ≡ 1))

writing_le_holds : (s : Stage) → (if is_writing s then 1 else 0) ≤ (if holds s then 1 else 0)
writing_le_holds arrived = omega arith
writing_le_holds reading = omega arith
writing_le_holds missed = omega arith
writing_le_holds writing = omega arith
writing_le_holds (returned key) = omega arith

pub count-writing-le-holds : (ts : List Thread) → count is_writing ts ≤ count holds ts
unfolding count
count-writing-le-holds [] = omega arith
count-writing-le-holds (t ∷ ts) =
    let rest = count-writing-le-holds ts in
    let here = writing_le_holds t.stage in omega (arith, rest, here)

-- A thread lets its guard go.
pub leave-IsExclusive :
    (before after : List Thread) (t t' : Thread)
    → holds t.stage ≡ true
    → holds t'.stage ≡ false
    → is_writing t'.stage ≡ false
    → IsExclusive (before ++ t ∷ after)
    → IsExclusive (before ++ t' ∷ after)
unfolding count
leave-IsExclusive before after t t' held left idle e = ground (
  arith,
  count-append is_writing before (t ∷ after),
  count-append is_writing before (t' ∷ after),
  count-append holds before (t ∷ after),
  count-append holds before (t' ∷ after),
  count-writing-le-holds before,
  count-writing-le-holds after,
  writing_le_holds t.stage,
)

pub count-arrive : (calls : List Names) → count is_writing (map arrive calls) ≡ 0
unfolding count
count-arrive [] = refl
count-arrive (n ∷ calls) = omega (arith, count-arrive calls)
