-- ===== src/Signing/Entries.antt =====
-- The list operations under the signing-key cache: what they keep of the entries.
use sigv4_verify.Base.{
  ℕ, suc, zero, ◌+◌, ◌-◌, ◌≤◌, ◌≡◌, refl, true, none, some, [], ◌∷◌, arith, Bytes, ltb, bytes_eq→eq,
  length, All, Bool-cases, inl, inr,
}
use sigv4_verify.Signing.Defs.{
  SigningKeyCacheEntry, Cache, signing_cache_capacity, is_entry_for, find_entry, remove_entry,
  pop_back, shrink,
}

-- No two entries have the same date, region and service.
abbrev pub Distinct : Cache → Type 0
Distinct [] = Unit
Distinct (e ∷ cache) = (find_entry e.date e.region e.service cache ≡ none) × Distinct cache

pub entry_for :
    (d r s : Bytes) (e : SigningKeyCacheEntry)
    → is_entry_for d r s e ≡ true
    → (e.date ≡ d) × (e.region ≡ r) × (e.service ≡ s)
entry_for d r s e h =
    ground (arith, bytes_eq→eq e.date d, bytes_eq→eq e.region r, bytes_eq→eq e.service s)

pub find_entry-found :
    (d r s : Bytes) (P : SigningKeyCacheEntry → Type 0) (cache : Cache) {e : SigningKeyCacheEntry}
    → All P cache
    → find_entry d r s cache ≡ some e
    → P e × (e.date ≡ d) × (e.region ≡ r) × (e.service ≡ s)
unfolding find_entry
find_entry-found d r s P [] h f = cc
find_entry-found d r s P (x ∷ cache) {e} (hx, h) f = elim (Bool-cases (is_entry_for d r s x)) [
  | inl m ↦
      let f' : some x ≡ some e = rw m at f in
      let same : x ≡ e = cc in rw (← same) (let (a, b, c) = entry_for d r s x m in (hx, a, b, c))
  | inr m ↦ find_entry-found d r s P cache h (rw m at f)
]

pub remove_entry-All :
    (d r s : Bytes) (P : SigningKeyCacheEntry → Type 0) (cache : Cache)
    → All P cache
    → All P (remove_entry d r s cache)
unfolding remove_entry
remove_entry-All d r s P [] h = tt
remove_entry-All d r s P (x ∷ cache) (hx, h) = elim (Bool-cases (is_entry_for d r s x)) [
  | inl m ↦ rw m h
  | inr m ↦ rw m (hx, remove_entry-All d r s P cache h)
]

pub length-remove_entry :
    (d r s : Bytes) (cache : Cache) {e : SigningKeyCacheEntry}
    → find_entry d r s cache ≡ some e
    → length (remove_entry d r s cache) + 1 ≡ length cache
unfolding find_entry remove_entry
length-remove_entry d r s [] f = cc
length-remove_entry d r s (x ∷ cache) {e} f = elim (Bool-cases (is_entry_for d r s x)) [
  | inl m ↦ rw m (omega arith)
  | inr m ↦ rw m (omega (arith, length-remove_entry d r s cache {e = e} (rw m at f)))
]

pub pop_back-All :
    (P : SigningKeyCacheEntry → Type 0) (cache : Cache) → All P cache → All P (pop_back cache)
unfolding pop_back
pop_back-All P [] h = tt
pop_back-All P (x ∷ []) h = tt
pop_back-All P (x ∷ y ∷ cache) (hx, h) = (hx, pop_back-All P (y ∷ cache) h)

pub length-pop_back : (cache : Cache) → length (pop_back cache) ≡ length cache - 1
unfolding pop_back
length-pop_back [] = omega arith
length-pop_back (x ∷ []) = omega arith
length-pop_back (x ∷ y ∷ cache) = omega (arith, length-pop_back (y ∷ cache))

pub shrink-All :
    (P : SigningKeyCacheEntry → Type 0) (fuel : ℕ) (cache : Cache)
    → All P cache
    → All P (shrink fuel cache)
unfolding shrink
shrink-All P zero cache h = h
shrink-All P (suc fuel) cache h = elim (Bool-cases (ltb signing_cache_capacity (length cache))) [
  | inl m ↦ rw m (shrink-All P fuel (pop_back cache) (pop_back-All P cache h))
  | inr m ↦ rw m h
]

-- The fuel suffices: the loop ends with the cache within its capacity.
pub length-shrink :
    (fuel : ℕ) (cache : Cache) → length cache ≤ fuel + 32 → length (shrink fuel cache) ≤ 32
unfolding shrink
length-shrink zero cache h = omega arith
length-shrink (suc fuel) cache h =
    ground (arith, length-shrink fuel (pop_back cache), length-pop_back cache)

pub remove_entry-absent :
    (d r s d' r' s' : Bytes) (cache : Cache)
    → find_entry d' r' s' cache ≡ none
    → find_entry d' r' s' (remove_entry d r s cache) ≡ none
unfolding find_entry remove_entry
remove_entry-absent d r s d' r' s' [] h = refl
remove_entry-absent d r s d' r' s' (x ∷ cache) h =
    ground (arith, remove_entry-absent d r s d' r' s' cache)

pub remove_entry-Distinct :
    (d r s : Bytes) (cache : Cache) → Distinct cache → Distinct (remove_entry d r s cache)
unfolding remove_entry
remove_entry-Distinct d r s [] h = tt
remove_entry-Distinct d r s (x ∷ cache) (hx, h) = elim (Bool-cases (is_entry_for d r s x)) [
  | inl m ↦ rw m h
  | inr m ↦ rw m (
    remove_entry-absent d r s x.date x.region x.service cache hx,
    remove_entry-Distinct d r s cache h,
  )
]

-- An entry is gone once it is removed.
pub remove_entry-gone :
    (d r s : Bytes) (cache : Cache)
    → Distinct cache
    → find_entry d r s (remove_entry d r s cache) ≡ none
unfolding find_entry remove_entry
remove_entry-gone d r s [] h = refl
remove_entry-gone d r s (x ∷ cache) (hx, h) = elim (Bool-cases (is_entry_for d r s x)) [
  | inl m ↦ let (a, b, c) = entry_for d r s x m in rw (m, ← a, ← b, ← c) hx
  | inr m ↦ rw (m, m) (remove_entry-gone d r s cache h)
]

pub pop_back-absent :
    (d r s : Bytes) (cache : Cache)
    → find_entry d r s cache ≡ none
    → find_entry d r s (pop_back cache) ≡ none
unfolding find_entry pop_back
pop_back-absent d r s [] h = refl
pop_back-absent d r s (x ∷ []) h = refl
pop_back-absent d r s (x ∷ y ∷ cache) h = ground (arith, pop_back-absent d r s (y ∷ cache))

pub pop_back-Distinct : (cache : Cache) → Distinct cache → Distinct (pop_back cache)
unfolding pop_back
pop_back-Distinct [] h = tt
pop_back-Distinct (x ∷ []) h = tt
pop_back-Distinct (x ∷ y ∷ cache) (hx, h) =
    (pop_back-absent x.date x.region x.service (y ∷ cache) hx, pop_back-Distinct (y ∷ cache) h)

pub shrink-Distinct : (fuel : ℕ) (cache : Cache) → Distinct cache → Distinct (shrink fuel cache)
unfolding shrink
shrink-Distinct zero cache h = h
shrink-Distinct (suc fuel) cache h = elim (Bool-cases (ltb signing_cache_capacity (length cache))) [
  | inl m ↦ rw m (shrink-Distinct fuel (pop_back cache) (pop_back-Distinct cache h))
  | inr m ↦ rw m h
]
