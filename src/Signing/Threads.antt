-- ===== src/Signing/Threads.antt =====
-- The signing-key cache is transparent, whatever the threads' interleaving.
use sigv4_verify.Base.{
  ◌+◌, ◌≤◌, ◌≡◌, refl, none, some, [], ◌∷◌, arith, Bytes, length, All, Option-cases, inl, inr,
}
use sigv4_verify.Crypto.{Crypto}
use sigv4_verify.Signing.Entries.{
  Distinct, find_entry-found, remove_entry-All, length-remove_entry, shrink-All, length-shrink,
  remove_entry-Distinct, remove_entry-gone, shrink-Distinct,
}
use sigv4_verify.Signing.Defs.{
  SigningKeyCacheEntry, Cache, find_entry, read_step, derive_key, write_step, signing_key,
}

module _ (crypto : Crypto) (secret_seed : Bytes) where
  -- The entry holds the key of its own date, region and service.
  abbrev pub IsDerived : SigningKeyCacheEntry → Type 0
  IsDerived e = e.key ≡ derive_key crypto secret_seed e.date e.region e.service

  pub record IsValid (cache : Cache) : Type 0 where
    pub derived : All IsDerived cache
    pub bounded : length cache ≤ 32
    pub distinct : Distinct cache

  derived_of :
      (d r s : Bytes) (cache : Cache) {e : SigningKeyCacheEntry}
      → All IsDerived cache
      → find_entry d r s cache ≡ some e
      → (e.key ≡ derive_key crypto secret_seed d r s)
        × (e.date ≡ d)
        × (e.region ≡ r)
        × (e.service ≡ s)
  derived_of d r s cache h f =
      let (key, a, b, c) = find_entry-found d r s IsDerived cache h f in
      (rw (← a, ← b, ← c) key, a, b, c)

  -- The read lock's look-up, if it hits, gives the derived key.
  pub read_step-derived :
      (d r s : Bytes) (cache : Cache) {key : Bytes}
      → IsValid cache
      → read_step d r s cache ≡ some key
      → key ≡ derive_key crypto secret_seed d r s
  unfolding read_step
  read_step-derived d r s cache v h = elim (Option-cases (find_entry d r s cache)) [
    | inl miss ↦ ground arith
    | inr (e, hit) ↦ ground (arith, derived_of d r s cache v.derived hit)
  ]

  -- What runs under the write lock returns the derived key and keeps the cache valid.
  pub write_step_lem :
      (d r s : Bytes) (cache : Cache)
      → IsValid cache
      → ((write_step crypto secret_seed d r s cache).0 ≡ derive_key crypto secret_seed d r s)
        × IsValid (write_step crypto secret_seed d r s cache).1
  unfolding write_step
  write_step_lem d r s cache v = elim (Option-cases (find_entry d r s cache)) [
    | inl miss ↦
        let key = derive_key crypto secret_seed d r s in
        let entry : SigningKeyCacheEntry = record {
          date = d;
          region = r;
          service = s;
          key = key;
        } in
        rw (miss, write_step)
          (
            refl,
            record {
              derived = shrink-All IsDerived (length cache + 1) (entry ∷ cache) (refl, v.derived);
              bounded = length-shrink (length cache + 1) (entry ∷ cache) (omega arith);
              distinct = shrink-Distinct (length cache + 1) (entry ∷ cache) (miss, v.distinct);
            },
          )
    | inr (e, hit) ↦
        let (key, a, b, c) = derived_of d r s cache v.derived hit in
        rw (hit, write_step)
          (
            key,
            record {
              derived = (rw (a, b, c) key, remove_entry-All d r s IsDerived cache v.derived);
              bounded = omega (arith, length-remove_entry d r s cache hit, v.bounded);
              distinct = (
                rw (a, b, c) (remove_entry-gone d r s cache v.distinct),
                remove_entry-Distinct d r s cache v.distinct,
              );
            },
          )
  ]

  -- One thread's step under the write lock. A look-up under the read lock changes nothing.
  pub data Step : Cache → Cache → Type 0 where
    write :
        (d r s : Bytes) (cache : Cache) → Step cache (write_step crypto secret_seed d r s cache).1

  -- The caches that any number of threads leave behind, in any order, from the empty one.
  pub data Reach : Cache → Type 0 where
    start : Reach []
    next : {cache cache' : Cache} → Reach cache → Step cache cache' → Reach cache'

  Step-IsValid : {cache cache' : Cache} → Step cache cache' → IsValid cache → IsValid cache'
  Step-IsValid (write d r s cache) v = (write_step_lem d r s cache v).1

  -- Every signing-key cache that threads reach from the empty one holds derived keys only, at most
  -- 32 entries, and no two entries for one date, region and service.
  pub Reach-IsValid : {cache : Cache} → Reach cache → IsValid cache
  Reach-IsValid start = record { derived = tt; bounded = omega arith; distinct = tt }
  Reach-IsValid (next r st) = Step-IsValid st (Reach-IsValid r)

  -- A call that looks up in one cache and, if that misses, runs under the write lock in another.
  abbrev pub interleaved_key : Bytes → Bytes → Bytes → Cache → Cache → Bytes
  interleaved_key d r s read_cache write_cache = elim (read_step d r s read_cache) [
    | some key ↦ key
    | none ↦ (write_step crypto secret_seed d r s write_cache).0
  ]

  -- In every interleaving of threads that fill the signing-key cache from empty, a call that looks
  -- up in one reachable cache and, on a miss, runs under the write lock in another returns the key
  -- derived from the secret for its date, region and service.
  pub interleaved_key-derive_key :
      (d r s : Bytes) {read_cache write_cache : Cache}
      → Reach read_cache
      → Reach write_cache
      → interleaved_key d r s read_cache write_cache ≡ derive_key crypto secret_seed d r s
  interleaved_key-derive_key d r s {read_cache} {write_cache} h k =
      elim (Option-cases (read_step d r s read_cache)) [
        | inl miss ↦
            rw (miss, interleaved_key) (write_step_lem d r s write_cache (Reach-IsValid k)).0
        | inr (key, hit) ↦
            rw (hit, interleaved_key) (read_step-derived d r s read_cache (Reach-IsValid h) hit)
      ]

  -- A call without interference returns the derived key and keeps the cache valid.
  pub signing_key_lem :
      (d r s : Bytes) (cache : Cache)
      → IsValid cache
      → ((signing_key crypto secret_seed d r s cache).0 ≡ derive_key crypto secret_seed d r s)
        × IsValid (signing_key crypto secret_seed d r s cache).1
  unfolding signing_key
  signing_key_lem d r s cache v = elim (Option-cases (read_step d r s cache)) [
    | inl miss ↦ rw (miss, signing_key) (write_step_lem d r s cache v)
    | inr (key, hit) ↦ rw (hit, signing_key) (read_step-derived d r s cache v hit, v)
  ]
