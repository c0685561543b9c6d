-- ===== src/Signing/Defs.antt =====
-- `SigningKeyCacheEntry`, `CompiledCredential::signing_key`, `hash_canonical_request`, `sign` and
-- `decode_signature`. The `RwLock` gives two atomic steps: the look-up under the read lock, and,
-- if that misses, everything under the write lock. Another thread may write in between. A lock is
-- not poisoned, since no code under it panics.
use sigv4_verify.Base.{
  ℕ, suc, zero, ◌+◌, Bool, not, ◌&&◌, ◌||◌, Option, none, some, List, [], ◌∷◌, ◌++◌, Bytes, codes,
  ltb, ◌==◌, if◌then◌else◌, bytes_eq, length,
}
use sigv4_verify.Hex.{is_hex, hex_byte, append_hex_lower}
use sigv4_verify.Crypto.{Crypto}

pub record SigningKeyCacheEntry : Type 0 where
  pub date : Bytes
  pub region : Bytes
  pub service : Bytes
  pub key : Bytes

abbrev pub Cache : Type 0
Cache = List SigningKeyCacheEntry

abbrev pub signing_cache_capacity : ℕ
signing_cache_capacity = 32

abbrev pub algorithm_name : Bytes
algorithm_name = codes "AWS4-HMAC-SHA256"

abbrev pub terminal_name : Bytes
terminal_name = codes "aws4_request"

abbrev pub payload_hash : Bytes
payload_hash = codes "UNSIGNED-PAYLOAD"

-- The closure of `find` and of `position`.
abbrev pub is_entry_for : Bytes → Bytes → Bytes → SigningKeyCacheEntry → Bool
is_entry_for date region service entry =
    bytes_eq entry.date date && bytes_eq entry.region region && bytes_eq entry.service service

unfoldable pub find_entry : Bytes → Bytes → Bytes → Cache → Option SigningKeyCacheEntry
find_entry date region service [] = none
find_entry date region service (e ∷ cache) =
    if is_entry_for date region service e then some e else find_entry date region service cache

-- `cache.remove(position)`: the cache without the first such entry.
unfoldable pub remove_entry : Bytes → Bytes → Bytes → Cache → Cache
remove_entry date region service [] = []
remove_entry date region service (e ∷ cache) =
    if is_entry_for date region service e then cache else e ∷ remove_entry date region service cache

-- `VecDeque::pop_back`.
unfoldable pub pop_back : Cache → Cache
pop_back [] = []
pop_back (e ∷ []) = []
pop_back (e ∷ f ∷ cache) = e ∷ pop_back (f ∷ cache)

-- `while cache.len() > SIGNING_CACHE_CAPACITY { cache.pop_back(); }`, on fuel.
unfoldable pub shrink : ℕ → Cache → Cache
unfolding pop_back
shrink zero cache = cache
shrink (suc fuel) cache =
    let rest = shrink fuel (pop_back cache) in
    if ltb signing_cache_capacity (length cache) then rest else cache

-- The look-up under the read lock.
unfoldable pub read_step : Bytes → Bytes → Bytes → Cache → Option Bytes
unfolding find_entry
read_step date region service cache = elim (find_entry date region service cache) [
  | none ↦ none
  | some e ↦ some e.key
]

module _ (crypto : Crypto) where
  open crypto use {digest, hmac_sign}

  -- `sha256` and `hmac_sha256` copy the crate's output.
  abbrev pub sha256 : Bytes → Bytes
  sha256 bytes = digest bytes

  abbrev pub hmac_sha256 : Bytes → Bytes → Bytes
  hmac_sha256 key bytes = hmac_sign key bytes

  -- The key that the cache stands for.
  unfoldable pub derive_key : Bytes → Bytes → Bytes → Bytes → Bytes
  derive_key secret_seed date region service =
      let k_date = hmac_sha256 secret_seed date in
      let k_region = hmac_sha256 k_date region in
      let k_service = hmac_sha256 k_region service in hmac_sha256 k_service terminal_name

  -- The part under the write lock. The loop pops once at most, so the length is fuel enough.
  unfoldable pub write_step : Bytes → Bytes → Bytes → Bytes → Cache → Bytes × Cache
  unfolding find_entry remove_entry derive_key shrink
  write_step secret_seed date region service cache = elim (find_entry date region service cache) [
    | some cached ↦ (cached.key, cached ∷ remove_entry date region service cache)
    | none ↦
        let key = derive_key secret_seed date region service in
        let entry : SigningKeyCacheEntry = record {
          date = date;
          region = region;
          service = service;
          key = key;
        } in
        (key, shrink (length cache + 1) (entry ∷ cache))
  ]

  -- `signing_key` with no write in between.
  unfoldable pub signing_key : Bytes → Bytes → Bytes → Bytes → Cache → Bytes × Cache
  unfolding read_step write_step
  signing_key secret_seed date region service cache = elim (read_step date region service cache) [
    | some key ↦ (key, cache)
    | none ↦ write_step secret_seed date region service cache
  ]

  unfoldable pub hash_canonical_request : Bytes → Bytes → Bytes → Bytes → Bytes
  hash_canonical_request method canonical_path canonical_query_string canonical_host = sha256 (
      method
      ++ (b'\n'
          ∷ (canonical_path
              ++ (b'\n'
                  ∷ (canonical_query_string
                      ++ (codes "\nhost:"
                          ++ (canonical_host ++ (codes "\n\nhost\n" ++ payload_hash))))))))

  unfoldable pub string_to_sign : Bytes → Bytes → Bytes → Bytes
  unfolding append_hex_lower
  string_to_sign amz_date credential_scope canonical_hash =
      algorithm_name
      ++ (b'\n'
          ∷ (amz_date ++ (b'\n' ∷ (credential_scope ++ (b'\n' ∷ append_hex_lower canonical_hash)))))

  -- `sign`, which returns the signature and leaves the cache.
  unfoldable pub sign :
      Bytes → Bytes → Bytes → Bytes → Bytes → Bytes → Bytes → Cache → Bytes × Cache
  unfolding signing_key string_to_sign
  sign secret_seed date region service amz_date credential_scope canonical_hash cache =
      let (key, cache') = signing_key secret_seed date region service cache in
      (hmac_sha256 key (string_to_sign amz_date credential_scope canonical_hash), cache')

-- The loop of `decode_signature`, two digits a round.
unfoldable pub decode_pairs : Bytes → Option Bytes
decode_pairs [] = some []
decode_pairs (hi ∷ []) = none
decode_pairs (hi ∷ lo ∷ r) =
    let rest = decode_pairs r in
    if not (is_hex hi) || not (is_hex lo)
    then none
    else elim rest [ none ↦ none | some out ↦ some (hex_byte hi lo ∷ out) ]

unfoldable pub decode_signature : Bytes → Option Bytes
unfolding decode_pairs
decode_signature value = if not (length value == 64) then none else decode_pairs value
