-- ===== src/Signing/Eviction.antt =====
-- The loop of `CompiledCredential::signing_key` that shrinks the cache.
use sigv4_verify.Base.{Bytes}
use sigv4_verify.Crypto.{Crypto}
use sigv4_verify.Signing.Defs.{SigningKeyCacheEntry, derive_key}

module _ (crypto : Crypto) where
  -- The entry that a miss stores.
  abbrev pub new_entry : Bytes → Bytes → Bytes → Bytes → SigningKeyCacheEntry
  new_entry secret_seed date region service = record {
    date = date;
    region = region;
    service = service;
    key = derive_key crypto secret_seed date region service;
  }
