-- ===== src/Tests/SigningTests.antt =====
-- The theorems of this component with a concrete stand-in for the cryptographic crates.
use sigv4_verify.Running.{running}
use sigv4_verify.Base.{
  ℕ, zero, suc, ◌+◌, ◌*◌, ◌%◌, ◌≡◌, ◌↔◌, refl, arith, codes, Bytes, [], ◌∷◌, ◌++◌, length, map,
  bytes_eq, bytes_eq→eq, bytes_eq_refl, if◌then◌else◌, some,
}
use sigv4_verify.Crypto.{Crypto}
use sigv4_verify.Signing.Eviction.{new_entry}
use sigv4_verify.Signing.{
  SigningKeyCacheEntry, Cache, derive_key, write_step, signing_key, read_step,
}
use sigv4_verify.Signing.Threads.{
  IsValid, Reach, start, next, write, Reach-IsValid, signing_key_lem,
}

-- 32 times the sum of the bytes.
abbrev pub total : Bytes → ℕ
total [] = 7
total (b ∷ r) = (b + 3 * total r) % 256

abbrev pub repeat : ℕ → ℕ → Bytes
repeat zero b = []
repeat (suc n) b = b ∷ repeat n b

pub length-repeat : (n b : ℕ) → length (repeat n b) ≡ n
length-repeat zero b = refl
length-repeat (suc n) b = omega (arith, length-repeat n b)

abbrev down_from : ℕ → Bytes
down_from zero = []
down_from (suc n) = n ∷ down_from n

abbrev same : Bytes → Bytes → ℕ
same a b = if bytes_eq a b then 1 else 0

pub same_iff : (a b : Bytes) → length a ≡ 32 → length b ≡ 32 → (same a b ≡ 1) ↔ (a ≡ b)
same_iff a b h k = ground (arith, bytes_eq→eq a b, bytes_eq_refl a)

abbrev pub toy : Crypto
toy = record {
  digest = λ d. repeat 32 (total d);
  digest_length = λ d. length-repeat 32 (total d);
  hmac_sign = λ k d. repeat 32 (total (k ++ d));
  hmac_sign_length = λ k d. length-repeat 32 (total (k ++ d));
  ct_eq = same;
  ct_eq_iff = same_iff;
}

abbrev pub seed : Bytes
seed = codes "AWS4secret"

abbrev pub date : Bytes
date = codes "20260102"

abbrev pub region : Bytes
region = codes "us-east-1"

abbrev pub service : Bytes
service = codes "s3"

abbrev filled : Cache
filled = (write_step toy seed date region service []).1

filled-Reach : Reach toy seed filled
filled-Reach = next start (write date region service [])

filled_hits : read_step date region service filled ≡ some (derive_key toy seed date region service)
unfolding running
filled_hits = refl

Reach-IsValid_example : IsValid toy seed filled
Reach-IsValid_example = Reach-IsValid toy seed filled-Reach

signing_key_lem_example :
    ((signing_key toy seed date region service filled).0 ≡ derive_key toy seed date region service)
    × IsValid toy seed (signing_key toy seed date region service filled).1
signing_key_lem_example =
    signing_key_lem toy seed date region service filled (Reach-IsValid toy seed filled-Reach)

abbrev some_signature : Bytes
some_signature = repeat 32 0xAB

-- Thirty-one entries of other services, newest first.
abbrev thirty_one : Cache
thirty_one = map (λ n. new_entry toy seed date region (n ∷ [])) (down_from 31)

abbrev oldest : SigningKeyCacheEntry
oldest = new_entry toy seed date region service
