-- ===== src/Crypto.antt =====
-- What the verifier uses of the crates `ring` and `subtle`, which are not part of the repository:
-- a parameter with their documented behaviour.
use sigv4_verify.Base.{ℕ, ◌≡◌, ◌↔◌, Bytes, length}

pub record Crypto : Type 0 where
  -- `digest::digest(&SHA256, data)`.
  pub digest : Bytes → Bytes
  pub digest_length : (data' : Bytes) → length (digest data') ≡ 32
  -- `hmac::sign(&Key::new(HMAC_SHA256, key), data)`.
  pub hmac_sign : Bytes → Bytes → Bytes
  pub hmac_sign_length : (key data' : Bytes) → length (hmac_sign key data') ≡ 32
  -- `a.ct_eq(&b).unwrap_u8()`, on arrays of 32 bytes.
  pub ct_eq : Bytes → Bytes → ℕ
  pub ct_eq_iff : (a b : Bytes) → length a ≡ 32 → length b ≡ 32 → (ct_eq a b ≡ 1) ↔ (a ≡ b)
