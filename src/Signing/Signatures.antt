-- ===== src/Signing/Signatures.antt =====
-- `decode_signature` reads what `append_hex_lower` writes.
use sigv4_verify.Base.{
  ◌*◌, ◌≡◌, refl, none, some, [], ◌∷◌, Bytes, All, IsByte, length, arith, Option-cases, Bool-cases,
  ◌==◌, ==_iff, inl, inr,
}
use sigv4_verify.Hex.{append_hex_lower, hex_lower_lem}
use sigv4_verify.Signing.Defs.{decode_pairs, decode_signature}

decode_pairs-length :
    (value : Bytes) {out : Bytes} → decode_pairs value ≡ some out → 2 * length out ≡ length value
unfolding decode_pairs
decode_pairs-length [] h = ground arith
decode_pairs-length (hi ∷ []) h = ground arith
decode_pairs-length (hi ∷ lo ∷ r) h = elim (Option-cases (decode_pairs r)) [
  | inl bad ↦ ground arith
  | inr (rest, good) ↦ ground (arith, decode_pairs-length r good)
]

-- A decoded signature has 32 bytes.
pub decode_signature-length :
    (value : Bytes) {out : Bytes} → decode_signature value ≡ some out → length out ≡ 32
unfolding decode_signature
decode_signature-length value {out} h = elim (Bool-cases (length value == 64)) [
  | inr other ↦ let absurd : none ≡ some out = rw other at h in cc
  | inl right ↦
      let decoded : decode_pairs value ≡ some out = rw right at h in
      let q = decode_pairs-length value decoded in
      let long : length value ≡ 64 = (==_iff (length value) 64).0 right in omega arith
]

pub length-append_hex_lower : (bytes : Bytes) → length (append_hex_lower bytes) ≡ 2 * length bytes
unfolding append_hex_lower
length-append_hex_lower [] = omega arith
length-append_hex_lower (b ∷ r) = omega (arith, length-append_hex_lower r)

decode_pairs-append_hex_lower :
    (bytes : Bytes) → All IsByte bytes → decode_pairs (append_hex_lower bytes) ≡ some bytes
unfolding decode_pairs append_hex_lower
decode_pairs-append_hex_lower [] h = refl
decode_pairs-append_hex_lower (b ∷ r) (hb, hr) =
    let (hi, lo, value) = hex_lower_lem b hb in
    rw (hi, lo, decode_pairs-append_hex_lower r hr, value) refl

-- Decoding the lower-case hexadecimal form of 32 bytes gives the bytes back.
pub decode_signature-append_hex_lower :
    (bytes : Bytes)
    → All IsByte bytes
    → length bytes ≡ 32
    → decode_signature (append_hex_lower bytes) ≡ some bytes
unfolding decode_signature
decode_signature-append_hex_lower bytes h k =
    let long : length (append_hex_lower bytes) ≡ 64 =
      omega (arith, length-append_hex_lower bytes, k) in
    rw long (decode_pairs-append_hex_lower bytes h)
