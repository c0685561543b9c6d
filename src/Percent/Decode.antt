-- ===== src/Percent/Decode.antt =====
-- `percent_decode` one byte or one escape at a time, and on the encoding of bytes.
use sigv4_verify.Base.{
  ℕ, ◌/◌, ◌%◌, ◌≡◌, ◌⊎◌, ◌≢◌, refl, true, [], ◌∷◌, ◌++◌, arith, Bytes, ◌==◌, ok, err, All, IsByte,
  Bool-cases, inl, inr,
}
use sigv4_verify.Hex.{
  is_unreserved, is_hex, hex_byte, hex_upper, write_escaped_byte, unreserved_plain, hex_upper_lem,
  hex_byte-lt,
}
use sigv4_verify.Percent.Defs.{UriResult, uri_error, push, percent_decode, encode_byte}

-- The canonical encoding of decoded bytes.
abbrev pub encode : Bytes → Bytes
encode [] = []
encode (b ∷ d) = encode_byte b ++ encode d

pub percent_decode-plain :
    (c : ℕ) (r : Bytes) → c ≢ b'%' → percent_decode (c ∷ r) ≡ push c (percent_decode r)
unfolding percent_decode
percent_decode-plain c [] h = ground arith
percent_decode-plain c (x ∷ []) h = ground arith
percent_decode-plain c (x ∷ y ∷ r) h = ground arith

pub percent_decode-escape :
    (h l : ℕ) (r : Bytes)
    → is_hex h ≡ true
    → is_hex l ≡ true
    → percent_decode (b'%' ∷ h ∷ l ∷ r) ≡ push (hex_byte h l) (percent_decode r)
unfolding percent_decode
percent_decode-escape h l r p q = ground arith

-- An escape is two hex digits, or decoding fails.
pub escape_or_err :
    (h l : ℕ) (r : Bytes)
    → ((is_hex h ≡ true) × (is_hex l ≡ true)) ⊎ (percent_decode (b'%' ∷ h ∷ l ∷ r) ≡ err uri_error)
unfolding percent_decode
escape_or_err h l r = ground arith

-- What the encoder writes for one byte is read as that byte, whatever follows.
pub percent_decode-encode_byte :
    (b : ℕ) (r : Bytes) → IsByte b → percent_decode (encode_byte b ++ r) ≡ push b (percent_decode r)
unfolding encode_byte write_escaped_byte
percent_decode-encode_byte b r h = elim (Bool-cases (is_unreserved b)) [
  | inl u ↦ rw u (percent_decode-plain b r (unreserved_plain b u).0)
  | inr u ↦ rw u (
      ground (
        arith,
        hex_upper_lem b h,
        percent_decode-escape (hex_upper (b / 16)) (hex_upper (b % 16)) r,
      ))
]

-- Percent-decoding the encoding of a string of bytes gives the bytes back.
pub percent_decode-encode : (d : Bytes) → All IsByte d → percent_decode (encode d) ≡ ok d
unfolding percent_decode
percent_decode-encode [] h = refl
percent_decode-encode (b ∷ d) (hb, hd) =
    rw (percent_decode-encode_byte b (encode d) hb, percent_decode-encode d hd)

-- A result that, if it is one, consists of bytes.
abbrev pub OkBytes : UriResult Bytes → Type 0
OkBytes (ok d) = All IsByte d
OkBytes (err e) = Unit

push-OkBytes : (b : ℕ) (r : UriResult Bytes) → IsByte b → OkBytes r → OkBytes (push b r)
push-OkBytes b (ok d) hb hr = (hb, hr)
push-OkBytes b (err e) hb hr = tt

-- Decoding bytes gives bytes.
pub percent_decode-OkBytes : (raw : Bytes) → All IsByte raw → OkBytes (percent_decode raw)
unfolding percent_decode
percent_decode-OkBytes [] h = tt
percent_decode-OkBytes (c ∷ h ∷ l ∷ r) (bc, (bh, (bl, br))) =
    let rest = percent_decode-OkBytes (h ∷ l ∷ r) (bh, (bl, br)) in
    let after = percent_decode-OkBytes r br in
    elim (Bool-cases (c == b'%')) [
      | inr plain ↦ rw plain (push-OkBytes c (percent_decode (h ∷ l ∷ r)) bc rest)
      | inl e ↦ elim (Bool-cases (is_hex h)) [
        | inr x ↦ rw (e, x) tt
        | inl x ↦ elim (Bool-cases (is_hex l)) [
          | inr y ↦ rw (e, x, y) tt
          | inl y ↦
              rw (e, x, y)
                (push-OkBytes (hex_byte h l) (percent_decode r) (hex_byte-lt h l x y) after)
        ]
      ]
    ]
percent_decode-OkBytes (c ∷ r) (bc, br) =
    let rest = percent_decode-OkBytes r br in
    elim (Bool-cases (c == b'%')) [
      | inr plain ↦ rw plain (push-OkBytes c (percent_decode r) bc rest)
      | inl e ↦ rw e tt
    ]
