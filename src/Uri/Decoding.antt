-- ===== src/Uri/Decoding.antt =====
-- `percent_decode` of a path and of its canonical form.
use sigv4_verify.Base.{
  ℕ, ◌≡◌, ◌≢◌, refl, true, [], ◌∷◌, arith, Bytes, ok, err, All, IsByte, decide_eq, inl, inr,
}
use sigv4_verify.Hex.{is_hex, hex_byte, upper_hex, hex_byte-upper_hex, is_hex-upper_hex}
use sigv4_verify.Percent.{UriResult, percent_decode, push}
use sigv4_verify.Percent.Decode.{percent_decode-plain, percent_decode-escape, escape_or_err}
use sigv4_verify.Uri.Defs.{canonical_loop, canonical_uri_from_valid_path}
use sigv4_verify.Uri.Canonical.{
  keep_byte, canonical_loop-plain, canonical_loop-escape, percent_decode-written,
  canonical_uri-canonical_loop,
}

-- `y` succeeds with what `x` succeeds with.
abbrev Keeps : UriResult Bytes → UriResult Bytes → Type 0
Keeps (ok d) y = y ≡ ok d
Keeps (err e) y = Unit

push-Keeps : (c : ℕ) (x y : UriResult Bytes) → Keeps x y → Keeps (push c x) (push c y)
push-Keeps c (ok d) y h = rw h
push-Keeps c (err e) y h = tt

keep_byte_lem :
    (c : ℕ) (rest : Bytes)
    → IsByte c
    → c ≢ b'%'
    → percent_decode (keep_byte c rest) ≡ push c (percent_decode rest)
unfolding keep_byte
keep_byte_lem c rest b h = ground (
  arith,
  percent_decode-plain c rest h,
  percent_decode-plain b'/' rest,
  percent_decode-written c rest b,
)

plain-Keeps :
    (c : ℕ) (r : Bytes)
    → IsByte c
    → c ≢ b'%'
    → Keeps (percent_decode r) (percent_decode (canonical_loop r))
    → Keeps (percent_decode (c ∷ r)) (percent_decode (canonical_loop (c ∷ r)))
plain-Keeps c r b h k =
    rw
      (
        percent_decode-plain c r h,
        canonical_loop-plain c r h,
        keep_byte_lem c (canonical_loop r) b h,
      )
      (push-Keeps c _ _ k)

escape-Keeps :
    (h l : ℕ) (r : Bytes)
    → is_hex h ≡ true
    → is_hex l ≡ true
    → Keeps (percent_decode r) (percent_decode (canonical_loop r))
    → Keeps (percent_decode (b'%' ∷ h ∷ l ∷ r)) (percent_decode (canonical_loop (b'%' ∷ h ∷ l ∷ r)))
escape-Keeps h l r p q k =
    rw
      (
        percent_decode-escape h l r p q,
        canonical_loop-escape h l r p q,
        percent_decode-escape (upper_hex h) (upper_hex l) (canonical_loop r) (is_hex-upper_hex h p)
            (is_hex-upper_hex l q),
        hex_byte-upper_hex h l p q,
      )
      (push-Keeps (hex_byte h l) _ _ k)

canonical_loop-Keeps :
    (p : Bytes) → All IsByte p → Keeps (percent_decode p) (percent_decode (canonical_loop p))
canonical_loop-Keeps [] b = unfold canonical_loop percent_decode in refl
canonical_loop-Keeps (c ∷ h ∷ l ∷ r) (bc, br) = elim (decide_eq c b'%') [
  | inr plain ↦ plain-Keeps c (h ∷ l ∷ r) bc plain (canonical_loop-Keeps (h ∷ l ∷ r) br)
  | inl e ↦ rw e (elim (escape_or_err h l r) [
    | inl (p, q) ↦ escape-Keeps h l r p q (canonical_loop-Keeps r br.1.1)
    | inr bad ↦ rw bad tt
  ])
]
canonical_loop-Keeps (c ∷ r) (bc, br) = elim (decide_eq c b'%') [
  | inr plain ↦ plain-Keeps c r bc plain (canonical_loop-Keeps r br)
  | inl e ↦ rw e (unfold percent_decode in tt)
]

-- If a path of bytes percent-decodes, its canonical form decodes to the same bytes.
pub canonical_uri_decodes :
    (p : Bytes) {d : Bytes}
    → All IsByte p
    → percent_decode p ≡ ok d
    → percent_decode (canonical_uri_from_valid_path p) ≡ ok d
canonical_uri_decodes p b h =
    rw (canonical_uri-canonical_loop p) (unwrap (percent_decode p) h (canonical_loop-Keeps p b))
  where
    unwrap :
        (x : UriResult Bytes) {d : Bytes}
        → x ≡ ok d
        → Keeps x (percent_decode (canonical_loop p))
        → percent_decode (canonical_loop p) ≡ ok d
    unwrap (ok y) h k = cc
    unwrap (err y) h k = cc
