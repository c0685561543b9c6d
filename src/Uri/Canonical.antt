-- ===== src/Uri/Canonical.antt =====
-- The borrowed and the rebuilt canonical path are the same function, and it keeps the meaning.
use sigv4_verify.Base.{
  ℕ, ◌/◌, ◌%◌, ◌≡◌, ◌≢◌, refl, true, false, ◌||◌, [], ◌∷◌, ◌++◌, arith, Bytes, ◌==◌, if◌then◌else◌,
  All, IsByte, Bool-cases, inl, inr,
}
use sigv4_verify.Hex.{
  is_unreserved, is_hex, hex_upper, upper_hex, write_escaped_byte, unreserved_plain, hex_upper_lem,
  is_hex-upper_hex, upper_hex_idem,
}
use sigv4_verify.Percent.{percent_decode, push}
use sigv4_verify.Percent.Decode.{percent_decode-escape}
use sigv4_verify.Uri.Defs.{canonical_loop, is_canonical_path, canonical_uri_from_valid_path}

pub is_canonical-plain :
    (c : ℕ) (r : Bytes)
    → ((c == b'/') || is_unreserved c) ≡ true
    → is_canonical_path (c ∷ r) ≡ is_canonical_path r
unfolding is_canonical_path
is_canonical-plain c [] h = ground arith
is_canonical-plain c (x ∷ []) h = ground arith
is_canonical-plain c (x ∷ y ∷ r) h = ground arith

-- One unescaped byte, kept or escaped, is read as itself.
unfoldable pub keep_byte : ℕ → Bytes → Bytes
keep_byte c rest =
    if c == b'/'
    then b'/' ∷ rest
    else if is_unreserved c
    then c ∷ rest
    else write_escaped_byte c ++ rest

pub canonical_loop-plain :
    (c : ℕ) (r : Bytes) → c ≢ b'%' → canonical_loop (c ∷ r) ≡ keep_byte c (canonical_loop r)
unfolding canonical_loop keep_byte
canonical_loop-plain c [] h = ground arith
canonical_loop-plain c (x ∷ []) h = ground arith
canonical_loop-plain c (x ∷ y ∷ r) h = ground arith

pub canonical_loop-escape :
    (h l : ℕ) (r : Bytes)
    → is_hex h ≡ true
    → is_hex l ≡ true
    → canonical_loop (b'%' ∷ h ∷ l ∷ r) ≡ b'%' ∷ upper_hex h ∷ upper_hex l ∷ canonical_loop r
unfolding canonical_loop
canonical_loop-escape h l r p q = ground arith

pub kept_plain : (c : ℕ) → ((c == b'/') || is_unreserved c) ≡ true → c ≢ b'%'
kept_plain c h = ground (arith, unreserved_plain c)

fixed_plain :
    (c : ℕ) (r : Bytes)
    → ((c == b'/') || is_unreserved c) ≡ true
    → canonical_loop r ≡ r
    → canonical_loop (c ∷ r) ≡ c ∷ r
unfolding keep_byte
fixed_plain c r g e = rw (canonical_loop-plain c r (kept_plain c g), e) (ground arith)

-- What `is_canonical_path` has tested at a byte that does not stand for itself.
pub canonical_escape :
    (c h l : ℕ) (r : Bytes)
    → ((c == b'/') || is_unreserved c) ≡ false
    → is_canonical_path (c ∷ h ∷ l ∷ r) ≡ true
    → (c ≡ b'%')
      × (is_hex h ≡ true)
      × (is_hex l ≡ true)
      × (upper_hex h ≡ h)
      × (upper_hex l ≡ l)
      × (is_canonical_path r ≡ true)
unfolding is_canonical_path
canonical_escape c h l r g e = ground arith

fixed_escape :
    (c h l : ℕ) (r : Bytes)
    → ((c == b'/') || is_unreserved c) ≡ false
    → is_canonical_path (c ∷ h ∷ l ∷ r) ≡ true
    → canonical_loop r ≡ r
    → canonical_loop (c ∷ h ∷ l ∷ r) ≡ c ∷ h ∷ l ∷ r
fixed_escape c h l r g e ih =
    let (x, y, z, u, v, k) = canonical_escape c h l r g e in
    rw (x, canonical_loop-escape h l r y z, ih, u, v)

-- A path in canonical form is rebuilt unchanged.
canonical_loop_fixed : (p : Bytes) → is_canonical_path p ≡ true → canonical_loop p ≡ p
canonical_loop_fixed [] h = unfold canonical_loop in refl
canonical_loop_fixed (c ∷ h ∷ l ∷ r) e = elim (Bool-cases ((c == b'/') || is_unreserved c)) [
  | inl g ↦
      fixed_plain c (h ∷ l ∷ r) g
        (canonical_loop_fixed (h ∷ l ∷ r) (rw (is_canonical-plain c (h ∷ l ∷ r) g) at e))
  | inr g ↦ fixed_escape c h l r g e (canonical_loop_fixed r (canonical_escape c h l r g e).5)
]
canonical_loop_fixed (c ∷ r) e = elim (Bool-cases ((c == b'/') || is_unreserved c)) [
  | inl g ↦ fixed_plain c r g (canonical_loop_fixed r (rw (is_canonical-plain c r g) at e))
  | inr g ↦ unfold is_canonical_path in ground arith
]

-- canonical_uri_from_valid_path returns what its rebuilding loop returns, also where it borrows
-- the path.
pub canonical_uri-canonical_loop : (p : Bytes) → canonical_uri_from_valid_path p ≡ canonical_loop p
unfolding canonical_uri_from_valid_path
canonical_uri-canonical_loop p = ground (arith, canonical_loop_fixed p)

is_canonical-escape :
    (h l : ℕ) (r : Bytes)
    → is_hex h ≡ true
    → is_hex l ≡ true
    → upper_hex h ≡ h
    → upper_hex l ≡ l
    → is_canonical_path (b'%' ∷ h ∷ l ∷ r) ≡ is_canonical_path r
unfolding is_canonical_path is_unreserved
is_canonical-escape h l r p q u v = ground arith

is_canonical-written :
    (c : ℕ) (r : Bytes)
    → IsByte c
    → is_canonical_path (write_escaped_byte c ++ r) ≡ is_canonical_path r
unfolding write_escaped_byte
is_canonical-written c r h =
    let (x, y, z, u, v) = hex_upper_lem c h in
    is_canonical-escape (hex_upper (c / 16)) (hex_upper (c % 16)) r x y u v

pub percent_decode-written :
    (c : ℕ) (r : Bytes)
    → IsByte c
    → percent_decode (write_escaped_byte c ++ r) ≡ push c (percent_decode r)
unfolding write_escaped_byte
percent_decode-written c r h =
    let (x, y, z, u, v) = hex_upper_lem c h in
    ground (arith, percent_decode-escape (hex_upper (c / 16)) (hex_upper (c % 16)) r x y)

-- The rebuilt path is in canonical form.
canonical_loop_canonical : (p : Bytes) → All IsByte p → is_canonical_path (canonical_loop p) ≡ true
unfolding canonical_loop
canonical_loop_canonical [] b = unfold is_canonical_path in refl
canonical_loop_canonical (c ∷ h ∷ l ∷ r) (bc, br) = ground (
  arith,
  canonical_loop_canonical (h ∷ l ∷ r) br,
  canonical_loop_canonical r br.1.1,
  is_canonical-plain c (canonical_loop (h ∷ l ∷ r)),
  is_canonical-plain b'/' (canonical_loop (h ∷ l ∷ r)),
  is_canonical-written c (canonical_loop (h ∷ l ∷ r)) bc,
  is_canonical-escape (upper_hex h) (upper_hex l) (canonical_loop r),
  is_hex-upper_hex h,
  is_hex-upper_hex l,
  upper_hex_idem h,
  upper_hex_idem l,
)
canonical_loop_canonical (c ∷ r) (bc, br) = ground (
  arith,
  canonical_loop_canonical r br,
  is_canonical-plain c (canonical_loop r),
  is_canonical-plain b'/' (canonical_loop r),
  is_canonical-written c (canonical_loop r) bc,
)

-- The canonical form of a path of bytes is accepted by is_canonical_path and is its own canonical
-- form.
pub canonical_uri_idem :
    (p : Bytes)
    → All IsByte p
    → (is_canonical_path (canonical_uri_from_valid_path p) ≡ true)
      × (canonical_uri_from_valid_path (canonical_uri_from_valid_path p)
          ≡ canonical_uri_from_valid_path p)
canonical_uri_idem p b =
    let fixed = canonical_loop_canonical p b in
    rw (canonical_uri-canonical_loop p, canonical_uri-canonical_loop (canonical_loop p))
      (fixed, canonical_loop_fixed (canonical_loop p) fixed)
