-- ===== src/Uri/Segments.antt =====
-- What a validated path guarantees, segment by segment.
use sigv4_verify.Base.{
  ℕ, ◌<◌, ◌≡◌, ◌≢◌, refl, true, false, List, [], ◌∷◌, arith, Bytes, ok, All, decide_eq, inl, inr,
}
use sigv4_verify.Hex.{is_hex, hex_byte, upper_hex, from_hex, hex_byte_value}
use sigv4_verify.Percent.{percent_decode}
use sigv4_verify.Percent.Decode.{percent_decode-plain, percent_decode-escape}
use sigv4_verify.Text.{split, cons_head}
use sigv4_verify.Text.Split.{Lacks}
use sigv4_verify.Uri.Defs.{validate_bytes, is_encoded_separator}

-- The segment decodes, to bytes among which there is no slash.
abbrev pub DecodesClean : Bytes → Type 0
DecodesClean s = (d : Bytes) × (percent_decode s ≡ ok d) × Lacks b'/' d

clean-plain : (c : ℕ) (s : Bytes) → c ≢ b'%' → c ≢ b'/' → DecodesClean s → DecodesClean (c ∷ s)
clean-plain c s p q (d, e, a) = (c ∷ d, rw (percent_decode-plain c s p, e), (q, a))

-- An escape that is no encoded separator does not decode to a slash.
hex_byte-ne-slash :
    (h l : ℕ)
    → is_hex h ≡ true
    → is_hex l ≡ true
    → is_encoded_separator h l ≡ false
    → hex_byte h l ≢ b'/'
unfolding is_hex from_hex upper_hex
hex_byte-ne-slash h l p q n = ground (arith, hex_byte_value h l p q)

clean-escape :
    (h l : ℕ) (s : Bytes)
    → is_hex h ≡ true
    → is_hex l ≡ true
    → is_encoded_separator h l ≡ false
    → DecodesClean s
    → DecodesClean (b'%' ∷ h ∷ l ∷ s)
clean-escape h l s p q n (d, e, a) =
    (hex_byte h l ∷ d, rw (percent_decode-escape h l s p q, e), (hex_byte-ne-slash h l p q n, a))

clean-nil : DecodesClean []
unfolding percent_decode
clean-nil = ([], refl, tt)

pub validate-visible :
    (c : ℕ) (r : Bytes) → validate_bytes (c ∷ r) ≡ ok tt → (0x20 < c) × (c ≢ 0x7f)
unfolding validate_bytes
validate-visible c [] e = ground arith
validate-visible c (x ∷ []) e = ground arith
validate-visible c (x ∷ y ∷ r) e = ground arith

pub is_hex-visible : (h : ℕ) → is_hex h ≡ true → (0x20 < h) × (h ≢ 0x7f)
unfolding is_hex
is_hex-visible h p = ground arith

-- What the first loop has tested at one byte.
pub validate-plain :
    (c : ℕ) (r : Bytes) → c ≢ b'%' → validate_bytes (c ∷ r) ≡ ok tt → validate_bytes r ≡ ok tt
unfolding validate_bytes
validate-plain c [] h e = ground arith
validate-plain c (x ∷ []) h e = ground arith
validate-plain c (x ∷ y ∷ r) h e = ground arith

pub validate-escape :
    (h l : ℕ) (r : Bytes)
    → validate_bytes (b'%' ∷ h ∷ l ∷ r) ≡ ok tt
    → (is_hex h ≡ true)
      × (is_hex l ≡ true)
      × (is_encoded_separator h l ≡ false)
      × (validate_bytes r ≡ ok tt)
unfolding validate_bytes
validate-escape h l r e = ground arith

split-delimiter : (r : Bytes) → split b'/' (b'/' ∷ r) ≡ [] ∷ split b'/' r
unfolding split
split-delimiter r = refl

split-plain : (c : ℕ) (r : Bytes) → c ≢ b'/' → split b'/' (c ∷ r) ≡ cons_head c (split b'/' r)
unfolding split
split-plain c r h = ground arith

-- Prepending to the first segment keeps every segment clean, if it keeps a segment clean.
clean-cons_head :
    (c : ℕ) (ps : List Bytes)
    → ((s : Bytes) → DecodesClean s → DecodesClean (c ∷ s))
    → All DecodesClean ps
    → All DecodesClean (cons_head c ps)
clean-cons_head c [] f a = (f [] clean-nil, tt)
clean-cons_head c (p ∷ ps) f (a, rest) = (f p a, rest)

clean-escape_head :
    (h l : ℕ) (ps : List Bytes)
    → ((s : Bytes) → DecodesClean s → DecodesClean (b'%' ∷ h ∷ l ∷ s))
    → All DecodesClean ps
    → All DecodesClean (cons_head b'%' (cons_head h (cons_head l ps)))
clean-escape_head h l [] f a = (f [] clean-nil, tt)
clean-escape_head h l (p ∷ ps) f (a, rest) = (f p a, rest)

is_hex-ne-slash : (h : ℕ) → is_hex h ≡ true → h ≢ b'/'
unfolding is_hex
is_hex-ne-slash h p = ground arith

clean-one :
    (c : ℕ) (r : Bytes)
    → c ≢ b'%'
    → All DecodesClean (split b'/' r)
    → All DecodesClean (split b'/' (c ∷ r))
clean-one c r p a = elim (decide_eq c b'/') [
  | inl e ↦ rw (e, split-delimiter r) (clean-nil, a)
  | inr q ↦ rw (split-plain c r q) (clean-cons_head c (split b'/' r) (λ s. clean-plain c s p q) a)
]

clean-triple :
    (h l : ℕ) (r : Bytes)
    → is_hex h ≡ true
    → is_hex l ≡ true
    → is_encoded_separator h l ≡ false
    → All DecodesClean (split b'/' r)
    → All DecodesClean (split b'/' (b'%' ∷ h ∷ l ∷ r))
clean-triple h l r p q n a =
    rw
      (
        split-plain b'%' (h ∷ l ∷ r) (omega arith),
        split-plain h (l ∷ r) (is_hex-ne-slash h p),
        split-plain l r (is_hex-ne-slash l q),
      )
      (clean-escape_head h l (split b'/' r) (λ s. clean-escape h l s p q n) a)

-- Where the first loop accepts, every segment decodes and no escape hides a slash.
pub validate_bytes-clean : (r : Bytes) → validate_bytes r ≡ ok tt → All DecodesClean (split b'/' r)
validate_bytes-clean [] e = unfold split in (clean-nil, tt)
validate_bytes-clean (c ∷ h ∷ l ∷ r) e = elim (decide_eq c b'%') [
  | inr p ↦
      clean-one c (h ∷ l ∷ r) p
        (validate_bytes-clean (h ∷ l ∷ r) (validate-plain c (h ∷ l ∷ r) p e))
  | inl p ↦
      let e' : validate_bytes (b'%' ∷ h ∷ l ∷ r) ≡ ok tt = rw p at e in
      let (x, y, n, k) = validate-escape h l r e' in
      rw p (clean-triple h l r x y n (validate_bytes-clean r k))
]
validate_bytes-clean (c ∷ r) e = elim (decide_eq c b'%') [
  | inr p ↦ clean-one c r p (validate_bytes-clean r (validate-plain c r p e))
  | inl p ↦ unfold validate_bytes in ground arith
]
