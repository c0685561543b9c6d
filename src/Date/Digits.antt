-- ===== src/Date/Digits.antt =====
-- The pieces that `parse_amz_date` cuts its text into, and the digits they are read from.
use sigv4_verify.Base.{
  ℕ, zero, suc, ◌+◌, ◌-◌, ◌*◌, ◌/◌, ◌%◌, ◌^◌, ◌≤◌, ◌<◌, ◌≡◌, refl, some, [], ◌∷◌, ◌++◌, Bytes,
  arith, length,
}
use sigv4_verify.Date.Defs.{at, slice, parse_digits_loop, parse_digits_i32, parse_digits_u32}
use sigv4_verify.Date.Parse.{four_digits, two_digits}

-- A predicate of every sequence of `n` bytes, byte by byte.
abbrev ForBytes : ℕ → (Bytes → Type 0) → Type 0
ForBytes zero P = P []
ForBytes (suc n) P = (b : ℕ) → ForBytes n (λ bytes. P (b ∷ bytes))

by_bytes : (n : ℕ) (P : Bytes → Type 0) (bytes : Bytes) → ForBytes n P → length bytes ≡ n → P bytes
by_bytes zero P [] h q = h
by_bytes zero P (b ∷ bytes) h q = ground arith
by_bytes (suc n) P [] h q = ground arith
by_bytes (suc n) P (b ∷ bytes) h q =
    by_bytes n (λ rest. P (b ∷ rest)) bytes (h b) (omega (arith, q))

pub two_digits_of :
    (bytes : Bytes) (n : ℕ)
    → length bytes ≡ 2
    → parse_digits_u32 bytes ≡ some n
    → (bytes ≡ two_digits n) × (n < 100)
unfolding parse_digits_u32 parse_digits_loop
two_digits_of bytes n q =
    by_bytes 2 (λ bs. parse_digits_u32 bs ≡ some n → (bs ≡ two_digits n) × (n < 100)) bytes
      (λ a b h. ground arith) q

-- One round of the loop.
digit_of :
    (out b : ℕ) (bytes : Bytes) (n : ℕ)
    → out < 1_000
    → parse_digits_loop (2 ^ 31 - 1) out (b ∷ bytes) ≡ some n
    → (b'0' ≤ b)
      × (b ≤ b'9')
      × (parse_digits_loop (2 ^ 31 - 1) (out * 10 + (b - b'0')) bytes ≡ some n)
unfolding parse_digits_loop
digit_of out b bytes n small h = ground arith

four_digits_lem :
    (a b c d n : ℕ)
    → parse_digits_i32 (a ∷ b ∷ c ∷ d ∷ []) ≡ some n
    → (a ∷ b ∷ c ∷ d ∷ [] ≡ four_digits n) × (n < 10_000)
unfolding parse_digits_i32
four_digits_lem a b c d n h =
    let (al, ah, h1) = digit_of 0 a (b ∷ c ∷ d ∷ []) n (omega arith) h in
    let (bl, bh, h2) = digit_of (0 * 10 + (a - b'0')) b (c ∷ d ∷ []) n (omega arith) h1 in
    let (cl, ch, h3) =
      digit_of ((0 * 10 + (a - b'0')) * 10 + (b - b'0')) c (d ∷ []) n (omega arith) h2 in
    let (dl, dh, h4) =
      digit_of (((0 * 10 + (a - b'0')) * 10 + (b - b'0')) * 10 + (c - b'0')) d [] n (omega arith)
        h3 in
    let value : (((0 * 10 + (a - b'0')) * 10 + (b - b'0')) * 10 + (c - b'0')) * 10 + (d - b'0')
        ≡ n =
      unfold parse_digits_loop in ground arith in
    let a' : a ≡ b'0' + n / 1_000 = omega arith in
    let b' : b ≡ b'0' + n / 100 % 10 = omega arith in
    let c' : c ≡ b'0' + n / 10 % 10 = omega arith in
    let d' : d ≡ b'0' + n % 10 = omega arith in (rw (← a', ← b', ← c', ← d') refl, omega arith)

pub four_digits_of :
    (bytes : Bytes) (n : ℕ)
    → length bytes ≡ 4
    → parse_digits_i32 bytes ≡ some n
    → (bytes ≡ four_digits n) × (n < 10_000)
four_digits_of bytes n q =
    by_bytes 4 (λ bs. parse_digits_i32 bs ≡ some n → (bs ≡ four_digits n) × (n < 10_000)) bytes
      (λ a b c d. four_digits_lem a b c d n) q

-- The sixteen bytes, cut as the parser cuts them.
pub cut :
    (b : Bytes)
    → length b ≡ 16
    → b
      ≡ (slice 0 4 b ++ slice 4 6 b ++ slice 6 8 b)
        ++ (at 8 b ∷ slice 9 11 b ++ slice 11 13 b ++ slice 13 15 b ++ (at 15 b ∷ []))
cut b q =
    by_bytes 16
      (λ b.
        b
        ≡ (slice 0 4 b ++ slice 4 6 b ++ slice 6 8 b)
          ++ (at 8 b ∷ slice 9 11 b ++ slice 11 13 b ++ slice 13 15 b ++ (at 15 b ∷ [])))
      b (λ a0 a1 a2 a3 a4 a5 a6 a7 a8 a9 a10 a11 a12 a13 a14 a15. refl) q

-- The lengths of the pieces.
abbrev pub Lengths : Bytes → Type 0
Lengths b =
    (length (slice 0 4 b) ≡ 4)
    × (length (slice 4 6 b) ≡ 2)
    × (length (slice 6 8 b) ≡ 2)
    × (length (slice 9 11 b) ≡ 2)
    × (length (slice 11 13 b) ≡ 2)
    × (length (slice 13 15 b) ≡ 2)

pub lengths : (b : Bytes) → length b ≡ 16 → Lengths b
lengths b q =
    by_bytes 16 Lengths b
      (λ a0 a1 a2 a3 a4 a5 a6 a7 a8 a9 a10 a11 a12 a13 a14 a15.
        (refl, refl, refl, refl, refl, refl))
      q
