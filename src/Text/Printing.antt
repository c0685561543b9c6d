-- ===== src/Text/Printing.antt =====
-- `u64::to_string` against `str::parse`.
use sigv4_verify.Base.{
  ℕ, zero, suc, ◌+◌, ◌-◌, ◌*◌, ◌/◌, ◌%◌, ◌^◌, ◌<◌, ◌≡◌, ◌≢◌, ◌∙◌, refl, true, false, some, [], ◌∷◌,
  Bytes, arith, ltb, leb, ◌==◌, inl, inr, Bool-cases,
}
use sigv4_verify.Hex.{is_ascii_digit}
use sigv4_verify.Text.Decimal.{u64_digits, parse_u64, decimal_loop, to_string}

-- Numbers of at most so many digits.
abbrev pub ten_to : ℕ → ℕ
ten_to zero = 1
ten_to (suc k) = 10 * ten_to k

digit_step :
    (n : ℕ) (out : Bytes)
    → n < 2 ^ 64
    → u64_digits (n / 10) ((b'0' + n % 10) ∷ out) ≡ u64_digits n out
unfolding u64_digits
digit_step n out h =
    let digit : is_ascii_digit (b'0' + n % 10) ≡ true = ground arith in
    let value : n / 10 * 10 + (b'0' + n % 10 - b'0') ≡ n = omega arith in
    let fits : leb (2 ^ 64) n ≡ false = ground arith in rw (digit, value, fits) refl

first_digit :
    (n : ℕ) (out : Bytes) → n < 10 → u64_digits 0 ((b'0' + n % 10) ∷ out) ≡ u64_digits n out
first_digit n out h =
    let none_left : n / 10 ≡ 0 = omega arith in rw none_left at (digit_step n out (omega arith))

u64_digits-decimal_loop :
    (fuel n : ℕ) (out : Bytes)
    → n < ten_to (suc fuel)
    → n < 2 ^ 64
    → u64_digits 0 (decimal_loop (suc fuel) n out) ≡ u64_digits n out
unfolding decimal_loop
u64_digits-decimal_loop zero n out h k =
    let small : ltb n 10 ≡ true = ground arith in rw small (first_digit n out h)
u64_digits-decimal_loop (suc fuel) n out h k = elim (Bool-cases (ltb n 10)) [
  | inl small ↦ rw small (first_digit n out (ground arith))
  | inr large ↦ rw large (
      u64_digits-decimal_loop fuel (n / 10) ((b'0' + n % 10) ∷ out) (omega arith) (omega arith)
      ∙ digit_step n out k)
]

-- The first byte is a digit, so no sign is read.
starts_with_digit :
    (fuel n : ℕ) (out : Bytes)
    → (c : ℕ) × (r : Bytes) × (decimal_loop (suc fuel) n out ≡ c ∷ r) × (c ≢ b'+')
unfolding decimal_loop
starts_with_digit zero n out = (b'0' + n % 10, out, ground arith, omega arith)
starts_with_digit (suc fuel) n out = elim (Bool-cases (ltb n 10)) [
  | inl small ↦ (b'0' + n % 10, out, rw small refl, omega arith)
  | inr large ↦
      let (c, r, printed, plus) = starts_with_digit fuel (n / 10) ((b'0' + n % 10) ∷ out) in
      (c, r, rw large printed, plus)
]

parse_u64-unsigned : (c : ℕ) (r : Bytes) → c ≢ b'+' → parse_u64 (c ∷ r) ≡ u64_digits 0 (c ∷ r)
unfolding parse_u64
parse_u64-unsigned c [] h = refl
parse_u64-unsigned c (d ∷ r) h =
    let unsigned : (c == b'+') ≡ false = ground arith in rw unsigned refl

-- thm
pub parse_u64-to_string : (n : ℕ) → n < 2 ^ 64 → parse_u64 (to_string n) ≡ some n
unfolding to_string u64_digits
parse_u64-to_string n h =
    let (c, r, printed, plus) = starts_with_digit 19 n [] in
    rw printed (
      parse_u64-unsigned c r plus ∙ rw printed at (u64_digits-decimal_loop 19 n [] (omega arith) h))
