-- ===== src/Text/Decimal.antt =====
-- `str::parse::<u64>`: an optional plus sign, then digits; no digits and overflow are errors.
use sigv4_verify.Base.{
  ℕ, zero, suc, ◌+◌, ◌-◌, ◌*◌, ◌/◌, ◌%◌, ◌^◌, ltb, Option, none, some, [], ◌∷◌, Bytes, leb, ◌==◌,
  if◌then◌else◌,
}
use sigv4_verify.Hex.{is_ascii_digit}

-- The digits after `n`, where the value must stay below 2^64.
unfoldable pub u64_digits : ℕ → Bytes → Option ℕ
u64_digits n [] = some n
u64_digits n (c ∷ r) =
    let next = n * 10 + (c - b'0') in
    let rest = u64_digits next r in
    if is_ascii_digit c then (if leb (2 ^ 64) next then none else rest) else none

unfoldable pub parse_u64 : Bytes → Option ℕ
unfolding u64_digits
parse_u64 [] = none
parse_u64 (c ∷ []) = u64_digits 0 (c ∷ [])
parse_u64 (c ∷ d ∷ r) = if c == b'+' then u64_digits 0 (d ∷ r) else u64_digits 0 (c ∷ d ∷ r)

-- `u64::to_string`: the digits from the last on, at most twenty.
unfoldable pub decimal_loop : ℕ → ℕ → Bytes → Bytes
decimal_loop zero n out = out
decimal_loop (suc fuel) n out =
    let last = b'0' + n % 10 in
    let rest = decimal_loop fuel (n / 10) (last ∷ out) in if ltb n 10 then last ∷ out else rest

unfoldable pub to_string : ℕ → Bytes
unfolding decimal_loop
to_string n = decimal_loop 20 n []
