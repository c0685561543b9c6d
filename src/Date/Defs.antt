-- ===== src/Date/Defs.antt =====
-- `parse_amz_date` and the calendar. The fields of a date are `i32` and `u32`: the arithmetic of
-- `days_from_civil` wraps around, as the release build's does. `epoch_seconds` is an `i64` with
-- saturating arithmetic.
use sigv4_verify.Base.{
  ℕ, ◌+◌, ◌-◌, ◌*◌, ◌^◌, ◌%◌, Bool, not, ◌&&◌, ◌||◌, Option, none, some, [], ◌∷◌, Bytes, ltb, leb,
  ◌==◌, if◌then◌else◌, length, take, drop, get_or,
}
use sigv4_verify.Base.Int.{ℤ, pos, negsuc, ◌+ℤ◌, ◌-ℤ◌, ◌*ℤ◌, ◌/ℤ◌, ◌%ℤ◌, ltb_ℤ, eqb_ℤ, saturate}
use sigv4_verify.Hex.{is_ascii_digit}

pub record ParsedAmzDate : Type 0 where
  pub date : Bytes
  pub epoch_seconds : ℤ

abbrev cap_at : ℕ → ℕ → ℕ
cap_at max n = if ltb max n then max else n

-- The loop of `parse_digits_i32` and `parse_digits_u32`: `max` is the type's greatest value.
unfoldable pub parse_digits_loop : ℕ → ℕ → Bytes → Option ℕ
parse_digits_loop max out [] = some out
parse_digits_loop max out (b ∷ bytes) =
    let next = cap_at max (cap_at max (out * 10) + (b - b'0')) in
    let rest = parse_digits_loop max next bytes in if not (is_ascii_digit b) then none else rest

unfoldable pub parse_digits_i32 : Bytes → Option ℕ
parse_digits_i32 bytes = parse_digits_loop (2 ^ 31 - 1) 0 bytes

unfoldable pub parse_digits_u32 : Bytes → Option ℕ
parse_digits_u32 bytes = parse_digits_loop (2 ^ 32 - 1) 0 bytes

unfoldable pub is_leap_year : ℤ → Bool
unfolding ◌%ℤ◌
is_leap_year year =
    (eqb_ℤ (year %ℤ 4) (pos 0) && not (eqb_ℤ (year %ℤ 100) (pos 0))) || eqb_ℤ (year %ℤ 400) (pos 0)

unfoldable pub days_in_month : ℤ → ℕ → ℕ
unfolding is_leap_year
days_in_month year month =
    if (month == 1)
      || (month == 3)
      || (month == 5)
      || (month == 7)
      || (month == 8)
      || (month == 10)
      || (month == 12)
    then 31
    else if (month == 4) || (month == 6) || (month == 9) || (month == 11)
    then 30
    else if (month == 2) && is_leap_year year
    then 29
    else if month == 2
    then 28
    else 0

-- What an `i32` holds of an integer: `as i32`, and the result of an operation that wraps around.
unfoldable pub i32_of_word : ℕ → ℤ
i32_of_word word = if ltb word (2 ^ 31) then pos word else negsuc (2 ^ 32 - 1 - word)

unfoldable pub wrap_i32 : ℤ → ℤ
unfolding i32_of_word
wrap_i32 (pos n) = i32_of_word (n % 2 ^ 32)
wrap_i32 (negsuc n) = i32_of_word (2 ^ 32 - 1 - n % 2 ^ 32)

-- `if year >= 0 { year } else { year - 399 } / 400`.
unfoldable pub era_of : ℤ → ℤ
unfolding wrap_i32
era_of year = (if ltb_ℤ year (pos 0) then wrap_i32 (year -ℤ pos 399) else year) /ℤ 400

-- The second half of `days_from_civil`, from `let era` on, with `mp` and `day` computed before. The
-- last line is in `i64`, which the values of an `i32` do not overflow there.
unfoldable pub days_from_march : ℤ → ℤ → ℤ → ℤ
unfolding era_of wrap_i32
days_from_march year mp day =
    let era = era_of year in
    let yoe = wrap_i32 (year -ℤ wrap_i32 (era *ℤ pos 400)) in
    let months = wrap_i32 (wrap_i32 (pos 153 *ℤ mp) +ℤ pos 2) /ℤ 5 in
    let doy = wrap_i32 (wrap_i32 (months +ℤ day) -ℤ pos 1) in
    let years = wrap_i32 (wrap_i32 (wrap_i32 (yoe *ℤ pos 365) +ℤ yoe /ℤ 4) -ℤ yoe /ℤ 100) in
    let doe = wrap_i32 (years +ℤ doy) in era *ℤ pos 146_097 +ℤ doe -ℤ pos 719_468

-- The days since 1970-01-01 in the proleptic Gregorian calendar.
unfoldable pub days_from_civil : ℤ → ℕ → ℕ → ℤ
unfolding days_from_march wrap_i32
days_from_civil year month day =
    days_from_march (wrap_i32 (year -ℤ pos (if leb month 2 then 1 else 0)))
      (wrap_i32 (wrap_i32 (pos month) +ℤ (if ltb 2 month then negsuc 2 else pos 9)))
      (wrap_i32 (pos day))

-- `b[i]` and `b[i..j]`.
abbrev pub at : ℕ → Bytes → ℕ
at i b = get_or b i 0

abbrev pub slice : ℕ → ℕ → Bytes → Bytes
slice i j b = take (j - i) (drop i b)

infixl 5 ◌>>=◌
abbrev pub ◌>>=◌ {ℓ κ} : {A : Type ℓ} {B : Type κ} → Option A → (A → Option B) → Option B
none >>= f = none
some a >>= f = f a

unfoldable pub in_calendar : ℕ → ℕ → ℕ → ℕ → ℕ → ℕ → Bool
unfolding days_in_month
in_calendar year month day hour minute second = not (
    (month == 0)
    || ltb 12 month
    || (day == 0)
    || ltb (days_in_month (pos year) month) day
    || ltb 23 hour
    || ltb 59 minute
    || ltb 59 second)

unfoldable pub epoch_of : ℤ → ℕ → ℕ → ℕ → ℤ
epoch_of days hour minute second = saturate (
    saturate (saturate (saturate (days *ℤ pos 86_400) +ℤ pos (hour * 3_600)) +ℤ pos (minute * 60))
    +ℤ pos second)

unfoldable pub parse_amz_date : Bytes → Option ParsedAmzDate
unfolding parse_digits_i32 parse_digits_u32 in_calendar epoch_of days_from_civil
parse_amz_date b =
    if not (length b == 16) || not (at 8 b == b'T') || not (at 15 b == b'Z') then none else do
      year ← parse_digits_i32 (slice 0 4 b)
      month ← parse_digits_u32 (slice 4 6 b)
      day ← parse_digits_u32 (slice 6 8 b)
      hour ← parse_digits_u32 (slice 9 11 b)
      minute ← parse_digits_u32 (slice 11 13 b)
      second ← parse_digits_u32 (slice 13 15 b)
      if not (in_calendar year month day hour minute second)
          then none
          else some (record {
            date = take 8 b;
            epoch_seconds = epoch_of (days_from_civil (pos year) month day) hour minute second;
          })
