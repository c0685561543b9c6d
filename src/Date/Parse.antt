-- ===== src/Date/Parse.antt =====
-- `parse_amz_date` reads the format YYYYMMDD'T'HHMMSS'Z'.
use sigv4_verify.Base.{
  ℕ, zero, suc, ◌+◌, ◌*◌, ◌/◌, ◌%◌, ◌≤◌, ◌<◌, ◌≡◌, refl, true, some, [], ◌∷◌, ◌++◌, Bytes, arith,
}
use sigv4_verify.Base.Int.{pos, ◌+ℤ◌, ◌-ℤ◌, ◌*ℤ◌, saturate}
use sigv4_verify.Date.Defs.{
  parse_digits_loop, parse_digits_i32, parse_digits_u32, days_in_month, in_calendar, epoch_of,
  parse_amz_date,
}
use sigv4_verify.Date.Civil.{
  days_before_year, days_before_month, day_number, days_from_civil-day_number,
}

-- Numbers below 10 000 and below 100, in decimal.
abbrev pub four_digits : ℕ → Bytes
four_digits n =
    (b'0' + n / 1_000) ∷ (b'0' + n / 100 % 10) ∷ (b'0' + n / 10 % 10) ∷ (b'0' + n % 10) ∷ []

abbrev pub two_digits : ℕ → Bytes
two_digits n = (b'0' + n / 10) ∷ (b'0' + n % 10) ∷ []

abbrev pub print_date : ℕ → ℕ → ℕ → Bytes
print_date year month day = four_digits year ++ two_digits month ++ two_digits day

abbrev pub print_amz_date : ℕ → ℕ → ℕ → ℕ → ℕ → ℕ → Bytes
print_amz_date year month day hour minute second =
    print_date year month day
    ++ (b'T' ∷ two_digits hour ++ two_digits minute ++ two_digits second ++ (b'Z' ∷ []))

parse_digits_u32-two_digits : (n : ℕ) → n < 100 → parse_digits_u32 (two_digits n) ≡ some n
unfolding parse_digits_u32 parse_digits_loop
parse_digits_u32-two_digits n h = ground arith

parse_digits_i32-four_digits : (n : ℕ) → n < 10_000 → parse_digits_i32 (four_digits n) ≡ some n
unfolding parse_digits_i32 parse_digits_loop
parse_digits_i32-four_digits n h = ground arith

in_calendar-lem :
    (year month day hour minute second : ℕ)
    → 1 ≤ month
    → month ≤ 12
    → 1 ≤ day
    → day ≤ days_in_month (pos year) month
    → hour ≤ 23
    → minute ≤ 59
    → second ≤ 59
    → in_calendar year month day hour minute second ≡ true
unfolding in_calendar
in_calendar-lem year month day hour minute second a b c d e f g = ground arith

-- Four digits of a year keep every value far from the bounds of `i64`.
days_before_year-le : (y : ℕ) → days_before_year y ≤ 366 * y
days_before_year-le zero = omega arith
days_before_year-le (suc y) = ground (arith, days_before_year-le y)

pub days_in_month-le : (y m : ℕ) → days_in_month (pos y) m ≤ 31
unfolding days_in_month
days_in_month-le y m = ground arith

days_before_month-le : (y m : ℕ) → days_before_month y m ≤ 31 * m
days_before_month-le y zero = omega arith
days_before_month-le y (suc zero) = omega arith
days_before_month-le y (suc (suc m)) =
    omega (arith, days_before_month-le y (suc m), days_in_month-le y (suc m))

epoch_of-exact :
    (n hour minute second : ℕ)
    → n ≤ 4_000_000
    → hour ≤ 23
    → minute ≤ 59
    → second ≤ 59
    → epoch_of (pos n -ℤ pos 719_528) hour minute second
      ≡ (pos n -ℤ pos 719_528) *ℤ pos 86_400 +ℤ pos (hour * 3_600 + minute * 60 + second)
unfolding epoch_of saturate ◌+ℤ◌ ◌-ℤ◌ ◌*ℤ◌
epoch_of-exact n hour minute second a b c d = ground arith

-- Parsing the sixteen characters of a valid date and time of day gives the first eight characters
-- and, without saturation, the seconds since 1970 of that day and time.
pub parse_amz_date-print_amz_date :
    (year month day hour minute second : ℕ)
    → year < 10_000
    → 1 ≤ month
    → month ≤ 12
    → 1 ≤ day
    → day ≤ days_in_month (pos year) month
    → hour ≤ 23
    → minute ≤ 59
    → second ≤ 59
    → parse_amz_date (print_amz_date year month day hour minute second)
      ≡ some (record {
        date = print_date year month day;
        epoch_seconds =
            (pos (day_number year month day) -ℤ pos 719_528) *ℤ pos 86_400
            +ℤ pos (hour * 3_600 + minute * 60 + second);
      })
unfolding parse_amz_date
parse_amz_date-print_amz_date year month day hour minute second a b c d e f g h =
    let n = day_number year month day in
    let le : n ≤ 4_000_000 = omega (
      arith,
      days_before_year-le year,
      days_before_month-le year month,
      days_in_month-le year month,
    ) in
    rw
      (
        parse_digits_i32-four_digits year a,
        parse_digits_u32-two_digits month (omega arith),
        parse_digits_u32-two_digits day (omega (arith, days_in_month-le year month)),
        parse_digits_u32-two_digits hour (omega arith),
        parse_digits_u32-two_digits minute (omega arith),
        parse_digits_u32-two_digits second (omega arith),
        in_calendar-lem year month day hour minute second b c d e f g h,
        days_from_civil-day_number year month day (omega arith) b c d
            (omega (arith, days_in_month-le year month)),
        epoch_of-exact n hour minute second le f g h,
      )
      refl
