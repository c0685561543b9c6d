-- ===== src/Tests/DateTests.antt =====
-- The theorems of this component at concrete dates, and tests.
use sigv4_verify.Running.{running}
use sigv4_verify.Base.{◌+◌, ◌*◌, ◌^◌, ◌≡◌, ◌↔◌, refl, arith, codes, some, none}
use sigv4_verify.Base.Int.{pos, negsuc, ◌+ℤ◌, ◌-ℤ◌, ◌*ℤ◌}
use sigv4_verify.Date.{ParsedAmzDate, parse_amz_date, days_from_civil, days_in_month}
use sigv4_verify.Date.Civil.{day_number, days_from_civil-day_number}
use sigv4_verify.Date.Accepted.{IsPrinted, moment, parse_amz_date-IsPrinted}
use sigv4_verify.Date.Parse.{print_amz_date, print_date, parse_amz_date-print_amz_date}

epoch : days_from_civil (pos 1970) 1 1 ≡ pos 0
unfolding running
epoch = refl

day_before : days_from_civil (pos 1969) 12 31 ≡ negsuc 0
unfolding running
day_before = refl

no_leap_day : parse_amz_date (codes "21000229T000000Z") ≡ none
unfolding running
no_leap_day = refl

new_year :
    parse_amz_date (codes "20260102T030405Z")
    ≡ some (record { date = codes "20260102"; epoch_seconds = pos 1_767_323_045 })
unfolding running
new_year = refl

days_from_civil-day_number_example :
    days_from_civil (pos 2024) 2 29 ≡ pos (day_number 2024 2 29) -ℤ pos 719_528
days_from_civil-day_number_example =
    days_from_civil-day_number 2024 2 29 (omega arith) (omega arith) (omega arith) (omega arith)
      (omega arith)

-- Past the bounds of an `i32` the arithmetic wraps around.
wrapped_day : days_from_civil (pos 1970) 1 (2 ^ 32 + 1) ≡ pos 0
unfolding running
wrapped_day = refl

leap_month : days_in_month (pos 2024) 2 ≡ 29
unfolding running
leap_month = refl

print_amz_date_parsed :
    parse_amz_date (print_amz_date 2024 2 29 23 59 58)
    ≡ some (record {
      date = print_date 2024 2 29;
      epoch_seconds =
          (pos (day_number 2024 2 29) -ℤ pos 719_528) *ℤ pos 86_400
          +ℤ pos (23 * 3_600 + 59 * 60 + 58);
    })
print_amz_date_parsed =
    parse_amz_date-print_amz_date 2024 2 29 23 59 58 (omega arith) (omega arith) (omega arith)
      (omega arith) (omega (arith, leap_month)) (omega arith) (omega arith) (omega arith)

abbrev new_year_date : ParsedAmzDate
new_year_date = record { date = codes "20260102"; epoch_seconds = pos 1_767_323_045 }

parse_amz_date-IsPrinted_example :
    (parse_amz_date (codes "20260102T030405Z") ≡ some new_year_date)
    ↔ ((p : IsPrinted (codes "20260102T030405Z")) × (new_year_date ≡ moment p))
parse_amz_date-IsPrinted_example = parse_amz_date-IsPrinted (codes "20260102T030405Z") new_year_date
