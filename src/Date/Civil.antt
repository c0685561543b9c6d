-- ===== src/Date/Civil.antt =====
-- The closed formula of `days_from_civil` counts days by years and months.
use sigv4_verify.Base.{
  ℕ, zero, suc, ◌+◌, ◌-◌, ◌*◌, ◌/◌, ◌^◌, ◌≤◌, ◌<◌, ◌≡◌, refl, ◌∙◌, true, false, arith, ltb, leb,
  if◌then◌else◌,
}
use sigv4_verify.Base.Int.{pos, negsuc, ◌+ℤ◌, ◌-ℤ◌, ◌*ℤ◌, ◌/ℤ◌, pos-add, pos-sub, pos-mul}
use sigv4_verify.Date.Defs.{
  is_leap_year, days_in_month, i32_of_word, wrap_i32, era_of, days_from_march, days_from_civil,
}

-- The days in the years 0 to y - 1, and in the months before month m of year y.
abbrev pub days_before_year : ℕ → ℕ
days_before_year zero = 0
days_before_year (suc y) = days_before_year y + (if is_leap_year (pos y) then 366 else 365)

abbrev pub days_before_month : ℕ → ℕ → ℕ
days_before_month y zero = 0
days_before_month y (suc zero) = 0
days_before_month y (suc (suc m)) = days_before_month y (suc m) + days_in_month (pos y) (suc m)

-- The number of a day, counted from 0000-01-01.
abbrev pub day_number : ℕ → ℕ → ℕ → ℕ
day_number y m d = days_before_year y + days_before_month y m + (d - 1)

days_before_year_closed :
    (y : ℕ) → days_before_year y + (y + 99) / 100 ≡ 365 * y + (y + 3) / 4 + (y + 399) / 400
unfolding is_leap_year
days_before_year_closed zero = omega arith
days_before_year_closed (suc y) = ground (arith, days_before_year_closed y)

-- One month further.
month_step :
    (y j : ℕ)
    → j ≤ 8
    → (153 * j + 2) / 5 + days_in_month (pos y) (suc (suc (suc j))) ≡ (153 * suc j + 2) / 5
unfolding days_in_month
month_step y j h = ground arith

-- The days before month j + 3, by the formula for years that begin in March.
days_before_month_closed :
    (y j : ℕ)
    → j ≤ 9
    → days_before_month y (suc (suc (suc j)))
      ≡ (if is_leap_year (pos y) then 60 else 59) + (153 * j + 2) / 5
days_before_month_closed y zero h = unfold days_in_month in ground arith
days_before_month_closed y (suc j) h =
    let rest = days_before_month_closed y j (omega arith) in
    let step = month_step y j (omega arith) in omega arith

-- On a year that is not negative, counted from March, no step but the last is signed.
abbrev year_of_era : ℕ → ℕ
year_of_era y = y - y / 400 * 400

abbrev march_days : ℕ → ℕ → ℕ → ℕ
march_days y mp d =
    y / 400 * 146_097
    + (year_of_era y * 365 + year_of_era y / 4 - year_of_era y / 100 + ((153 * mp + 2) / 5 + d - 1))

era_of-pos : (y : ℕ) → era_of (pos y) ≡ pos (y / 400)
unfolding era_of ◌/ℤ◌
era_of-pos y = ground arith

pos-div : (a k : ℕ) → pos a /ℤ k ≡ pos (a / k)
unfolding ◌/ℤ◌
pos-div a k = refl

-- What fits an `i32` does not wrap around.
wrap_i32-pos : (n : ℕ) → n < 2 ^ 31 → wrap_i32 (pos n) ≡ pos n
unfolding wrap_i32 i32_of_word
wrap_i32-pos n h = ground arith

days_from_march-pos :
    (y mp d : ℕ)
    → y < 2 ^ 31
    → mp ≤ 11
    → 1 ≤ d
    → d ≤ 2 ^ 30
    → days_from_march (pos y) (pos mp) (pos d) ≡ pos (march_days y mp d) -ℤ pos 719_468
unfolding days_from_march
days_from_march-pos y mp d hy hm h hd =
    let e = year_of_era y in
    let e_small : e < 400 = omega arith in
    let months = (153 * mp + 2) / 5 in
    simp (
      era_of-pos,
      pos-mul,
      pos-add,
      pos-div,
      wrap_i32-pos (y / 400 * 400) (omega arith),
      pos-sub y (y / 400 * 400) (omega arith),
      wrap_i32-pos e (omega arith),
      wrap_i32-pos (153 * mp) (omega arith),
      wrap_i32-pos (153 * mp + 2) (omega arith),
      wrap_i32-pos (months + d) (omega arith),
      pos-sub (months + d) 1 (omega arith),
      wrap_i32-pos (months + d - 1) (omega arith),
      wrap_i32-pos (e * 365) (omega arith),
      wrap_i32-pos (e * 365 + e / 4) (omega arith),
      pos-sub (e * 365 + e / 4) (e / 100) (omega arith),
      wrap_i32-pos (e * 365 + e / 4 - e / 100) (omega arith),
      wrap_i32-pos (e * 365 + e / 4 - e / 100 + (months + d - 1)) (omega arith),
    )

-- From March on.
days_from_civil-march :
    (y j d : ℕ)
    → y < 2 ^ 31
    → j ≤ 9
    → 1 ≤ d
    → d ≤ 2 ^ 30
    → days_from_civil (pos y) (suc (suc (suc j))) d ≡ pos (march_days y j d) -ℤ pos 719_468
unfolding days_from_civil
days_from_civil-march y j d hy hj k kd =
    let m = suc (suc (suc j)) in
    let t : leb m 2 ≡ false = ground arith in
    let u : ltb 2 m ≡ true = ground arith in
    let v : pos m +ℤ negsuc 2 ≡ pos j = unfold ◌+ℤ◌ in ground arith in
    let w : y - 0 ≡ y = omega arith in
    rw
      (
        t,
        u,
        wrap_i32-pos m (omega arith),
        v,
        pos-sub y 0 (omega arith),
        w,
        wrap_i32-pos y hy,
        wrap_i32-pos j (omega arith),
        wrap_i32-pos d (omega arith),
      )
      (days_from_march-pos y j d hy (omega arith) k kd)

-- January and February belong to the year before.
days_from_civil-winter :
    (y m d : ℕ)
    → suc y < 2 ^ 31
    → m ≤ 2
    → 1 ≤ d
    → d ≤ 2 ^ 30
    → days_from_civil (pos (suc y)) m d ≡ pos (march_days y (m + 9) d) -ℤ pos 719_468
unfolding days_from_civil
days_from_civil-winter y m d hy h k kd =
    let t : leb m 2 ≡ true = ground arith in
    let u : ltb 2 m ≡ false = ground arith in
    let v : suc y - 1 ≡ y = omega arith in
    rw
      (
        t,
        u,
        wrap_i32-pos m (omega arith),
        pos-sub (suc y) 1 (omega arith),
        v,
        pos-add m 9,
        wrap_i32-pos y (omega arith),
        wrap_i32-pos (m + 9) (omega arith),
        wrap_i32-pos d (omega arith),
      )
      (days_from_march-pos y (m + 9) d (omega arith) (omega arith) k kd)

-- Those of year 0 belong to the year -1.
days_from_civil-zero :
    (m d : ℕ)
    → 1 ≤ m
    → m ≤ 2
    → 1 ≤ d
    → d ≤ 2 ^ 30
    → days_from_civil (pos 0) m d ≡ pos (day_number 0 m d) -ℤ pos 719_528
unfolding days_from_civil days_from_march era_of wrap_i32 i32_of_word days_in_month ◌+ℤ◌ ◌-ℤ◌ ◌*ℤ◌
    ◌/ℤ◌
days_from_civil-zero zero d h k l ld = ground arith
days_from_civil-zero (suc zero) d h k l ld = ground arith
days_from_civil-zero (suc (suc zero)) d h k l ld = ground arith
days_from_civil-zero (suc (suc (suc m))) d h k l ld = ground arith

-- The formula's day, 60 days after the first of January of year 0.
march_days-year :
    (y mp d : ℕ)
    → 1 ≤ d
    → march_days y mp d + 60
      ≡ days_before_year y
        + (if is_leap_year (pos y) then 60 else 59)
        + (153 * mp + 2) / 5
        + (d - 1)
unfolding is_leap_year
march_days-year y mp d h = ground (arith, days_before_year_closed y)

march_days-winter :
    (y m d : ℕ) → 1 ≤ m → m ≤ 2 → 1 ≤ d → march_days y (m + 9) d + 60 ≡ day_number (suc y) m d
unfolding is_leap_year days_in_month
march_days-winter y zero d h k l = omega arith
march_days-winter y (suc zero) d h k l = let q = march_days-year y 10 d l in ground arith
march_days-winter y (suc (suc zero)) d h k l = let q = march_days-year y 11 d l in ground arith
march_days-winter y (suc (suc (suc m))) d h k l = omega arith

march_days-spring :
    (y j d : ℕ) → j ≤ 9 → 1 ≤ d → march_days y j d + 60 ≡ day_number y (suc (suc (suc j))) d
march_days-spring y j d h k =
    let q = march_days-year y j d k in let r = days_before_month_closed y j h in omega arith

shift : (a b : ℕ) → a + 60 ≡ b → pos a -ℤ pos 719_468 ≡ pos b -ℤ pos 719_528
unfolding ◌-ℤ◌
shift a b h = ground arith

-- For every year from 0 on that an i32 holds, month from 1 to 12 and day from 1 to 2^30,
-- days_from_civil, whose i32 operations wrap around, is the number of days from the start of year
-- 0, counted by years and by months with the leap rule, less the 719528 days before 1970-01-01.
pub days_from_civil-day_number :
    (y m d : ℕ)
    → y < 2 ^ 31
    → 1 ≤ m
    → m ≤ 12
    → 1 ≤ d
    → d ≤ 2 ^ 30
    → days_from_civil (pos y) m d ≡ pos (day_number y m d) -ℤ pos 719_528
days_from_civil-day_number y zero d hy h k l ld = ground arith
days_from_civil-day_number zero (suc zero) d hy h k l ld =
    days_from_civil-zero 1 d h (omega arith) l ld
days_from_civil-day_number (suc y) (suc zero) d hy h k l ld =
    days_from_civil-winter y 1 d hy (omega arith) l ld
    ∙ shift (march_days y 10 d) (day_number (suc y) 1 d) (march_days-winter y 1 d h (omega arith) l)
days_from_civil-day_number zero (suc (suc zero)) d hy h k l ld =
    days_from_civil-zero 2 d h (omega arith) l ld
days_from_civil-day_number (suc y) (suc (suc zero)) d hy h k l ld =
    days_from_civil-winter y 2 d hy (omega arith) l ld
    ∙ shift (march_days y 11 d) (day_number (suc y) 2 d) (march_days-winter y 2 d h (omega arith) l)
days_from_civil-day_number y (suc (suc (suc j))) d hy h k l ld =
    days_from_civil-march y j d hy (omega arith) l ld
    ∙ shift (march_days y j d) (day_number y (suc (suc (suc j))) d)
        (march_days-spring y j d (omega arith) l)
