-- ===== src/Date/Accepted.antt =====
-- What `parse_amz_date` accepts.
use sigv4_verify.Base.{
  ℕ, ◌+◌, ◌*◌, ◌≤◌, ◌<◌, ◌≡◌, ◌==◌, ◌↔◌, ◌∙◌, sym, ap, refl, not, ◌||◌, true, false, Option, none,
  some, [], ◌∷◌, ◌++◌, Bytes, arith, length, if◌then◌else◌, Bool,
}
use sigv4_verify.Base.Int.{pos, ◌+ℤ◌, ◌-ℤ◌, ◌*ℤ◌}
use sigv4_verify.Date.Defs.{
  ParsedAmzDate, at, slice, ◌>>=◌, parse_digits_i32, parse_digits_u32, days_in_month, in_calendar,
  parse_amz_date,
}
use sigv4_verify.Date.Parse.{print_date, print_amz_date, parse_amz_date-print_amz_date}
use sigv4_verify.Date.Civil.{day_number}
use sigv4_verify.Date.Digits.{cut, lengths, two_digits_of, four_digits_of}

unless_some :
    {A : Type 0} (c : Bool) (x : Option A) (r : A)
    → (if c then none else x) ≡ some r
    → (c ≡ false) × (x ≡ some r)
unless_some true x r h = ground arith
unless_some false x r h = (refl, h)

then_some :
    {A B : Type 0} (m : Option A) (f : A → Option B) (r : B)
    → (m >>= f) ≡ some r
    → (a : A) × (m ≡ some a) × (f a ≡ some r)
then_some none f r h = ground arith
then_some (some a) f r h = (a, refl, h)

-- The text of a date and a time of day that exist.
pub record IsPrinted (b : Bytes) : Type 0 where
  pub year : ℕ
  pub month : ℕ
  pub day : ℕ
  pub hour : ℕ
  pub minute : ℕ
  pub second : ℕ
  pub year_bounded : year < 10_000
  pub month_positive : 1 ≤ month
  pub month_bounded : month ≤ 12
  pub day_positive : 1 ≤ day
  pub day_bounded : day ≤ days_in_month (pos year) month
  pub hour_bounded : hour ≤ 23
  pub minute_bounded : minute ≤ 59
  pub second_bounded : second ≤ 59
  pub text_lem : b ≡ print_amz_date year month day hour minute second

in_calendar-true :
    (year month day hour minute second : ℕ)
    → in_calendar year month day hour minute second ≡ true
    → (1 ≤ month)
      × (month ≤ 12)
      × (1 ≤ day)
      × (day ≤ days_in_month (pos year) month)
      × (hour ≤ 23)
      × (minute ≤ 59)
      × (second ≤ 59)
unfolding in_calendar
in_calendar-true year month day hour minute second h = ground arith

pieces_eq :
    {y y' m m' d d' h h' n n' s s' : Bytes} {t t' z z' : ℕ}
    → y ≡ y'
    → m ≡ m'
    → d ≡ d'
    → t ≡ t'
    → h ≡ h'
    → n ≡ n'
    → s ≡ s'
    → z ≡ z'
    → (y ++ m ++ d) ++ (t ∷ h ++ n ++ s ++ (z ∷ []))
      ≡ (y' ++ m' ++ d') ++ (t' ∷ h' ++ n' ++ s' ++ (z' ∷ []))
pieces_eq y m d t h n s z = rw (y, m, d, t, h, n, s, z) refl

-- The length and the two letters.
frame_lem :
    (b : Bytes)
    → (not (length b == 16) || not (at 8 b == b'T') || not (at 15 b == b'Z')) ≡ false
    → (length b ≡ 16) × (at 8 b ≡ b'T') × (at 15 b ≡ b'Z')
frame_lem b h = ground arith

not-false : (b : Bool) → not b ≡ false → b ≡ true
not-false b h = ground arith

-- What is accepted is the text of a date.
accepted-IsPrinted :
    (b : Bytes) {parsed : ParsedAmzDate} → parse_amz_date b ≡ some parsed → IsPrinted b
unfolding parse_amz_date
accepted-IsPrinted b {parsed} h =
    let (frame, h0) =
      unless_some (not (length b == 16) || not (at 8 b == b'T') || not (at 15 b == b'Z')) _ parsed
        h in
    let (long, t, z) = frame_lem b frame in
    let (year, q1, h1) = then_some (parse_digits_i32 (slice 0 4 b)) _ parsed h0 in
    let (month, q2, h2) = then_some (parse_digits_u32 (slice 4 6 b)) _ parsed h1 in
    let (day, q3, h3) = then_some (parse_digits_u32 (slice 6 8 b)) _ parsed h2 in
    let (hour, q4, h4) = then_some (parse_digits_u32 (slice 9 11 b)) _ parsed h3 in
    let (minute, q5, h5) = then_some (parse_digits_u32 (slice 11 13 b)) _ parsed h4 in
    let (second, q6, h6) = then_some (parse_digits_u32 (slice 13 15 b)) _ parsed h5 in
    let (inside, h7) =
      unless_some (not (in_calendar year month day hour minute second)) _ parsed h6 in
    let (c1, c2, c3, c4, c5, c6, c7) =
      in_calendar-true year month day hour minute second
        (not-false (in_calendar year month day hour minute second) inside) in
    let (l1, l2, l3, l4, l5, l6) = lengths b long in
    let (e1, bounded) = four_digits_of (slice 0 4 b) year l1 q1 in
    let e2 = two_digits_of (slice 4 6 b) month l2 q2 in
    let e3 = two_digits_of (slice 6 8 b) day l3 q3 in
    let e4 = two_digits_of (slice 9 11 b) hour l4 q4 in
    let e5 = two_digits_of (slice 11 13 b) minute l5 q5 in
    let e6 = two_digits_of (slice 13 15 b) second l6 q6 in
    record {
      year = year;
      month = month;
      day = day;
      hour = hour;
      minute = minute;
      second = second;
      year_bounded = bounded;
      month_positive = c1;
      month_bounded = c2;
      day_positive = c3;
      day_bounded = c4;
      hour_bounded = c5;
      minute_bounded = c6;
      second_bounded = c7;
      text_lem = cut b long ∙ pieces_eq e1 e2.0 e3.0 t e4.0 e5.0 e6.0 z;
    }

-- The date and the seconds since 1970, counted by years and by months.
abbrev pub moment : {b : Bytes} → IsPrinted b → ParsedAmzDate
moment p = record {
  date = print_date p.year p.month p.day;
  epoch_seconds =
      (pos (day_number p.year p.month p.day) -ℤ pos 719_528) *ℤ pos 86_400
      +ℤ pos (p.hour * 3_600 + p.minute * 60 + p.second);
}

parse_amz_date-moment : {b : Bytes} (p : IsPrinted b) → parse_amz_date b ≡ some (moment p)
parse_amz_date-moment p =
    ap parse_amz_date p.text_lem
    ∙ parse_amz_date-print_amz_date p.year p.month p.day p.hour p.minute p.second p.year_bounded
        p.month_positive p.month_bounded p.day_positive p.day_bounded p.hour_bounded
        p.minute_bounded p.second_bounded

-- parse_amz_date accepts a string exactly if it is the sixteen characters of a date that exists
-- and a time of day, and then gives its first eight characters and the seconds since 1970, counted
-- by years and by months with the leap rule.
pub parse_amz_date-IsPrinted :
    (b : Bytes) (parsed : ParsedAmzDate)
    → (parse_amz_date b ≡ some parsed) ↔ ((p : IsPrinted b) × (parsed ≡ moment p))
parse_amz_date-IsPrinted b parsed = (
  (λ h.
      let p = accepted-IsPrinted b h in
      let same : some parsed ≡ some (moment p) = sym h ∙ parse_amz_date-moment p in (p, cc)),
  (λ (p, same). rw same (parse_amz_date-moment p)),
)
