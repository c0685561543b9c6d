-- ===== src/Config/Durations.antt =====
-- `parse_duration` against printed durations such as `1h30m`.
use sigv4_verify.Base.{
  ℕ, zero, suc, ◌+◌, ◌-◌, ◌*◌, ◌/◌, ◌%◌, ◌^◌, ◌<◌, ◌≡◌, ◌≢◌, ◌∙◌, refl, sym, ap, true, false,
  Option, none, some, List, [], ◌∷◌, ◌++◌, Bytes, arith, ltb, leb, if◌then◌else◌, inl, inr,
  Bool-cases, All, ok, err,
}
use sigv4_verify.Hex.{is_ascii_digit}
use sigv4_verify.Text.Decimal.{decimal_loop, to_string}
use sigv4_verify.Text.Joined.{append-ne-nil}
use sigv4_verify.Text.Printing.{ten_to}
use sigv4_verify.Verifier.{from_secs}
use sigv4_verify.Config.Defs.{
  invalid_duration, checked, ◌>>=?◌, unit_seconds, duration_loop, parse_duration,
}

pub data TimeUnit : Type 0 where
  second minute hour day week : TimeUnit

abbrev pub letter : TimeUnit → ℕ
letter second = b's'
letter minute = b'm'
letter hour = b'h'
letter day = b'd'
letter week = b'w'

abbrev pub weight : TimeUnit → ℕ
weight second = 1
weight minute = 60
weight hour = 60 * 60
weight day = 24 * 60 * 60
weight week = 7 * 24 * 60 * 60

-- A duration as it is written: numbers with their units.
abbrev pub Component : Type 0
Component = ℕ × TimeUnit

abbrev pub printed : List Component → Bytes
printed [] = []
printed ((n, u) ∷ cs) = to_string n ++ letter u ∷ printed cs

abbrev pub seconds : List Component → ℕ
seconds [] = 0
seconds ((n, u) ∷ cs) = n * weight u + seconds cs

abbrev pub IsU64 : Component → Type 0
IsU64 (n, u) = n < 2 ^ 64

unit_seconds-letter :
    (u : TimeUnit)
    → (unit_seconds (letter u) ≡ some (weight u)) × (is_ascii_digit (letter u) ≡ false)
unit_seconds-letter second = (refl, refl)
unit_seconds-letter minute = (refl, refl)
unit_seconds-letter hour = (refl, refl)
unit_seconds-letter day = (refl, refl)
unit_seconds-letter week = (refl, refl)

-- One more digit of the number.
digit_step :
    (total n : ℕ) (out : Bytes)
    → n < 2 ^ 64
    → duration_loop total (some (n / 10)) ((b'0' + n % 10) ∷ out) ≡ duration_loop total (some n) out
unfolding duration_loop
digit_step total n out h =
    let digit : is_ascii_digit (b'0' + n % 10) ≡ true = ground arith in
    let value : n / 10 * 10 + (b'0' + n % 10 - b'0') ≡ n = omega arith in
    let fits : leb (2 ^ 64) n ≡ false = ground arith in rw (duration_loop, digit, value, fits) refl

first_step :
    (total n : ℕ) (out : Bytes)
    → n < 10
    → duration_loop total none ((b'0' + n % 10) ∷ out) ≡ duration_loop total (some n) out
unfolding duration_loop
first_step total n out h =
    let digit : is_ascii_digit (b'0' + n % 10) ≡ true = ground arith in
    let value : b'0' + n % 10 - b'0' ≡ n = omega arith in rw (duration_loop, digit, value) refl

duration_loop-decimal_loop :
    (total fuel n : ℕ) (out : Bytes)
    → n < ten_to (suc fuel)
    → n < 2 ^ 64
    → duration_loop total none (decimal_loop (suc fuel) n out) ≡ duration_loop total (some n) out
unfolding decimal_loop
duration_loop-decimal_loop total zero n out h k =
    let small : ltb n 10 ≡ true = ground arith in rw small (first_step total n out h)
duration_loop-decimal_loop total (suc fuel) n out h k = elim (Bool-cases (ltb n 10)) [
  | inl small ↦ rw small (first_step total n out (ground arith))
  | inr large ↦ rw large (
      duration_loop-decimal_loop total fuel (n / 10) ((b'0' + n % 10) ∷ out) (omega arith)
        (omega arith)
      ∙ digit_step total n out k)
]

decimal_loop-append :
    (fuel n : ℕ) (out rest : Bytes)
    → decimal_loop fuel n out ++ rest ≡ decimal_loop fuel n (out ++ rest)
unfolding decimal_loop
decimal_loop-append zero n out rest = refl
decimal_loop-append (suc fuel) n out rest = elim (Bool-cases (ltb n 10)) [
  | inl small ↦ rw small refl
  | inr large ↦ rw large (decimal_loop-append fuel (n / 10) ((b'0' + n % 10) ∷ out) rest)
]

-- A printed number is read whole.
duration_loop-to_string :
    (total n : ℕ) (rest : Bytes)
    → n < 2 ^ 64
    → duration_loop total none (to_string n ++ rest) ≡ duration_loop total (some n) rest
unfolding to_string
duration_loop-to_string total n rest h =
    rw (decimal_loop-append 20 n [] rest)
      (duration_loop-decimal_loop total 19 n rest (omega arith) h)

-- A unit ends the number.
duration_loop-letter :
    (total n : ℕ) (u : TimeUnit) (rest : Bytes)
    → duration_loop total (some n) (letter u ∷ rest) ≡ (
        checked (n * weight u)
        >>=? (λ m. checked (total + m) >>=? (λ t. duration_loop t none rest)))
unfolding duration_loop
duration_loop-letter total n u rest =
    let (known, other) = unit_seconds-letter u in rw (duration_loop, other, known) refl

checked-fits : (n : ℕ) → n < 2 ^ 64 → checked n ≡ some n
checked-fits n h = ground arith

checked-overflows : (n : ℕ) → leb (2 ^ 64) n ≡ true → checked n ≡ none
checked-overflows n h = ground arith

-- The two checked operations, and the seconds that follow.
checked-sum :
    (total x s : ℕ) (rest : ℕ → Option ℕ)
    → total < 2 ^ 64
    → ((t : ℕ) → t < 2 ^ 64 → rest t ≡ checked (t + s))
    → (checked x >>=? (λ m. checked (total + m) >>=? rest)) ≡ checked (total + (x + s))
checked-sum total x s rest h k = elim (Bool-cases (leb (2 ^ 64) x)) [
  | inl over ↦
      rw (checked-overflows x over, checked-overflows (total + (x + s)) (ground arith)) refl
  | inr fits ↦ elim (Bool-cases (leb (2 ^ 64) (total + x))) [
    | inl over ↦
        rw
          (
            fits,
            checked-overflows (total + x) over,
            checked-overflows (total + (x + s)) (ground arith),
          )
          refl
    | inr fits' ↦
        rw (fits, checked-fits (total + x) (ground arith))
          (k (total + x) (ground arith) ∙ ap checked (omega arith))
  ]
]

-- The loop gives the sum of the components, if it fits.
duration_loop-printed :
    (cs : List Component) (total : ℕ)
    → total < 2 ^ 64
    → All IsU64 cs
    → duration_loop total none (printed cs) ≡ checked (total + seconds cs)
duration_loop-printed [] total h k =
    unfold duration_loop in sym (ap checked (omega arith) ∙ checked-fits total h)
duration_loop-printed ((n, u) ∷ cs) total h (kn, k) =
    duration_loop-to_string total n (letter u ∷ printed cs) kn
    ∙ duration_loop-letter total n u (printed cs)
    ∙ checked-sum total (n * weight u) (seconds cs) (λ t. duration_loop t none (printed cs)) h
        (λ t small. duration_loop-printed cs t small k)

parse_duration-loop :
    (s : Bytes)
    → s ≢ []
    → parse_duration s ≡ (elim (duration_loop 0 none s) [
      | none ↦ err (invalid_duration s)
      | some total ↦ ok (from_secs total)
    ])
unfolding parse_duration
parse_duration-loop [] h = absurd (h refl)
parse_duration-loop (b ∷ r) h = refl

-- On a printed sequence of one or more components, each the decimal digits of a number below 2^64
-- and a unit, parse_duration gives the sum in seconds if that is below 2^64 and an error
-- otherwise.
pub parse_duration-printed :
    (n : ℕ) (u : TimeUnit) (cs : List Component)
    → All IsU64 ((n, u) ∷ cs)
    → let text = printed ((n, u) ∷ cs) in
      let total = seconds ((n, u) ∷ cs) in
      parse_duration text
      ≡ (if ltb total (2 ^ 64) then ok (from_secs total) else err (invalid_duration text))
parse_duration-printed n u cs h =
    let some_text = append-ne-nil (to_string n) (letter u) (printed cs) in
    let read : duration_loop 0 none (printed ((n, u) ∷ cs)) ≡ checked (seconds ((n, u) ∷ cs)) =
      duration_loop-printed ((n, u) ∷ cs) 0 (omega arith) h ∙ ap checked (omega arith) in
    elim (Bool-cases (ltb (seconds ((n, u) ∷ cs)) (2 ^ 64))) [
      | inl fits ↦
          rw
            (
              fits,
              parse_duration-loop (printed ((n, u) ∷ cs)) some_text,
              read,
              checked-fits (seconds ((n, u) ∷ cs)) (ground arith),
            )
            refl
      | inr over ↦
          rw
            (
              over,
              parse_duration-loop (printed ((n, u) ∷ cs)) some_text,
              read,
              checked-overflows (seconds ((n, u) ∷ cs)) (ground arith),
            )
            refl
    ]
