-- ===== src/Config/Defs.antt =====
-- `Mode`, `parse_on_off` and `parse_duration`, with the error type of the crate.
use sigv4_verify.Base.{
  ℕ, ◌+◌, ◌-◌, ◌*◌, ◌^◌, Bool, true, false, Option, none, some, [], ◌∷◌, Bytes, codes, leb, ◌==◌,
  if◌then◌else◌, bytes_eq, Result, ok, err,
}
use sigv4_verify.Hex.{is_ascii_digit}
use sigv4_verify.Verifier.{Duration, from_secs}

-- One constructor for each message, with the text that the message quotes.
pub data DirectiveError : Type 0 where
  invalid_mode invalid_on_off invalid_duration : Bytes → DirectiveError
  empty_duration missing_access_key empty_access_key access_key_not_first : DirectiveError
  unknown_flag empty_value blank_value unknown_argument : Bytes → DirectiveError
  duplicate_enabled duplicate_max_expires : DirectiveError
  multiple_secrets no_secret both_host_policies no_host_policy : Bytes → DirectiveError
  both_prefix_policies no_prefix_policy : Bytes → DirectiveError
  both_method_policies no_method_policy max_expires_out_of_range : Bytes → DirectiveError
  unreadable_secret secret_not_utf8 empty_secret : Bytes → DirectiveError

pub data Mode : Type 0 where
  unset off on shadow : Mode

unfoldable pub parse_mode : Bytes → Result DirectiveError Mode
parse_mode value =
    if bytes_eq value (codes "on")
    then ok Mode.on
    else if bytes_eq value (codes "off")
    then ok Mode.off
    else if bytes_eq value (codes "shadow")
    then ok Mode.shadow
    else err (invalid_mode value)

-- `self.merge(outer)`.
unfoldable pub merge : Mode → Mode → Mode
merge Mode.unset Mode.unset = Mode.off
merge Mode.unset outer = outer
merge self outer = self

abbrev pub verifies : Mode → Bool
verifies Mode.on = true
verifies Mode.shadow = true
verifies mode = false

unfoldable pub parse_on_off : Bytes → Result DirectiveError Bool
parse_on_off value =
    if bytes_eq value (codes "on")
    then ok true
    else if bytes_eq value (codes "off")
    then ok false
    else err (invalid_on_off value)

-- The result of a checked operation on `u64`.
abbrev pub checked : ℕ → Option ℕ
checked n = if leb (2 ^ 64) n then none else some n

infixl 5 ◌>>=?◌
abbrev pub ◌>>=?◌ : {A B : Type 0} → Option A → (A → Option B) → Option B
none >>=? f = none
some a >>=? f = f a

abbrev pub unit_seconds : ℕ → Option ℕ
unit_seconds unit =
    if unit == b's'
    then some 1
    else if unit == b'm'
    then some 60
    else if unit == b'h'
    then some 3_600
    else if unit == b'd'
    then some 86_400
    else if unit == b'w'
    then some 604_800
    else none

-- The two nested loops as one: `number` is the number that the inner loop has read so far, and
-- `none` at the head of the outer loop.
unfoldable pub duration_loop : ℕ → Option ℕ → Bytes → Option ℕ
duration_loop total none [] = some total
duration_loop total (some number) [] = checked (total + number)
duration_loop total none (b ∷ rest) = elim (is_ascii_digit b) [
  | false ↦ none
  | true ↦ duration_loop total (some (b - b'0')) rest
]
duration_loop total (some number) (b ∷ rest) = elim (is_ascii_digit b) [
  | true ↦
      checked (number * 10 + (b - b'0')) >>=? λ number'. duration_loop total (some number') rest
  | false ↦ unit_seconds b >>=? λ unit. checked (number * unit) >>=? λ n.
      checked (total + n) >>=? λ total'. duration_loop total' none rest
]

unfoldable pub parse_duration : Bytes → Result DirectiveError Duration
unfolding duration_loop
parse_duration [] = err empty_duration
parse_duration (b ∷ rest) = elim (duration_loop 0 none (b ∷ rest)) [
  | none ↦ err (invalid_duration (b ∷ rest))
  | some total ↦ ok (from_secs total)
]
