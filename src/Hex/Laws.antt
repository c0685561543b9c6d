-- ===== src/Hex/Laws.antt =====
-- Laws of the hex helpers: at single bytes by a table of all 256, at other numbers by cases.
use Prim.Native.Nat.{bit_or}
use sigv4_verify.Base.{
  ℕ, ◌+◌, ◌*◌, ◌/◌, ◌%◌, ◌<◌, ◌≡◌, ◌≢◌, refl, Bool, true, ◌&&◌, arith, ◌==◌, ==_iff, every,
  every_lem,
}
use sigv4_verify.Hex.Defs.{
  is_unreserved, is_hex, from_hex, hex_byte, upper_hex, hex_upper, hex_lower,
}

-- A two-digit form of a byte is read back.
check_upper : ℕ → Bool
check_upper b =
    is_hex (hex_upper (b / 16))
    && is_hex (hex_upper (b % 16))
    && (hex_byte (hex_upper (b / 16)) (hex_upper (b % 16)) == b)
    && (upper_hex (hex_upper (b / 16)) == hex_upper (b / 16))
    && (upper_hex (hex_upper (b % 16)) == hex_upper (b % 16))

check_upper_table : every check_upper 256 ≡ true
unfolding check_upper every hex_upper is_hex hex_byte upper_hex
check_upper_table = refl

pub hex_upper_lem :
    (b : ℕ)
    → b < 256
    → (is_hex (hex_upper (b / 16)) ≡ true)
      × (is_hex (hex_upper (b % 16)) ≡ true)
      × (hex_byte (hex_upper (b / 16)) (hex_upper (b % 16)) ≡ b)
      × (upper_hex (hex_upper (b / 16)) ≡ hex_upper (b / 16))
      × (upper_hex (hex_upper (b % 16)) ≡ hex_upper (b % 16))
unfolding check_upper
hex_upper_lem b h = ground (arith, every_lem check_upper 256 check_upper_table b h)

check_lower : ℕ → Bool
check_lower b =
    is_hex (hex_lower (b / 16))
    && is_hex (hex_lower (b % 16))
    && (hex_byte (hex_lower (b / 16)) (hex_lower (b % 16)) == b)

check_lower_table : every check_lower 256 ≡ true
unfolding check_lower every hex_lower is_hex hex_byte
check_lower_table = refl

pub hex_lower_lem :
    (b : ℕ)
    → b < 256
    → (is_hex (hex_lower (b / 16)) ≡ true)
      × (is_hex (hex_lower (b % 16)) ≡ true)
      × (hex_byte (hex_lower (b / 16)) (hex_lower (b % 16)) ≡ b)
unfolding check_lower
hex_lower_lem b h = ground (arith, every_lem check_lower 256 check_lower_table b h)

pub from_hex-lt : (c : ℕ) → is_hex c ≡ true → from_hex c < 16
unfolding is_hex from_hex
from_hex-lt c h = ground arith

pub from_hex-upper_hex : (c : ℕ) → is_hex c ≡ true → from_hex (upper_hex c) ≡ from_hex c
unfolding is_hex from_hex upper_hex
from_hex-upper_hex c h = ground arith

pub is_hex-upper_hex : (c : ℕ) → is_hex c ≡ true → is_hex (upper_hex c) ≡ true
unfolding is_hex upper_hex
is_hex-upper_hex c h = ground arith

pub upper_hex_idem : (c : ℕ) → upper_hex (upper_hex c) ≡ upper_hex c
unfolding upper_hex
upper_hex_idem c = ground arith

check_byte : ℕ → Bool
check_byte n = bit_or (n / 16 * 16 % 256) (n % 16) == n

check_byte_table : every check_byte 256 ≡ true
unfolding check_byte every
check_byte_table = refl

-- The two nibbles do not overlap, so `|` adds them.
pub hex_byte_value :
    (hi lo : ℕ)
    → is_hex hi ≡ true
    → is_hex lo ≡ true
    → hex_byte hi lo ≡ from_hex hi * 16 + from_hex lo
unfolding hex_byte check_byte
hex_byte_value hi lo p q = nibbles (from_hex hi) (from_hex lo) (from_hex-lt hi p) (from_hex-lt lo q)
  where
    nibbles : (a b : ℕ) → a < 16 → b < 16 → bit_or (a * 16 % 256) b ≡ a * 16 + b
    nibbles a b ha hb =
        let t : check_byte (a * 16 + b) ≡ true =
          every_lem check_byte 256 check_byte_table (a * 16 + b) (omega arith) in
        let u : (a * 16 + b) / 16 ≡ a = omega arith in
        let v : (a * 16 + b) % 16 ≡ b = omega arith in rw (u, v) at ((==_iff _ (a * 16 + b)).0 t)

pub hex_byte-lt : (hi lo : ℕ) → is_hex hi ≡ true → is_hex lo ≡ true → hex_byte hi lo < 256
hex_byte-lt hi lo p q = omega (arith, hex_byte_value hi lo p q, from_hex-lt hi p, from_hex-lt lo q)

-- Upper-casing the digits of an escape keeps the byte that it stands for.
pub hex_byte-upper_hex :
    (hi lo : ℕ)
    → is_hex hi ≡ true
    → is_hex lo ≡ true
    → hex_byte (upper_hex hi) (upper_hex lo) ≡ hex_byte hi lo
unfolding hex_byte
hex_byte-upper_hex hi lo p q = rw (from_hex-upper_hex hi p, from_hex-upper_hex lo q)

-- An unreserved byte is none of the delimiters.
pub unreserved_plain :
    (c : ℕ) → is_unreserved c ≡ true → (c ≢ b'%') × (c ≢ b'/') × (c ≢ b'&') × (c ≢ b'=')
unfolding is_unreserved
unreserved_plain c h = ground arith
