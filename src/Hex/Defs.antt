-- ===== src/Hex/Defs.antt =====
-- The byte classes and hex helpers. A `u8` is a number below 256; `c >> 4` is `c / 16` and
-- `c & 0x0f` is `c % 16`.
use Prim.Native.Nat.{bit_or}
use sigv4_verify.Base.{
  ℕ, ◌+◌, ◌-◌, ◌*◌, ◌/◌, ◌%◌, Bool, ◌||◌, ◌&&◌, [], ◌∷◌, Bytes, codes, get_or, leb, ◌==◌,
  if◌then◌else◌,
}

-- `u8::is_ascii_digit` and the like.
abbrev pub is_ascii_digit : ℕ → Bool
is_ascii_digit c = leb b'0' c && leb c b'9'

abbrev pub is_ascii_uppercase : ℕ → Bool
is_ascii_uppercase c = leb b'A' c && leb c b'Z'

abbrev pub is_ascii_lowercase : ℕ → Bool
is_ascii_lowercase c = leb b'a' c && leb c b'z'

abbrev pub to_ascii_uppercase : ℕ → ℕ
to_ascii_uppercase c = if is_ascii_lowercase c then c - 32 else c

abbrev pub to_ascii_lowercase : ℕ → ℕ
to_ascii_lowercase c = if is_ascii_uppercase c then c + 32 else c

unfoldable pub is_unreserved : ℕ → Bool
is_unreserved c =
    is_ascii_digit c
    || is_ascii_uppercase c
    || is_ascii_lowercase c
    || (c == b'-')
    || (c == b'.')
    || (c == b'_')
    || (c == b'~')

-- `u8::is_ascii_hexdigit`.
unfoldable pub is_hex : ℕ → Bool
is_hex c = is_ascii_digit c || (leb b'A' c && leb c b'F') || (leb b'a' c && leb c b'f')

-- The last arm wraps as `u8` does; every caller has tested `is_hex` first.
unfoldable pub from_hex : ℕ → ℕ
from_hex c =
    if is_ascii_digit c
    then c - b'0'
    else if leb b'a' c && leb c b'f'
    then c - b'a' + 10
    else (c + 256 - b'A' + 10) % 256

-- The expression `from_hex(hi) << 4 | from_hex(lo)`.
unfoldable pub hex_byte : ℕ → ℕ → ℕ
unfolding from_hex
hex_byte hi lo = bit_or (from_hex hi * 16 % 256) (from_hex lo)

unfoldable pub upper_hex : ℕ → ℕ
upper_hex c = if is_ascii_lowercase c then to_ascii_uppercase c else c

unfoldable pub hex_upper : ℕ → ℕ
hex_upper n = get_or (codes "0123456789ABCDEF") n 0

unfoldable pub hex_lower : ℕ → ℕ
hex_lower n = get_or (codes "0123456789abcdef") n 0

-- What `write_escaped_byte(out, c)` appends to `out`.
unfoldable pub write_escaped_byte : ℕ → Bytes
unfolding hex_upper
write_escaped_byte c = b'%' ∷ hex_upper (c / 16) ∷ hex_upper (c % 16) ∷ []

-- What `append_hex_lower(out, bytes)` appends to `out`.
unfoldable pub append_hex_lower : Bytes → Bytes
unfolding hex_lower
append_hex_lower [] = []
append_hex_lower (b ∷ bytes) = hex_lower (b / 16) ∷ hex_lower (b % 16) ∷ append_hex_lower bytes
