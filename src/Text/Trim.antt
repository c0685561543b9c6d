-- ===== src/Text/Trim.antt =====
-- `str::trim`, which removes the characters of the Unicode property White_Space at both ends.
use sigv4_verify.Base.{
  ℕ, zero, suc, Bool, ◌&&◌, ◌||◌, [], ◌∷◌, ◌++◌, Bytes, leb, ◌==◌, if◌then◌else◌,
}

abbrev between : ℕ → ℕ → ℕ → Bool
between lo hi b = leb lo b && leb b hi

-- The white space of one, two and three bytes, by its UTF-8 encoding.
abbrev white_1 : ℕ → Bool
white_1 a = between 0x09 0x0D a || (a == 0x20)

abbrev white_2 : ℕ → ℕ → Bool
white_2 a b = (a == 0xC2) && ((b == 0x85) || (b == 0xA0))

abbrev white_3 : ℕ → ℕ → ℕ → Bool
white_3 a b c =
    ((a == 0xE1) && (b == 0x9A) && (c == 0x80))
    || ((a == 0xE2)
        && (b == 0x80)
        && (between 0x80 0x8A c || (c == 0xA8) || (c == 0xA9) || (c == 0xAF)))
    || ((a == 0xE2) && (b == 0x81) && (c == 0x9F))
    || ((a == 0xE3) && (b == 0x80) && (c == 0x80))

-- The bytes of the white space character at the front, 0 if there is none.
unfoldable pub white_width : Bytes → ℕ
white_width [] = 0
white_width (a ∷ []) = if white_1 a then 1 else 0
white_width (a ∷ b ∷ []) = if white_1 a then 1 else if white_2 a b then 2 else 0
white_width (a ∷ b ∷ c ∷ r) =
    if white_1 a then 1 else if white_2 a b then 2 else if white_3 a b c then 3 else 0

-- The same at the end, on the bytes read backwards.
unfoldable pub white_width_back : Bytes → ℕ
white_width_back [] = 0
white_width_back (c ∷ []) = if white_1 c then 1 else 0
white_width_back (c ∷ b ∷ []) = if white_1 c then 1 else if white_2 b c then 2 else 0
white_width_back (c ∷ b ∷ a ∷ r) =
    if white_1 c then 1 else if white_2 b c then 2 else if white_3 a b c then 3 else 0

-- Skips `pending` bytes of a character, then white space as long as there is any.
unfoldable pub skip_white : (Bytes → ℕ) → ℕ → Bytes → Bytes
skip_white width pending [] = []
skip_white width (suc pending) (a ∷ r) = skip_white width pending r
skip_white width zero (a ∷ r) = elim (width (a ∷ r)) [ zero ↦ a ∷ r | suc n ↦ skip_white width n r ]

unfoldable pub reverse : Bytes → Bytes
reverse [] = []
reverse (a ∷ r) = reverse r ++ (a ∷ [])

unfoldable pub trim : Bytes → Bytes
unfolding white_width white_width_back skip_white reverse
trim s =
    let front = skip_white white_width 0 s in
    reverse (skip_white white_width_back 0 (reverse front))
