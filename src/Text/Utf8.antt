-- ===== src/Text/Utf8.antt =====
-- `str::from_utf8`, which `String::from_utf8` shares: the well-formed byte sequences of UTF-8.
use sigv4_verify.Base.{
  ℕ, Bool, true, false, ◌&&◌, Option, none, some, List, [], ◌∷◌, Bytes, ltb, leb, ◌==◌,
  if◌then◌else◌,
}

abbrev pub Range : Type 0
Range = ℕ × ℕ

abbrev pub in_range : ℕ → Range → Bool
in_range b (lo, hi) = leb lo b && leb b hi

abbrev continuation : Range
continuation = (0x80, 0xBF)

-- The ranges of the bytes that must follow a first byte, or `none` if it cannot stand first.
unfoldable pub utf8_tail : ℕ → Option (List Range)
utf8_tail b =
    if ltb b 0x80
    then some []
    else if in_range b (0xC2, 0xDF)
    then some (continuation ∷ [])
    else if b == 0xE0
    then some ((0xA0, 0xBF) ∷ continuation ∷ [])
    else if b == 0xED
    then some ((0x80, 0x9F) ∷ continuation ∷ [])
    else if in_range b (0xE1, 0xEF)
    then some (continuation ∷ continuation ∷ [])
    else if b == 0xF0
    then some ((0x90, 0xBF) ∷ continuation ∷ continuation ∷ [])
    else if in_range b (0xF1, 0xF3)
    then some (continuation ∷ continuation ∷ continuation ∷ [])
    else if b == 0xF4
    then some ((0x80, 0x8F) ∷ continuation ∷ continuation ∷ [])
    else none

unfoldable pub is_utf8_after : List Range → Bytes → Bool
unfolding utf8_tail
is_utf8_after [] [] = true
is_utf8_after (w ∷ ws) [] = false
is_utf8_after (w ∷ ws) (b ∷ r) = in_range b w && is_utf8_after ws r
is_utf8_after [] (b ∷ r) = elim (utf8_tail b) [ none ↦ false | some ws ↦ is_utf8_after ws r ]

unfoldable pub is_utf8 : Bytes → Bool
unfolding is_utf8_after
is_utf8 bytes = is_utf8_after [] bytes
