-- ===== src/Text/Lossy.antt =====
-- `String::from_utf8_lossy`: each maximal part of a sequence that is not well formed becomes the
-- replacement character.
use sigv4_verify.Base.{true, false, none, some, List, [], ◌∷◌, ◌++◌, Bytes}
use sigv4_verify.Text.Utf8.{Range, in_range, utf8_tail}

abbrev pub replacement : Bytes
replacement = 0xEF ∷ 0xBF ∷ 0xBD ∷ []

-- `ranges` is what must follow, `pending` the bytes of the sequence so far.
abbrev pub flush : List Range → Bytes → Bytes
flush [] pending = pending
flush (w ∷ ws) pending = replacement

unfoldable pub lossy_loop : List Range → Bytes → Bytes → Bytes
unfolding utf8_tail
lossy_loop ranges pending [] = flush ranges pending
lossy_loop [] pending (b ∷ r) = pending ++ elim (utf8_tail b) [
  | none ↦ replacement ++ lossy_loop [] [] r
  | some ranges ↦ lossy_loop ranges (b ∷ []) r
]
lossy_loop (w ∷ ws) pending (b ∷ r) = elim (in_range b w) [
  | true ↦ lossy_loop ws (pending ++ b ∷ []) r
  | false ↦ replacement ++ elim (utf8_tail b) [
    | none ↦ replacement ++ lossy_loop [] [] r
    | some ranges ↦ lossy_loop ranges (b ∷ []) r
  ]
]

unfoldable pub from_utf8_lossy : Bytes → Bytes
unfolding lossy_loop
from_utf8_lossy s = lossy_loop [] [] s
