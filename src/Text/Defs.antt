-- ===== src/Text/Defs.antt =====
-- Slice and `str` methods that the crates call. A `&str` is its UTF-8 bytes; the methods that the
-- source uses cut at ASCII delimiters, so they act alike on the bytes.
use sigv4_verify.Base.{
  ℕ, Bool, false, ◌||◌, Option, none, some, List, [], ◌∷◌, Bytes, ◌==◌, if◌then◌else◌,
}

-- `first() == Some(b)`, which is `starts_with` a one-byte text.
abbrev pub starts_with_byte : ℕ → Bytes → Bool
starts_with_byte b [] = false
starts_with_byte b (c ∷ r) = c == b

-- `last() == Some(b)`.
abbrev pub ends_with_byte : ℕ → Bytes → Bool
ends_with_byte b [] = false
ends_with_byte b (c ∷ []) = c == b
ends_with_byte b (c ∷ d ∷ r) = ends_with_byte b (d ∷ r)

-- `iter().any(f)`; `contains(b)` is the case of a test for one value.
unfoldable pub any : (ℕ → Bool) → Bytes → Bool
any f [] = false
any f (c ∷ r) = f c || any f r

-- The bytes before and after the first `b`: `position` and the two slices, or `split_once`.
unfoldable pub split_once : ℕ → Bytes → Option (Bytes × Bytes)
split_once b [] = none
split_once b (c ∷ r) =
    if c == b
    then some ([], r)
    else elim (split_once b r) [ none ↦ none | some p ↦ some (c ∷ p.0, p.1) ]

-- `c` put in front of the first part.
abbrev pub cons_head : ℕ → List Bytes → List Bytes
cons_head c [] = (c ∷ []) ∷ []
cons_head c (p ∷ ps) = (c ∷ p) ∷ ps

-- `split(b)`: the parts between the delimiters; there is always one.
unfoldable pub split : ℕ → Bytes → List Bytes
split b [] = [] ∷ []
split b (c ∷ r) = if c == b then [] ∷ split b r else cons_head c (split b r)
