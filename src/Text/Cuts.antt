-- ===== src/Text/Cuts.antt =====
-- Texts that are equal as wholes, cut at the same place.
use sigv4_verify.Base.{ℕ, ◌≡◌, refl, [], ◌∷◌, ◌++◌, arith, Bytes, length, length-append}
use sigv4_verify.Text.Split.{Lacks}

-- At a length.
pub cut_prefix :
    (xs xs' ys ys' : Bytes)
    → length xs ≡ length xs'
    → xs ++ ys ≡ xs' ++ ys'
    → (xs ≡ xs') × (ys ≡ ys')
cut_prefix [] [] ys ys' l h = (refl, h)
cut_prefix [] (x ∷ xs) ys ys' l h = ground arith
cut_prefix (x ∷ xs) [] ys ys' l h = ground arith
cut_prefix (x ∷ xs) (x' ∷ xs') ys ys' l h =
    let heads : x ≡ x' = ground arith in
    let tails : xs ++ ys ≡ xs' ++ ys' = ground arith in
    let (a, b) = cut_prefix xs xs' ys ys' (omega (arith, l)) tails in (rw (heads, a) refl, b)

pub cut_suffix :
    (xs xs' ys ys' : Bytes)
    → length ys ≡ length ys'
    → xs ++ ys ≡ xs' ++ ys'
    → (xs ≡ xs') × (ys ≡ ys')
cut_suffix xs xs' ys ys' l h =
    let whole : length (xs ++ ys) ≡ length (xs' ++ ys') = rw h refl in
    cut_prefix xs xs' ys ys' (omega (arith, whole, l, length-append xs ys, length-append xs' ys')) h

-- At the first delimiter.
pub cut_at :
    (b : ℕ) (xs xs' ys ys' : Bytes)
    → Lacks b xs
    → Lacks b xs'
    → xs ++ b ∷ ys ≡ xs' ++ b ∷ ys'
    → (xs ≡ xs') × (ys ≡ ys')
cut_at b [] [] ys ys' l l' h = ground arith
cut_at b [] (x ∷ xs) ys ys' l (ne, l') h = ground arith
cut_at b (x ∷ xs) [] ys ys' (ne, l) l' h = ground arith
cut_at b (x ∷ xs) (x' ∷ xs') ys ys' (_, l) (_, l') h =
    let heads : x ≡ x' = ground arith in
    let tails : xs ++ b ∷ ys ≡ xs' ++ b ∷ ys' = ground arith in
    let (a, c) = cut_at b xs xs' ys ys' l l' tails in (rw (heads, a) refl, c)
