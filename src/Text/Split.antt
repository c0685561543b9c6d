-- ===== src/Text/Split.antt =====
-- The parts of `split` and `split_once`, and how they spell the whole.
use sigv4_verify.Base.{
  ℕ, ◌≡◌, ◌≢◌, refl, none, some, List, [], ◌∷◌, ◌++◌, arith, Bytes, ◌==◌, All, Bool-cases,
  Option-cases, inl, inr,
}
use sigv4_verify.Text.Defs.{split_once, split, cons_head}

abbrev pub Lacks : ℕ → Bytes → Type 0
Lacks b = All (λ c. c ≢ b)

pub split_once-some :
    (b : ℕ) (s : Bytes) (p : Bytes × Bytes)
    → split_once b s ≡ some p
    → (s ≡ p.0 ++ b ∷ p.1) × Lacks b p.0
unfolding split_once
split_once-some b [] p h = ground arith
split_once-some b (c ∷ r) p h = elim (Bool-cases (c == b)) [
  | inl e ↦ let e' : c ≡ b = ground arith in ground (arith, e')
  | inr e ↦ elim (Option-cases (split_once b r)) [
    | inl n ↦ ground arith
    | inr (q, hq) ↦ ground (arith, split_once-some b r q hq)
  ]
]

pub split_once-none : (b : ℕ) (s : Bytes) → split_once b s ≡ none → Lacks b s
unfolding split_once
split_once-none b [] h = tt
split_once-none b (c ∷ r) h = ground (arith, split_once-none b r)

-- The parts, joined by the delimiter, spell the text.
abbrev pub join : ℕ → List Bytes → Bytes
join b [] = []
join b (p ∷ []) = p
join b (p ∷ q ∷ ps) = p ++ b ∷ join b (q ∷ ps)

join-cons_head : (b c : ℕ) (ps : List Bytes) → join b (cons_head c ps) ≡ c ∷ join b ps
join-cons_head b c [] = refl
join-cons_head b c (p ∷ []) = refl
join-cons_head b c (p ∷ q ∷ ps) = refl

join-cons_nil : (b : ℕ) (ps : List Bytes) → ps ≢ [] → join b ([] ∷ ps) ≡ b ∷ join b ps
join-cons_nil b [] h = absurd (h refl)
join-cons_nil b (p ∷ ps) h = refl

cons_head-ne-nil : (c : ℕ) (ps : List Bytes) → cons_head c ps ≢ []
cons_head-ne-nil c [] = cc
cons_head-ne-nil c (p ∷ ps) = cc

pub split-ne-nil : (b : ℕ) (s : Bytes) → split b s ≢ []
unfolding split
split-ne-nil b [] = cc
split-ne-nil b (c ∷ r) = ground (arith, cons_head-ne-nil c (split b r))

pub join-split : (b : ℕ) (s : Bytes) → join b (split b s) ≡ s
unfolding split
join-split b [] = refl
join-split b (c ∷ r) = ground (
  arith,
  join-split b r,
  join-cons_head b c (split b r),
  join-cons_nil b (split b r),
  split-ne-nil b r,
)

cons_head-Lacks :
    (b c : ℕ) (ps : List Bytes) → c ≢ b → All (Lacks b) ps → All (Lacks b) (cons_head c ps)
cons_head-Lacks b c [] h a = ((h, tt), tt)
cons_head-Lacks b c (p ∷ ps) h (ap, aps) = ((h, ap), aps)

pub split-Lacks : (b : ℕ) (s : Bytes) → All (Lacks b) (split b s)
unfolding split
split-Lacks b [] = (tt, tt)
split-Lacks b (c ∷ r) = elim (Bool-cases (c == b)) [
  | inl e ↦ rw e (tt, split-Lacks b r)
  | inr e ↦ rw e (cons_head-Lacks b c (split b r) (ground arith) (split-Lacks b r))
]

-- A text without the delimiter is one part.
pub split-Lacks_one : (b : ℕ) (s : Bytes) → Lacks b s → split b s ≡ s ∷ []
unfolding split
split-Lacks_one b [] h = refl
split-Lacks_one b (c ∷ s) (hc, hs) = rw (split-Lacks_one b s hs) (ground arith)

-- The part before the first delimiter is cut off whole.
pub split-append : (b : ℕ) (s r : Bytes) → Lacks b s → split b (s ++ b ∷ r) ≡ s ∷ split b r
unfolding split
split-append b [] r h = ground arith
split-append b (c ∷ s) r (hc, hs) = rw (split-append b s r hs) (ground arith)
