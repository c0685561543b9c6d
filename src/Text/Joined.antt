-- ===== src/Text/Joined.antt =====
-- Cutting a text at the delimiters that `join` puts in.
use sigv4_verify.Base.{
  ℕ, ◌≡◌, ◌≢◌, refl, sym, inl, inr, Bool-cases, false, some, List, [], ◌∷◌, ◌++◌, arith, Bytes,
  ◌==◌, All,
}
use sigv4_verify.Text.Defs.{split_once, split, cons_head, ends_with_byte}
use sigv4_verify.Text.Split.{Lacks, join, split-append, split-ne-nil, split-Lacks_one}

pub split_once-append : (b : ℕ) (s r : Bytes) → Lacks b s → split_once b (s ++ b ∷ r) ≡ some (s, r)
unfolding split_once
split_once-append b [] r h = ground arith
split_once-append b (c ∷ s) r (hc, hs) = rw (split_once-append b s r hs) (ground arith)

pub split-join :
    (b : ℕ) (p : Bytes) (ps : List Bytes)
    → All (Lacks b) (p ∷ ps)
    → split b (join b (p ∷ ps)) ≡ p ∷ ps
split-join b p [] (hp, h) = split-Lacks_one b p hp
split-join b p (q ∷ ps) (hp, h) =
    rw (split-append b p (join b (q ∷ ps)) hp, split-join b q ps h) refl

-- The parts of two texts around a delimiter.
cons_head-append :
    (c : ℕ) (ps qs : List Bytes) → ps ≢ [] → cons_head c ps ++ qs ≡ cons_head c (ps ++ qs)
cons_head-append c [] qs h = absurd (h refl)
cons_head-append c (p ∷ ps) qs h = refl

pub split-around : (b : ℕ) (s r : Bytes) → split b (s ++ b ∷ r) ≡ split b s ++ split b r
unfolding split
split-around b [] r = ground arith
split-around b (c ∷ s) r = elim (Bool-cases (c == b)) [
  | inl e ↦ rw (e, split-around b s r) refl
  | inr e ↦
      rw (e, split-around b s r)
        (sym (cons_head-append c (split b s) (split b r) (split-ne-nil b s)))
]

pub ends_with_byte-Lacks : (b : ℕ) (s : Bytes) → Lacks b s → ends_with_byte b s ≡ false
ends_with_byte-Lacks b [] h = refl
ends_with_byte-Lacks b (c ∷ []) (hc, h) = ground arith
ends_with_byte-Lacks b (c ∷ d ∷ s) (hc, h) = ends_with_byte-Lacks b (d ∷ s) h

pub ends_with_byte-append :
    (b : ℕ) (s : Bytes) (c : ℕ) (r : Bytes)
    → ends_with_byte b (s ++ c ∷ r) ≡ ends_with_byte b (c ∷ r)
ends_with_byte-append b [] c r = refl
ends_with_byte-append b (x ∷ []) c r = refl
ends_with_byte-append b (x ∷ y ∷ s) c r = ends_with_byte-append b (y ∷ s) c r

pub append-ne-nil : (s : Bytes) (c : ℕ) (r : Bytes) → (s ++ c ∷ r) ≢ []
append-ne-nil [] c r h = ground arith
append-ne-nil (x ∷ s) c r h = ground arith
