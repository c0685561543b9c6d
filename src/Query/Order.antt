-- ===== src/Query/Order.antt =====
-- The comparator of the query parameters is a total order, so a list has one sorted order.
use mathlib.Core.List.{Perm, Permᴰ}
use mathlib.Core.List.Perm
use mathlib.Core.Logic.{∥∥₁_elim}
use native.Mathlib.Decide.{ℕ_discrete}
use sigv4_verify.Base.{
  ◌≡◌, refl, sym, ◌∙◌, true, false, List, [], ◌∷◌, arith, Bytes, bytes_eq→eq, bytes_eq_refl,
  Bool-cases, inl, inr,
}
use sigv4_verify.Query.Defs.{CanonicalQueryParam, bytes_le, param_le, insert_param, sort_params}

bytes_le_refl : (xs : Bytes) → bytes_le xs xs ≡ true
unfolding bytes_le
bytes_le_refl [] = refl
bytes_le_refl (x ∷ xs) = ground (arith, bytes_le_refl xs)

bytes_le_total : (xs ys : Bytes) → bytes_le xs ys ≡ false → bytes_le ys xs ≡ true
unfolding bytes_le
bytes_le_total [] ys h = ground arith
bytes_le_total (x ∷ xs) [] h = refl
bytes_le_total (x ∷ xs) (y ∷ ys) h = ground (arith, bytes_le_total xs ys)

bytes_le_antisym : (xs ys : Bytes) → bytes_le xs ys ≡ true → bytes_le ys xs ≡ true → xs ≡ ys
unfolding bytes_le
bytes_le_antisym [] [] h k = refl
bytes_le_antisym [] (y ∷ ys) h k = ground arith
bytes_le_antisym (x ∷ xs) [] h k = ground arith
bytes_le_antisym (x ∷ xs) (y ∷ ys) h k = ground (arith, bytes_le_antisym xs ys)

bytes_le_trans :
    (xs ys zs : Bytes) → bytes_le xs ys ≡ true → bytes_le ys zs ≡ true → bytes_le xs zs ≡ true
unfolding bytes_le
bytes_le_trans [] ys zs h k = refl
bytes_le_trans (x ∷ xs) [] zs h k = ground arith
bytes_le_trans (x ∷ xs) (y ∷ ys) [] h k = ground arith
bytes_le_trans (x ∷ xs) (y ∷ ys) (z ∷ zs) h k = ground (arith, bytes_le_trans xs ys zs)

module _ (a b : CanonicalQueryParam) where
  pub param_le_total : param_le a b ≡ false → param_le b a ≡ true
  unfolding param_le
  param_le_total h = ground (
    arith,
    bytes_le_total a.name b.name,
    bytes_le_total a.value b.value,
    bytes_eq→eq a.name b.name,
    bytes_eq→eq b.name a.name,
    bytes_eq_refl a.name,
    bytes_eq_refl b.name,
  )

  pub param_le_antisym : param_le a b ≡ true → param_le b a ≡ true → a ≡ b
  unfolding param_le
  param_le_antisym h k = ground (
    arith,
    bytes_le_antisym a.name b.name,
    bytes_le_antisym a.value b.value,
    bytes_eq→eq a.name b.name,
    bytes_eq→eq b.name a.name,
    bytes_eq_refl a.name,
    bytes_eq_refl b.name,
  )

pub param_le_trans :
    (a b c : CanonicalQueryParam) → param_le a b ≡ true → param_le b c ≡ true → param_le a c ≡ true
unfolding param_le
param_le_trans a b c h k = ground (
  arith,
  bytes_le_antisym a.name b.name,
  bytes_le_trans a.value b.value c.value,
  bytes_le_trans a.name b.name c.name,
  bytes_eq→eq a.name b.name,
  bytes_eq→eq b.name c.name,
  bytes_eq→eq a.name c.name,
  bytes_eq_refl a.name,
)

-- Two insertions commute.
insert_param_comm :
    (a b : CanonicalQueryParam) (ps : List CanonicalQueryParam)
    → insert_param a (insert_param b ps) ≡ insert_param b (insert_param a ps)
unfolding insert_param
insert_param_comm a b [] = ground (arith, param_le_total a b, param_le_antisym a b)
insert_param_comm a b (p ∷ ps) = ground (
  arith,
  insert_param_comm a b ps,
  param_le_total a b,
  param_le_antisym a b,
  param_le_total a p,
  param_le_total b p,
  param_le_trans a b p,
  param_le_trans b a p,
)

-- Each parameter comes before the next.
abbrev pub IsSorted : List CanonicalQueryParam → Type 0
IsSorted [] = Unit
IsSorted (a ∷ []) = Unit
IsSorted (a ∷ b ∷ ps) = (param_le a b ≡ true) × IsSorted (b ∷ ps)

insert_param-IsSorted :
    (a : CanonicalQueryParam) (ps : List CanonicalQueryParam)
    → IsSorted ps
    → IsSorted (insert_param a ps)
unfolding insert_param
insert_param-IsSorted a [] s = tt
insert_param-IsSorted a (b ∷ []) s = elim (Bool-cases (param_le a b)) [
  | inl h ↦ rw h (h, tt)
  | inr h ↦ rw h (param_le_total a b h, tt)
]
insert_param-IsSorted a (b ∷ c ∷ ps) (bc, s) = elim (Bool-cases (param_le a b)) [
  | inl h ↦ rw h (h, (bc, s))
  | inr h ↦
      let ih = insert_param-IsSorted a (c ∷ ps) s in
      elim (Bool-cases (param_le a c)) [
        | inl k ↦ rw (h, k) (param_le_total a b h, (k, s))
        | inr k ↦ rw (h, k) (bc, rw k at ih)
      ]
]

-- The sort gives a sorted list.
pub sort_params-IsSorted : (ps : List CanonicalQueryParam) → IsSorted (sort_params ps)
unfolding sort_params
sort_params-IsSorted [] = tt
sort_params-IsSorted (p ∷ ps) = insert_param-IsSorted p (sort_params ps) (sort_params-IsSorted ps)

insert_param-perm :
    (a : CanonicalQueryParam) (ps : List CanonicalQueryParam) → Perm (insert_param a ps) (a ∷ ps)
unfolding insert_param
insert_param-perm a [] = Perm.refl _
insert_param-perm a (b ∷ ps) = elim (Bool-cases (param_le a b)) [
  | inl h ↦ rw h (Perm.refl _)
  | inr h ↦ rw h (Perm.trans (Perm.cons b (insert_param-perm a ps)) (Perm.swap a b ps))
]

-- The sort rearranges its input.
pub sort_params-perm : (ps : List CanonicalQueryParam) → Perm (sort_params ps) ps
unfolding sort_params
sort_params-perm [] = Perm.refl _
sort_params-perm (p ∷ ps) =
    Perm.trans (insert_param-perm p (sort_params ps)) (Perm.cons p (sort_params-perm ps))

-- A sorted list is its own sort.
pub sort_params-fixed : (ps : List CanonicalQueryParam) → IsSorted ps → sort_params ps ≡ ps
unfolding sort_params insert_param
sort_params-fixed [] s = refl
sort_params-fixed (a ∷ []) s = refl
sort_params-fixed (a ∷ b ∷ ps) (ab, s) = rw (sort_params-fixed (b ∷ ps) s) (ground arith)

sort_params-Permᴰ :
    {ps qs : List CanonicalQueryParam} → Permᴰ ps qs → sort_params ps ≡ sort_params qs
unfolding sort_params
sort_params-Permᴰ Permᴰ.nil = refl
sort_params-Permᴰ (Permᴰ.cons {b = b} e d) = rw (e, sort_params-Permᴰ d)
sort_params-Permᴰ (Permᴰ.swap {a = a} {b = b} {l = l} e f) =
    rw (← e, ← f) (insert_param_comm a b (sort_params l))
sort_params-Permᴰ (Permᴰ.trans d f) = sort_params-Permᴰ d ∙ sort_params-Permᴰ f

params_set : IsSet (List CanonicalQueryParam)
params_set = hlevel ℕ_discrete

-- Rearranged parameters are sorted into the same list.
pub sort_params-Perm :
    {ps qs : List CanonicalQueryParam} → Perm ps qs → sort_params ps ≡ sort_params qs
sort_params-Perm d = ∥∥₁_elim d (params_set _ _) sort_params-Permᴰ

-- A sorted rearrangement of the query parameters is the result of sort_params, so the stability of
-- the sort does not matter.
pub sort_params_unique :
    (ps sorted : List CanonicalQueryParam)
    → IsSorted sorted
    → Perm sorted ps
    → sorted ≡ sort_params ps
sort_params_unique ps sorted s d = sym (sort_params-fixed sorted s) ∙ sort_params-Perm d
