-- ===== src/Query/Laws.antt =====
-- What the canonical query depends on, and which values the verifier reads from it.
use mathlib.Core.List.{Perm, Permᴰ}
use mathlib.Core.List.Perm
use mathlib.Core.Logic.{∥∥₁_elim}
use mathlib.Core.HLevel.{⊥_prop}
use native.Mathlib.Decide.{ℕ_discrete}
use sigv4_verify.Base.{
  ◌≡◌, ◌≢◌, refl, sym, ◌∙◌, false, Option, none, some, List, [], ◌∷◌, arith, Bytes, bytes_eq,
  bytes_eq→eq, Bool-cases, Result-cases, inl, inr, ok, err,
}
use sigv4_verify.Percent.{UriResult, UriError}
use sigv4_verify.Text.{ends_with_byte, split}
use sigv4_verify.Query.Defs.{
  SigV4Query, default_query, CanonicalQueryParam, cons_some, sort_params, write_params,
  canonical_query,
}
use sigv4_verify.Query.Order.{sort_params-Perm}
use sigv4_verify.Query.Params.{
  Decoded, decode_part, decode_parts, note_all, pushed, pushed_all, described,
  canonical_query-described,
}

-- Decoding rearranged parts succeeds too, and gives rearranged parameters.
abbrev Rearranged : List Decoded → List Bytes → Type 0
Rearranged ps parts =
    (qs : List Decoded) × (decode_parts parts ≡ ok qs) × Perm (pushed_all ps) (pushed_all qs)

pub decode_parts-cons :
    (part : Bytes) (parts : List Bytes) {ps : List Decoded}
    → decode_parts (part ∷ parts) ≡ ok ps
    → (p : Decoded) × (rest : List Decoded) × (decode_part part ≡ ok p)
      × (decode_parts parts ≡ ok rest)
      × (ps ≡ p ∷ rest)
unfolding decode_parts
decode_parts-cons part parts h = elim (Result-cases (decode_part part)) [
  | inl (p, hp) ↦ elim (Result-cases (decode_parts parts)) [
    | inl (rest, hr) ↦ (p, rest, hp, hr, ground arith)
    | inr (e, he) ↦ ground arith
  ]
  | inr (e, he) ↦ ground arith
]

pub cons_decode_parts :
    (part : Bytes) (parts : List Bytes) (p : Decoded) (ps : List Decoded)
    → decode_part part ≡ ok p
    → decode_parts parts ≡ ok ps
    → decode_parts (part ∷ parts) ≡ ok (p ∷ ps)
unfolding decode_parts
cons_decode_parts part parts p ps h k = rw (h, k) refl

cons_some-perm :
    (o : Option CanonicalQueryParam) {ps qs : List CanonicalQueryParam}
    → Perm ps qs
    → Perm (cons_some o ps) (cons_some o qs)
cons_some-perm none d = d
cons_some-perm (some p) d = Perm.cons p d

cons_some-swap :
    (o o' : Option CanonicalQueryParam) (ps : List CanonicalQueryParam)
    → Perm (cons_some o (cons_some o' ps)) (cons_some o' (cons_some o ps))
cons_some-swap none o' ps = Perm.refl _
cons_some-swap (some p) none ps = Perm.refl _
cons_some-swap (some p) (some q) ps = Perm.swap q p ps

decode_parts-Permᴰ :
    {parts parts' : List Bytes} (ps : List Decoded)
    → Permᴰ parts parts'
    → decode_parts parts ≡ ok ps
    → Rearranged ps parts'
decode_parts-Permᴰ ps Permᴰ.nil h = (ps, h, Perm.refl _)
decode_parts-Permᴰ ps (Permᴰ.cons {a = a} {b = b} {l₁ = l} {l₂ = m} e d) h =
    let (p, rest, hp, hr, eq) = decode_parts-cons a l h in
    let (qs, hq, dq) = decode_parts-Permᴰ rest d hr in
    (p ∷ qs, cons_decode_parts b m p qs (rw (← e) hp) hq, rw eq (cons_some-perm (pushed p) dq))
decode_parts-Permᴰ ps (Permᴰ.swap {a = a} {b = b} {a' = a'} {b' = b'} {l = l} e f) h =
    let (p, r, hp, hr, eq) = decode_parts-cons a (b ∷ l) h in
    let (q, rest, hq, hrest, eq') = decode_parts-cons b l hr in
    (
      q ∷ p ∷ rest,
      cons_decode_parts a' (b' ∷ l) q (p ∷ rest) (rw (← f) hq)
          (cons_decode_parts b' l p rest (rw (← e) hp) hrest),
      rw (eq, eq') (cons_some-swap (pushed p) (pushed q) (pushed_all rest)),
    )
decode_parts-Permᴰ ps (Permᴰ.trans {l₂ = m} d f) h =
    let (qs, hq, dq) = decode_parts-Permᴰ ps d h in
    let (rs, hr, dr) = decode_parts-Permᴰ qs f hq in (rs, hr, Perm.trans dq dr)

ok-ne-err : {A : Type 0} {a : A} {e : UriError} → ◌≢◌ {A = UriResult A} (ok a) (err e)
ok-ne-err h = cc

pub ne-nil : {xs : Bytes} → xs ≢ [] → bytes_eq xs [] ≡ false
ne-nil {xs} h = elim (Bool-cases (bytes_eq xs [])) [
  | inl e ↦ absurd (h (bytes_eq→eq xs [] e))
  | inr e ↦ e
]

accepted_end :
    (query : Bytes) {r : Bytes × SigV4Query}
    → canonical_query query ≡ ok r
    → query ≢ []
    → ends_with_byte b'&' query ≡ false
unfolding canonical_query
accepted_end [] h k = absurd (k refl)
accepted_end (c ∷ q) h k = ground arith

ok-injective : {A : Type 0} {a b : A} → ◌≡◌ {A = UriResult A} (ok a) (ok b) → a ≡ b
ok-injective h = cc

params_set : IsSet (List CanonicalQueryParam)
params_set = hlevel ℕ_discrete

decode_parts-Perm :
    {parts parts' : List Bytes} (ps : List Decoded)
    → Perm parts parts'
    → decode_parts parts ≡ ok ps
    → (qs : List Decoded) × (decode_parts parts' ≡ ok qs)
      × (sort_params (pushed_all ps) ≡ sort_params (pushed_all qs))
decode_parts-Perm {parts'} ps d h = elim (Result-cases (decode_parts parts')) [
  | inl (qs, hq) ↦ (
    qs,
    hq,
    ∥∥₁_elim d (params_set _ _) λ dd.
        let (rs, hr, dr) = decode_parts-Permᴰ ps dd h in
        let same : rs ≡ qs = ok-injective (sym hr ∙ hq) in rw (← same) (sort_params-Perm dr),
  )
  | inr (e, he) ↦ absurd (
      ∥∥₁_elim d ⊥_prop
        λ dd. let (rs, hr, dr) = decode_parts-Permᴰ ps dd h in ok-ne-err (sym hr ∙ he))
]

-- A successful call on a query that is not empty has decoded all its parts.
pub canonical_query_decoded :
    (query : Bytes) {out : Bytes} {values : SigV4Query}
    → query ≢ []
    → canonical_query query ≡ ok (out, values)
    → (ps : List Decoded) × (decode_parts (split b'&' query) ≡ ok ps)
      × (out ≡ write_params (sort_params (pushed_all ps)))
      × (values ≡ note_all ps default_query)
canonical_query_decoded query {out} {values} k h =
    let described_ok : described (decode_parts (split b'&' query)) ≡ ok (out, values) =
      sym (canonical_query-described query (ne-nil k) (accepted_end query h k)) ∙ h in
    elim (Result-cases (decode_parts (split b'&' query))) [
      | inl (ps, hps) ↦
          let same : described (ok ps) ≡ ok (out, values) = rw hps at described_ok in
          (ps, hps, ground arith, ground arith)
      | inr (e, he) ↦
          let bad : described (err e) ≡ ok (out, values) = rw he at described_ok in ground arith
    ]

-- If a non-empty query is accepted, a non-empty query with the same parts rearranged that does not
-- end in an ampersand is accepted too, with the same canonical query.
pub canonical_query-order :
    (query query' : Bytes) {out : Bytes} {values : SigV4Query}
    → query ≢ []
    → query' ≢ []
    → ends_with_byte b'&' query' ≡ false
    → Perm (split b'&' query) (split b'&' query')
    → canonical_query query ≡ ok (out, values)
    → (values' : SigV4Query) × (canonical_query query' ≡ ok (out, values'))
canonical_query-order query query' k k' last d h =
    let (ps, hps, eq, _) = canonical_query_decoded query k h in
    let (qs, hqs, same) = decode_parts-Perm ps d hps in
    (
      note_all qs default_query,
      rw (canonical_query-described query' (ne-nil k') last, hqs, eq, same) refl,
    )
