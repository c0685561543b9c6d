-- ===== src/Query/Values.antt =====
-- Which values the verifier reads from an accepted query, and what the canonical query leaves out.
use sigv4_verify.Base.{
  ℕ, ◌+◌, ◌≡◌, ◌≢◌, refl, ◌∙◌, ap, true, false, Option, none, some, List, [], ◌∷◌, arith, Bytes,
  bytes_eq, bytes_eq→eq, bytes_eq_refl, Bool-cases, Option-cases, inl, inr, if◌then◌else◌, ok,
  length,
}
use sigv4_verify.Text.{split}
use sigv4_verify.Query.Defs.{
  SigV4Query, default_query, KnownName, spelling, known_name, store, single_known_query_value,
  canonical_query,
}
use sigv4_verify.Query.Params.{Decoded, decode_parts, note, note_all}
use sigv4_verify.Query.Laws.{canonical_query_decoded}

-- The two fields that belong to a known name.
abbrev pub value_of : KnownName → SigV4Query → Bytes
value_of KnownName.algorithm q = q.algorithm
value_of KnownName.credential q = q.credential
value_of KnownName.date q = q.date
value_of KnownName.expires q = q.expires
value_of KnownName.signed_headers q = q.signed_headers
value_of KnownName.signature q = q.signature

abbrev pub count_of : KnownName → SigV4Query → ℕ
count_of KnownName.algorithm q = q.algorithm_count
count_of KnownName.credential q = q.credential_count
count_of KnownName.date q = q.date_count
count_of KnownName.expires q = q.expires_count
count_of KnownName.signed_headers q = q.signed_headers_count
count_of KnownName.signature q = q.signature_count

-- The values of the parameters of a name, in order.
abbrev pub values_named : Bytes → List Decoded → List Bytes
values_named name [] = []
values_named name (p ∷ ps) =
    if bytes_eq p.0 name then p.1 ∷ values_named name ps else values_named name ps

abbrev pub the_only : List Bytes → Option Bytes
the_only [] = none
the_only (v ∷ []) = some v
the_only (v ∷ w ∷ vs) = none

known_name-spelling : (k : KnownName) → known_name (spelling k) ≡ some k
unfolding known_name bytes_eq
known_name-spelling KnownName.algorithm = refl
known_name-spelling KnownName.credential = refl
known_name-spelling KnownName.date = refl
known_name-spelling KnownName.expires = refl
known_name-spelling KnownName.signed_headers = refl
known_name-spelling KnownName.signature = refl

known_name-eq : (n : Bytes) (k : KnownName) → known_name n ≡ some k → n ≡ spelling k
unfolding known_name
known_name-eq n k h = ground (arith, bytes_eq→eq n (spelling k))

store_same :
    (k : KnownName) (v : Bytes) (q : SigV4Query)
    → (value_of k (store k v q) ≡ v) × (count_of k (store k v q) ≡ count_of k q + 1)
unfolding store
store_same KnownName.algorithm v q = (refl, refl)
store_same k v q = (refl, refl)

store_other :
    (k j : KnownName) (v : Bytes) (q : SigV4Query)
    → k ≢ j
    → (value_of k (store j v q) ≡ value_of k q) × (count_of k (store j v q) ≡ count_of k q)
unfolding store
store_other KnownName.algorithm KnownName.algorithm v q h = absurd (h refl)
store_other k j v q h = ground arith

default_count : (k : KnownName) → count_of k default_query ≡ 0
default_count KnownName.algorithm = refl
default_count k = refl

single_lem :
    (value : Bytes) (count : ℕ) (vs : List Bytes)
    → count ≡ length vs
    → ((v : Bytes) → vs ≡ v ∷ [] → value ≡ v)
    → single_known_query_value value count ≡ the_only vs
unfolding single_known_query_value
single_lem value count [] e f = ground arith
single_lem value count (v ∷ []) e f = rw (e, f v refl) refl
single_lem value count (v ∷ w ∷ vs) e f = ground arith

module _ (k : KnownName) where
  abbrev Keeps : SigV4Query → SigV4Query → Type 0
  Keeps q q' = (value_of k q' ≡ value_of k q) × (count_of k q' ≡ count_of k q)

  note_named :
      (p : Decoded) (q : SigV4Query)
      → bytes_eq p.0 (spelling k) ≡ true
      → (value_of k (note p q) ≡ p.1) × (count_of k (note p q) ≡ count_of k q + 1)
  note_named (n, v) q h =
      let known : known_name n ≡ some k =
        ap known_name (bytes_eq→eq n (spelling k) h) ∙ known_name-spelling k in
      rw (known, note) (store_same k v q)

  note_other :
      (p : Decoded) (q : SigV4Query) → bytes_eq p.0 (spelling k) ≡ false → Keeps q (note p q)
  note_other (n, v) q h = elim (Option-cases (known_name n)) [
    | inl u ↦ rw (u, note) (refl, refl)
    | inr (j, known) ↦
        rw (known, note)
          (store_other k j v q
            (λ e. ground (arith, known_name-eq n j known, ap spelling e, bytes_eq_refl n)))
  ]

  note_all_count :
      (ps : List Decoded) (q : SigV4Query)
      → count_of k (note_all ps q) ≡ count_of k q + length (values_named (spelling k) ps)
  note_all_count [] q = omega arith
  note_all_count (p ∷ ps) q = elim (Bool-cases (bytes_eq p.0 (spelling k))) [
    | inl h ↦ rw h (omega (arith, note_all_count ps (note p q), note_named p q h))
    | inr h ↦ rw h (omega (arith, note_all_count ps (note p q), note_other p q h))
  ]

  note_all_absent :
      (ps : List Decoded) (q : SigV4Query)
      → values_named (spelling k) ps ≡ []
      → value_of k (note_all ps q) ≡ value_of k q
  note_all_absent [] q h = refl
  note_all_absent (p ∷ ps) q h = elim (Bool-cases (bytes_eq p.0 (spelling k))) [
    | inl e ↦ ground arith
    | inr e ↦ note_all_absent ps (note p q) (rw e at h) ∙ (note_other p q e).0
  ]

  note_all_single :
      (ps : List Decoded) (q : SigV4Query) {v : Bytes}
      → values_named (spelling k) ps ≡ v ∷ []
      → value_of k (note_all ps q) ≡ v
  note_all_single [] q h = cc
  note_all_single (p ∷ ps) q {v} h = elim (Bool-cases (bytes_eq p.0 (spelling k))) [
    | inl e ↦
        let h' : p.1 ∷ values_named (spelling k) ps ≡ v ∷ [] = rw e at h in
        note_all_absent ps (note p q) (ground arith) ∙ (note_named p q e).0 ∙ ground arith
    | inr e ↦ note_all_single ps (note p q) (rw e at h)
  ]

  single_known_query_value_lem :
      (ps : List Decoded)
      → single_known_query_value
          (value_of k (note_all ps default_query))
          (count_of k (note_all ps default_query))
        ≡ the_only (values_named (spelling k) ps)
  single_known_query_value_lem ps =
      single_lem _ _ (values_named (spelling k) ps)
        (omega (arith, note_all_count ps default_query, default_count k))
        (λ v e. note_all_single ps default_query e)

-- For an accepted non-empty query, what single_known_query_value reads for a known name is the
-- value of the only decoded parameter of that name, and nothing if there is none or more than one.
pub single_known_query_value-canonical_query :
    (k : KnownName) (query : Bytes) {out : Bytes} {values : SigV4Query}
    → query ≢ []
    → canonical_query query ≡ ok (out, values)
    → (ps : List Decoded) × (decode_parts (split b'&' query) ≡ ok ps)
      × (single_known_query_value (value_of k values) (count_of k values)
          ≡ the_only (values_named (spelling k) ps))
single_known_query_value-canonical_query k query n h =
    let (ps, hps, _, eq) = canonical_query_decoded query n h in
    (ps, hps, rw eq (single_known_query_value_lem k ps))
