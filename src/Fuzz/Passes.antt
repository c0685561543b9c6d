-- ===== src/Fuzz/Passes.antt =====
-- The fuzz targets of the path, the query and the URI, on every input.
use sigv4_verify.Base.{
  ℕ, ◌≡◌, ◌≢◌, sym, ◌∙◌, refl, true, false, none, some, [], ◌∷◌, Bytes, bytes_eq_refl, All, IsByte,
  arith, Bool-cases, Result-cases, inl, inr, ok, ◌||◌, ◌==◌,
}
use sigv4_verify.Hex
use sigv4_verify.Hex.{is_hex, is_ascii_lowercase, upper_hex}
use sigv4_verify.Uri
use sigv4_verify.Uri.{is_canonical_path}
use sigv4_verify.Uri.Canonical.{
  canonical_uri_idem, is_canonical-plain, canonical_escape, kept_plain,
}
use sigv4_verify.Query
use sigv4_verify.Query.{SigV4Query}
use sigv4_verify.Query.Fixpoint.{canonical_query_idem}
use sigv4_verify.Internals.{
  split_original_uri, validate_raw_path, canonical_query, canonical_uri_from_valid_path,
}
use sigv4_verify.Fuzz.Defs.{
  is_unreserved, is_canonical_form, fuzz_canonical_path, fuzz_canonical_query, fuzz_split_uri,
  first_is_slash,
}

is_unreserved_lem : (c : ℕ) → is_unreserved c ≡ Hex.is_unreserved c
unfolding is_unreserved Hex.is_unreserved
is_unreserved_lem c = ground arith

upper_digit :
    (h : ℕ) → is_hex h ≡ true → h ≡ upper_hex h → (is_hex h ≡ true) × (is_ascii_lowercase h ≡ false)
unfolding is_hex upper_hex
upper_digit h p q = ground arith

is_canonical_form-plain :
    (c : ℕ) (r : Bytes)
    → ((c == b'/') || Hex.is_unreserved c) ≡ true
    → c ≢ b'%'
    → is_canonical_form (c ∷ r) ≡ is_canonical_form r
unfolding is_canonical_form
is_canonical_form-plain c [] h k = ground (arith, is_unreserved_lem c)
is_canonical_form-plain c (x ∷ []) h k = ground (arith, is_unreserved_lem c)
is_canonical_form-plain c (x ∷ y ∷ r) h k = ground (arith, is_unreserved_lem c)

is_canonical_form-escape :
    (h l : ℕ) (r : Bytes)
    → (is_hex h ≡ true) × (is_ascii_lowercase h ≡ false)
    → (is_hex l ≡ true) × (is_ascii_lowercase l ≡ false)
    → is_canonical_form (b'%' ∷ h ∷ l ∷ r) ≡ is_canonical_form r
unfolding is_canonical_form
is_canonical_form-escape h l r p q = ground arith

-- What the verifier takes for canonical has the form that the fuzz target demands.
is_canonical_path-form : (p : Bytes) → is_canonical_path p ≡ true → is_canonical_form p ≡ true
is_canonical_path-form [] e = unfold is_canonical_form in refl
is_canonical_path-form (c ∷ h ∷ l ∷ r) e = elim (Bool-cases ((c == b'/') || Hex.is_unreserved c)) [
  | inl g ↦
      is_canonical_form-plain c (h ∷ l ∷ r) g (kept_plain c g)
      ∙ is_canonical_path-form (h ∷ l ∷ r) (rw (is_canonical-plain c (h ∷ l ∷ r) g) at e)
  | inr g ↦
      let (x, y, z, u, v, k) = canonical_escape c h l r g e in
      rw x (
        is_canonical_form-escape h l r (upper_digit h y (sym u)) (upper_digit l z (sym v))
        ∙ is_canonical_path-form r k)
]
is_canonical_path-form (c ∷ r) e = elim (Bool-cases ((c == b'/') || Hex.is_unreserved c)) [
  | inl g ↦
      is_canonical_form-plain c r g (kept_plain c g)
      ∙ is_canonical_path-form r (rw (is_canonical-plain c r g) at e)
  | inr g ↦ unfold is_canonical_path in ground arith
]

fuzz_canonical_path_passes : (bytes : Bytes) → All IsByte bytes → fuzz_canonical_path bytes ≡ true
unfolding fuzz_canonical_path canonical_uri_from_valid_path
fuzz_canonical_path_passes bytes b =
    let (form, same) = canonical_uri_idem bytes b in
    let form' = is_canonical_path-form (Uri.canonical_uri_from_valid_path bytes) form in
    elim (Bool-cases (validate_raw_path bytes)) [
      | inl v ↦ rw (v, same, form', bytes_eq_refl (Uri.canonical_uri_from_valid_path bytes)) refl
      | inr v ↦ rw v refl
    ]

canonical_query-ok :
    (bytes : Bytes) {p : Bytes × SigV4Query}
    → Query.canonical_query bytes ≡ ok p
    → canonical_query bytes ≡ some p.0
unfolding canonical_query
canonical_query-ok bytes h = rw (canonical_query, h) refl

fuzz_canonical_query_passes : (bytes : Bytes) → All IsByte bytes → fuzz_canonical_query bytes ≡ true
unfolding fuzz_canonical_query
fuzz_canonical_query_passes bytes b = elim (Result-cases (Query.canonical_query bytes)) [
  | inr (e, bad) ↦
      let failed : canonical_query bytes ≡ none =
        unfold canonical_query in rw (canonical_query, bad) refl in
      rw (fuzz_canonical_query, failed) refl
  | inl ((out, values), good) ↦
      let (values', again) = canonical_query_idem bytes b good in
      rw (fuzz_canonical_query, canonical_query-ok bytes good, canonical_query-ok out again)
        (bytes_eq_refl out)
]

split-validates :
    (bytes : Bytes) {p : Bytes × Bytes}
    → Uri.split_original_uri bytes ≡ ok p
    → Uri.validate_raw_path p.0 ≡ ok tt
unfolding Uri.split_original_uri
split-validates bytes h = ground arith

validates-slash : (p : Bytes) → Uri.validate_raw_path p ≡ ok tt → first_is_slash p ≡ true
unfolding Uri.validate_raw_path
validates-slash [] h = ground arith
validates-slash (c ∷ r) h = ground arith

fuzz_split_uri_passes : (bytes : Bytes) → fuzz_split_uri bytes ≡ true
unfolding fuzz_split_uri split_original_uri validate_raw_path
fuzz_split_uri_passes bytes = elim (Result-cases (Uri.split_original_uri bytes)) [
  | inr (e, bad) ↦ rw (fuzz_split_uri, split_original_uri, bad) refl
  | inl (p, good) ↦
      let valid = split-validates bytes good in
      rw
        (
          fuzz_split_uri,
          split_original_uri,
          good,
          validate_raw_path,
          valid,
          validates-slash p.0 valid,
        )
        refl
]

-- On every string of bytes, the assertions of the fuzz targets for the canonical path, the
-- canonical query and the split of the URI hold.
pub fuzz_targets_pass :
    (bytes : Bytes)
    → All IsByte bytes
    → (fuzz_canonical_path bytes ≡ true)
      × (fuzz_canonical_query bytes ≡ true)
      × (fuzz_split_uri bytes ≡ true)
fuzz_targets_pass bytes b = (
  fuzz_canonical_path_passes bytes b,
  fuzz_canonical_query_passes bytes b,
  fuzz_split_uri_passes bytes,
)
