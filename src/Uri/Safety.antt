-- ===== src/Uri/Safety.antt =====
-- The contract of `validate_raw_path` and of `split_original_uri`.
use sigv4_verify.Base.{
  ℕ, ◌<◌, ◌≡◌, ◌≢◌, ◌⊎◌, refl, true, false, List, [], ◌∷◌, ◌++◌, arith, Bytes, codes, ◌==◌,
  bytes_eq, bytes_eq_refl, Option-cases, ok, All, Bool-cases, decide_eq, inl, inr, false≢true, sym,
  ◌∙◌, ap, >>-eq-ok, ◌>>◌,
}
use sigv4_verify.Percent.{percent_decode}
use sigv4_verify.Percent.Decode.{percent_decode-plain}
use sigv4_verify.Text.{split, any, split_once}
use sigv4_verify.Text.Split.{Lacks, split_once-some, split_once-none}
use sigv4_verify.Uri.Segments.{
  DecodesClean, validate_bytes-clean, validate-plain, validate-escape, validate-visible,
  is_hex-visible,
}
use sigv4_verify.Uri.Defs.{
  validate_bytes, validate_segment, validate_segments, validate_raw_path, is_dot_segment,
  has_double_slash, split_original_uri, path_and_query,
}

-- A segment that decodes to a name: it has no slash and is not `.` or `..`.
pub record IsSafeSegment (s : Bytes) : Type 0 where
  pub decoded : Bytes
  pub decodes : percent_decode s ≡ ok decoded
  pub no_slash : Lacks b'/' decoded
  pub no_dot : decoded ≢ codes "."
  pub no_dots : decoded ≢ codes ".."

abbrev pub IsVisible : ℕ → Type 0
IsVisible c = (0x20 < c) × (c ≢ 0x7f)

pub record IsSafePath (path : Bytes) : Type 0 where
  pub rest : Bytes
  pub absolute : path ≡ b'/' ∷ rest
  pub no_empty_segment : (a b : Bytes) → path ≢ a ++ b'/' ∷ b'/' ∷ b
  pub visible : All IsVisible path
  pub segments : All IsSafeSegment (split b'/' rest)

percent_decode-verbatim : (s : Bytes) → any (λ b. b == b'%') s ≡ false → percent_decode s ≡ ok s
unfolding any
percent_decode-verbatim [] h = unfold percent_decode in refl
percent_decode-verbatim (c ∷ s) h =
    ground (arith, percent_decode-plain c s, percent_decode-verbatim s)

not_dot : (d : Bytes) → is_dot_segment d ≡ false → (d ≢ codes ".") × (d ≢ codes "..")
not_dot d h = ground (arith, bytes_eq_refl (codes "."), bytes_eq_refl (codes ".."))

validated_name :
    (s d : Bytes) → percent_decode s ≡ ok d → validate_segment s ≡ ok tt → is_dot_segment d ≡ false
unfolding validate_segment
validated_name [] d e v = unfold percent_decode bytes_eq in ground arith
validated_name (c ∷ s) d e v = elim (Bool-cases (any (λ b. b == b'%') (c ∷ s))) [
  | inl escaped ↦ ground arith
  | inr plain ↦ ground (arith, percent_decode-verbatim (c ∷ s) plain)
]

validate_segment-IsSafe :
    (s : Bytes) → DecodesClean s → validate_segment s ≡ ok tt → IsSafeSegment s
unfolding validate_segment
validate_segment-IsSafe [] (d, e, a) v = record {
  decoded = [];
  decodes = unfold percent_decode in refl;
  no_slash = tt;
  no_dot = cc;
  no_dots = cc;
}
validate_segment-IsSafe (c ∷ s) (d, e, a) v =
    let (x, y) = not_dot d (validated_name (c ∷ s) d e v) in
    record { decoded = d; decodes = e; no_slash = a; no_dot = x; no_dots = y }

validate_segments-IsSafe :
    (ps : List Bytes) → All DecodesClean ps → validate_segments ps ≡ ok tt → All IsSafeSegment ps
unfolding validate_segments
validate_segments-IsSafe [] a v = tt
validate_segments-IsSafe (s ∷ rest) (a, as') v =
    let (x, y) = >>-eq-ok (validate_segment s) (validate_segments rest) v in
    (validate_segment-IsSafe s a x, validate_segments-IsSafe rest as' y)

double_slash_found : (a b : Bytes) → has_double_slash (a ++ b'/' ∷ b'/' ∷ b) ≡ true
unfolding has_double_slash
double_slash_found [] b = ground arith
double_slash_found (x ∷ []) b = ground arith
double_slash_found (x ∷ y ∷ a) b = ground (arith, double_slash_found (y ∷ a) b)

validate_bytes-IsVisible : (p : Bytes) → validate_bytes p ≡ ok tt → All IsVisible p
validate_bytes-IsVisible [] e = tt
validate_bytes-IsVisible (c ∷ h ∷ l ∷ r) e = elim (decide_eq c b'%') [
  | inr p ↦ (
    validate-visible c (h ∷ l ∷ r) e,
    validate_bytes-IsVisible (h ∷ l ∷ r) (validate-plain c (h ∷ l ∷ r) p e),
  )
  | inl p ↦
      let e' : validate_bytes (b'%' ∷ h ∷ l ∷ r) ≡ ok tt = rw p at e in
      let (x, y, n, k) = validate-escape h l r e' in
      (
        validate-visible c (h ∷ l ∷ r) e,
        (is_hex-visible h x, (is_hex-visible l y, validate_bytes-IsVisible r k)),
      )
]
validate_bytes-IsVisible (c ∷ r) e = elim (decide_eq c b'%') [
  | inr p ↦ (validate-visible c r e, validate_bytes-IsVisible r (validate-plain c r p e))
  | inl p ↦ unfold validate_bytes in ground arith
]

-- The chain of tests in an accepting call.
validated_parts :
    (c : ℕ) (rest : Bytes)
    → validate_raw_path (c ∷ rest) ≡ ok tt
    → (c ≡ b'/')
      × (has_double_slash (c ∷ rest) ≡ false)
      × ((validate_bytes (c ∷ rest) >> validate_segments (split b'/' rest)) ≡ ok tt)
unfolding validate_raw_path
validated_parts c rest e = ground arith

-- A path that validate_raw_path accepts is absolute, has no empty inner segment and no blank or
-- control byte, and each of its segments decodes to a name that has no slash and is neither a dot
-- nor two dots.
pub validate_raw_path-IsSafePath : (path : Bytes) → validate_raw_path path ≡ ok tt → IsSafePath path
unfolding validate_raw_path
validate_raw_path-IsSafePath [] e = ground arith
validate_raw_path-IsSafePath (c ∷ rest) e =
    let (slash, single, checked) = validated_parts c rest e in
    let (scan, names) =
      >>-eq-ok (validate_bytes (c ∷ rest)) (validate_segments (split b'/' rest)) checked in
    record {
      rest = rest;
      absolute = rw slash;
      no_empty_segment =
          λ a b p. false≢true (sym single ∙ ap has_double_slash p ∙ double_slash_found a b);
      visible = validate_bytes-IsVisible (c ∷ rest) scan;
      segments =
          validate_segments-IsSafe (split b'/' rest)
            (validate_bytes-clean rest (validate-plain c rest (omega arith) scan)) names;
    }

split_parts :
    (raw_uri path query : Bytes)
    → split_original_uri raw_uri ≡ ok (path, query)
    → (validate_raw_path path ≡ ok tt) × (path_and_query raw_uri ≡ (path, query))
unfolding split_original_uri
split_parts raw_uri path query e = ground arith

-- An accepted request URI has a safe path with no question mark, and it is that path alone with an
-- empty query, or the path, a question mark and the query.
pub split_original_uri-IsSafePath :
    (raw_uri path query : Bytes)
    → split_original_uri raw_uri ≡ ok (path, query)
    → IsSafePath path
      × Lacks b'?' path
      × (((raw_uri ≡ path) × (query ≡ [])) ⊎ (raw_uri ≡ path ++ b'?' ∷ query))
split_original_uri-IsSafePath raw_uri path query e =
    let (valid, parts) = split_parts raw_uri path query e in
    elim (Option-cases (split_once b'?' raw_uri)) [
      | inl absent ↦
          let same : (raw_uri ≡ path) × (query ≡ []) = ground arith in
          (
            validate_raw_path-IsSafePath path valid,
            rw (sym same.0) (split_once-none b'?' raw_uri absent),
            inl same,
          )
      | inr (p, found) ↦
          let same : (p.0 ≡ path) × (p.1 ≡ query) = ground arith in
          let spelled = split_once-some b'?' raw_uri p found in
          (validate_raw_path-IsSafePath path valid, rw (sym same.0) spelled.1, inr (ground arith))
    ]
