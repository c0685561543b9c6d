-- ===== src/Query/Fixpoint.antt =====
-- `canonical_query` of what `canonical_query` writes.
use sigv4_verify.Base.{
  ◌≡◌, ◌≢◌, refl, ◌∙◌, false, List, [], ◌∷◌, map, arith, Bytes, Bool-cases, inl, inr, ok, All,
  IsByte,
}
use sigv4_verify.Text.{split, ends_with_byte}
use sigv4_verify.Text.Split.{Lacks, join}
use sigv4_verify.Text.Joined.{
  append-ne-nil, split-join, ends_with_byte-Lacks, ends_with_byte-append,
}
use sigv4_verify.Query.Defs.{
  SigV4Query, default_query, CanonicalQueryParam, write_params, sort_params, insert_param, param_le,
  canonical_query,
}
use sigv4_verify.Query.Order.{sort_params-IsSorted, sort_params-fixed}
use sigv4_verify.Query.Params.{pushed_all, note_all, canonical_query-described}
use sigv4_verify.Query.Laws.{canonical_query_decoded, ne-nil}
use sigv4_verify.Query.Written.{
  IsWritten, written, written-Lacks, written-ne-nil, write_params-join, decode_parts-written,
}
use sigv4_verify.Query.Pieces.{split-All, decode_parts-IsWritten}

insert_param-All :
    (P : CanonicalQueryParam → Type 0) (p : CanonicalQueryParam) (ps : List CanonicalQueryParam)
    → P p
    → All P ps
    → All P (insert_param p ps)
unfolding insert_param
insert_param-All P p [] hp h = (hp, tt)
insert_param-All P p (q ∷ qs) hp (hq, h) = elim (Bool-cases (param_le p q)) [
  | inl e ↦ rw e (hp, (hq, h))
  | inr e ↦ rw e (hq, insert_param-All P p qs hp h)
]

sort_params-All :
    (P : CanonicalQueryParam → Type 0) (ps : List CanonicalQueryParam)
    → All P ps
    → All P (sort_params ps)
unfolding sort_params
sort_params-All P [] h = tt
sort_params-All P (p ∷ ps) (hp, h) =
    insert_param-All P p (sort_params ps) hp (sort_params-All P ps h)

parts-Lacks : (ps : List CanonicalQueryParam) → All IsWritten ps → All (Lacks b'&') (map written ps)
parts-Lacks [] h = tt
parts-Lacks (p ∷ ps) (w, h) = (written-Lacks p w, parts-Lacks ps h)

ends_with_byte_cons : (s : Bytes) → s ≢ [] → ends_with_byte b'&' (b'&' ∷ s) ≡ ends_with_byte b'&' s
ends_with_byte_cons [] h = absurd (h refl)
ends_with_byte_cons (c ∷ s) h = refl

pub join-ne-nil :
    (q : CanonicalQueryParam) (ps : List CanonicalQueryParam)
    → join b'&' (map written (q ∷ ps)) ≢ []
join-ne-nil q [] h = written-ne-nil q h
join-ne-nil q (r ∷ ps) h = append-ne-nil (written q) b'&' (join b'&' (map written (r ∷ ps))) h

-- What is written does not end in an ampersand.
written_end :
    (p : CanonicalQueryParam) (ps : List CanonicalQueryParam)
    → All IsWritten (p ∷ ps)
    → ends_with_byte b'&' (join b'&' (map written (p ∷ ps))) ≡ false
written_end p [] (w, h) = ends_with_byte-Lacks b'&' (written p) (written-Lacks p w)
written_end p (q ∷ ps) (w, h) =
    ends_with_byte-append b'&' (written p) b'&' (join b'&' (map written (q ∷ ps)))
    ∙ ends_with_byte_cons (join b'&' (map written (q ∷ ps))) (join-ne-nil q ps)
    ∙ written_end q ps h

-- A canonical query of bytes is accepted, and is its own canonical query.
written-fixed :
    (ps : List CanonicalQueryParam)
    → All IsWritten ps
    → sort_params ps ≡ ps
    → (values : SigV4Query) × (canonical_query (write_params ps) ≡ ok (write_params ps, values))
unfolding canonical_query write_params
written-fixed [] w sorted = (default_query, refl)
written-fixed (p ∷ ps) w sorted =
    let (ds, hds, same) = decode_parts-written (p ∷ ps) w in
    let parts : split b'&' (join b'&' (map written (p ∷ ps))) ≡ map written (p ∷ ps) =
      split-join b'&' (written p) (map written ps) (parts-Lacks (p ∷ ps) w) in
    let found : canonical_query (join b'&' (map written (p ∷ ps)))
        ≡ ok (write_params (p ∷ ps), note_all ds default_query) =
      rw
        (
          canonical_query-described (join b'&' (map written (p ∷ ps))) (ne-nil (join-ne-nil p ps))
              (written_end p ps w),
          parts,
          hds,
          same,
          sorted,
        )
        refl in
    let same_text = write_params-join (p ∷ ps) in
    let found' = rw same_text at found in (note_all ds default_query, rw same_text found')

-- The canonical query of an accepted query of bytes is accepted and is its own canonical query.
pub canonical_query_idem :
    (query : Bytes) {out : Bytes} {values : SigV4Query}
    → All IsByte query
    → canonical_query query ≡ ok (out, values)
    → (values' : SigV4Query) × (canonical_query out ≡ ok (out, values'))
unfolding canonical_query
canonical_query_idem [] {out} b h =
    let empty : out ≡ [] = ground arith in rw empty (default_query, refl)
canonical_query_idem (c ∷ r) {out} b h =
    let (ds, hds, written_out, _) = canonical_query_decoded (c ∷ r) (λ e. ground arith) h in
    let all =
      sort_params-All IsWritten (pushed_all ds)
        (decode_parts-IsWritten (split b'&' (c ∷ r)) (split-All b'&' (c ∷ r) b) hds) in
    rw written_out (
      written-fixed (sort_params (pushed_all ds)) all
        (sort_params-fixed (sort_params (pushed_all ds)) (sort_params-IsSorted (pushed_all ds))))
