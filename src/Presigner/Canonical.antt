-- ===== src/Presigner/Canonical.antt =====
-- The presigner's canonical path and query against the verifier's.
use sigv4_verify.Base.{
  ℕ, true, false, ◌≡◌, ◌≢◌, refl, sym, ◌∙◌, some, List, [], ◌∷◌, arith, Bytes, bytes_eq, Bool-cases,
  Result-cases, inl, inr, ok, err,
}
use sigv4_verify.Hex.{is_hex}
use sigv4_verify.Percent
use sigv4_verify.Percent.{UriResult, uri_error, encode_byte}
use sigv4_verify.Percent.Decode.{encode}
use sigv4_verify.Uri.{canonical_loop, canonical_uri_from_valid_path}
use sigv4_verify.Uri.Canonical.{canonical_uri-canonical_loop}
use sigv4_verify.Text.{split}
use sigv4_verify.Query.{SigV4Query, canonical_query, name_and_value}
use sigv4_verify.Query.Params.{Decoded, check_text, decode_part, decode_parts, pushed, pushed_all}
use sigv4_verify.Query.Laws.{decode_parts-cons, canonical_query_decoded}
use sigv4_verify.Query.Pieces.{check_text-fixed}
use sigv4_verify.Presigner.Defs.{
  uri_encode, is_below_hex, percent_decode, test_canonical_path, encoded_part, encoded_parts,
  test_canonical_query,
}

-- On the path the two loops are the same.
test_canonical_path-loop : (path : Bytes) → test_canonical_path path ≡ canonical_loop path
unfolding test_canonical_path canonical_loop
test_canonical_path-loop [] = refl
test_canonical_path-loop (c ∷ h ∷ l ∷ r) =
    rw (test_canonical_path-loop (h ∷ l ∷ r), test_canonical_path-loop r) refl
test_canonical_path-loop (c ∷ r) = rw (test_canonical_path-loop r) refl

pub test_canonical_path-canonical_uri :
    (path : Bytes) → test_canonical_path path ≡ canonical_uri_from_valid_path path
test_canonical_path-canonical_uri path =
    test_canonical_path-loop path ∙ sym (canonical_uri-canonical_loop path)

pub uri_encode-encode : (value : Bytes) → uri_encode value ≡ encode value
unfolding uri_encode encode_byte
uri_encode-encode [] = refl
uri_encode-encode (c ∷ value) = rw (uri_encode-encode value) refl

above_hex : (c : ℕ) → is_hex c ≡ true → is_below_hex c ≡ false
unfolding is_hex is_below_hex
above_hex c h = ground arith

-- Where the verifier decodes, the presigner does too.
percent_decode-agrees :
    (value d : Bytes) → Percent.percent_decode value ≡ ok d → percent_decode value ≡ some d
unfolding percent_decode Percent.percent_decode
percent_decode-agrees [] d h = ground arith
percent_decode-agrees (c ∷ h ∷ l ∷ r) d e =
    elim (Result-cases (Percent.percent_decode (h ∷ l ∷ r))) [
      | inl (p, hp) ↦ elim (Result-cases (Percent.percent_decode r)) [
        | inl (q, hq) ↦ ground (
          arith,
          percent_decode-agrees (h ∷ l ∷ r) p hp,
          percent_decode-agrees r q hq,
          above_hex h,
          above_hex l,
        )
        | inr (x, hq) ↦ ground (arith, percent_decode-agrees (h ∷ l ∷ r) p hp)
      ]
      | inr (x, hp) ↦ elim (Result-cases (Percent.percent_decode r)) [
        | inl (q, hq) ↦ ground (arith, percent_decode-agrees r q hq, above_hex h, above_hex l)
        | inr (y, hq) ↦ ground arith
      ]
    ]
percent_decode-agrees (c ∷ r) d e = elim (Result-cases (Percent.percent_decode r)) [
  | inl (p, hp) ↦ ground (arith, percent_decode-agrees r p hp)
  | inr (x, hp) ↦ ground arith
]

encoded_part-agrees :
    (part : Bytes) (d : Decoded) → decode_part part ≡ ok d → encoded_part part ≡ some (pushed d)
unfolding encoded_part decode_part
encoded_part-agrees [] d h = ground arith
encoded_part-agrees (c ∷ rest) d h =
    let raw = name_and_value (c ∷ rest) in
    elim (Result-cases (Percent.percent_decode raw.0)) [
      | inr (e, bad) ↦ let absurd : err e ≡ ok d = rw bad at h in ground arith
      | inl (n, hn) ↦ elim (Bool-cases (bytes_eq n [])) [
        | inl empty ↦ let absurd : err uri_error ≡ ok d = rw (hn, empty) at h in ground arith
        | inr named ↦ elim (Result-cases (Percent.percent_decode raw.1)) [
          | inr (e, bad) ↦ let absurd : err e ≡ ok d = rw (hn, named, bad) at h in ground arith
          | inl (v, hv) ↦
              let checked : check_text (n, v) ≡ ok d = rw (hn, named, hv) at h in
              let (same, _) = check_text-fixed (n, v) d checked in
              rw
                (
                  encoded_part,
                  percent_decode-agrees raw.0 n hn,
                  percent_decode-agrees raw.1 v hv,
                  uri_encode-encode n,
                  uri_encode-encode v,
                  same,
                )
                refl
        ]
      ]
    ]

pub encoded_parts-agrees :
    (parts : List Bytes) {ds : List Decoded}
    → decode_parts parts ≡ ok ds
    → encoded_parts parts ≡ some (pushed_all ds)
unfolding encoded_parts decode_parts
encoded_parts-agrees [] {ds} h = let none_left : ds ≡ [] = ground arith in rw none_left refl
encoded_parts-agrees (part ∷ parts) h =
    let (d, rest, hd, hr, same) = decode_parts-cons part parts h in
    rw (same, encoded_parts, encoded_part-agrees part d hd, encoded_parts-agrees parts hr) refl

-- For a non-empty query that canonical_query accepts, the canonical query of the presigner of the
-- tests is the same.
pub test_canonical_query-canonical_query :
    (query : Bytes) {out : Bytes} {values : SigV4Query}
    → query ≢ []
    → canonical_query query ≡ ok (out, values)
    → test_canonical_query query ≡ some out
unfolding test_canonical_query
test_canonical_query-canonical_query query {out} present h =
    let (ds, hds, written, _) = canonical_query_decoded query present h in
    rw (test_canonical_query, encoded_parts-agrees (split b'&' query) hds, written) refl
