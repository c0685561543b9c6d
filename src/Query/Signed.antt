-- ===== src/Query/Signed.antt =====
-- `canonical_query` of a query with a signature appended.
use sigv4_verify.Base.{
  ℕ, ◌≡◌, ◌≢◌, refl, sym, ◌∙◌, ap, true, false, none, List, [], ◌∷◌, ◌++◌, arith, Bytes, bytes_eq,
  ok, All, All-append, ltb,
}
use sigv4_verify.Hex.{is_hex}
use sigv4_verify.Percent.{UriResult, percent_decode}
use sigv4_verify.Percent.Decode.{percent_decode-plain}
use sigv4_verify.Text.{split, ends_with_byte}
use sigv4_verify.Text.Utf8.{is_utf8, is_utf8_after, utf8_tail}
use sigv4_verify.Text.Split.{Lacks, split-Lacks_one}
use sigv4_verify.Text.Joined.{
  append-ne-nil, split-around, split_once-append, ends_with_byte-append, ends_with_byte-Lacks,
}
use sigv4_verify.Query.Defs.{
  SigV4Query, default_query, KnownName, spelling, known_name, is_known_query_name, name_and_value,
  sort_params, write_params, canonical_query, store,
}
use sigv4_verify.Query.Params.{
  Decoded, decode_part, decode_parts, note, note_all, pushed, pushed_all, canonical_query-described,
}
use sigv4_verify.Query.Laws.{canonical_query_decoded, decode_parts-cons, ne-nil}
use sigv4_verify.Query.Written.{decode_named, decode_part-named}

-- A signature as it is written: hexadecimal digits.
abbrev pub IsHexText : Bytes → Type 0
IsHexText = All (λ c. is_hex c ≡ true)

abbrev pub signature_part : Bytes → Bytes
signature_part signature_hex = spelling KnownName.signature ++ b'=' ∷ signature_hex

-- The query with the parameter appended.
abbrev pub with_signature : Bytes → Bytes → Bytes
with_signature query signature_hex = query ++ b'&' ∷ signature_part signature_hex

digit_plain : (c : ℕ) → is_hex c ≡ true → (c ≢ b'&') × (c ≢ b'%') × (ltb c 0x80 ≡ true)
unfolding is_hex
digit_plain c h = ground arith

IsHexText-Lacks : (s : Bytes) → IsHexText s → Lacks b'&' s
IsHexText-Lacks [] h = tt
IsHexText-Lacks (c ∷ s) (hc, h) = ((digit_plain c hc).0, IsHexText-Lacks s h)

percent_decode-IsHexText : (s : Bytes) → IsHexText s → percent_decode s ≡ ok s
percent_decode-IsHexText [] h = unfold percent_decode in refl
percent_decode-IsHexText (c ∷ s) (hc, h) =
    rw (percent_decode-plain c s (digit_plain c hc).1, percent_decode-IsHexText s h) refl

is_utf8_after-IsHexText : (s : Bytes) → IsHexText s → is_utf8_after [] s ≡ true
unfolding is_utf8_after utf8_tail
is_utf8_after-IsHexText [] h = refl
is_utf8_after-IsHexText (c ∷ s) (hc, h) =
    rw (is_utf8_after, utf8_tail, (digit_plain c hc).2) (is_utf8_after-IsHexText s h)

signature_part-Lacks : (s : Bytes) → IsHexText s → Lacks b'&' (signature_part s)
signature_part-Lacks s h =
    All-append (λ c. c ≢ b'&') (spelling KnownName.signature) (b'=' ∷ s) (omega arith)
      (omega arith, IsHexText-Lacks s h)

name_and_value-signature_part :
    (s : Bytes) → name_and_value (signature_part s) ≡ (spelling KnownName.signature, s)
name_and_value-signature_part s =
    rw (name_and_value, split_once-append b'=' (spelling KnownName.signature) s (omega arith)) refl

decode_part-signature_part :
    (s : Bytes)
    → IsHexText s
    → decode_part (signature_part s) ≡ ok (spelling KnownName.signature, s)
unfolding decode_named percent_decode bytes_eq is_known_query_name known_name is_utf8
decode_part-signature_part s h =
    rw
      (
        decode_part-named (signature_part s) (append-ne-nil (spelling KnownName.signature) b'=' s),
        name_and_value-signature_part s,
        percent_decode-IsHexText s h,
        is_utf8_after-IsHexText s h,
      )
      refl

-- The parts before the last one, and the last one.
decode_parts-last :
    (parts : List Bytes) (part : Bytes) {ds : List Decoded}
    → decode_parts (parts ++ part ∷ []) ≡ ok ds
    → (first : List Decoded) × (last : Decoded) × (decode_parts parts ≡ ok first)
      × (decode_part part ≡ ok last)
      × (ds ≡ first ++ last ∷ [])
unfolding decode_parts
decode_parts-last [] part h =
    let (d, rest, hd, hr, same) = decode_parts-cons part [] h in
    let nothing : rest ≡ [] = ground arith in ([], d, refl, hd, rw nothing at same)
decode_parts-last (p ∷ parts) part h =
    let (d, rest, hd, hr, same) = decode_parts-cons p (parts ++ part ∷ []) h in
    let (first, last, hf, hl, spelled) = decode_parts-last parts part hr in
    (d ∷ first, last, rw (hd, hf) refl, hl, rw spelled at same)

last-decode_parts :
    (parts : List Bytes) (part : Bytes) (first : List Decoded) (last : Decoded)
    → decode_parts parts ≡ ok first
    → decode_part part ≡ ok last
    → decode_parts (parts ++ part ∷ []) ≡ ok (first ++ last ∷ [])
unfolding decode_parts
last-decode_parts [] part first last h k =
    let nothing : first ≡ [] = ground arith in rw (k, nothing) refl
last-decode_parts (p ∷ parts) part first last h k =
    let (d, rest, hd, hr, same) = decode_parts-cons p parts h in
    rw (hd, last-decode_parts parts part rest last hr k, same) refl

note_all-append :
    (ds : List Decoded) (d : Decoded) (q : SigV4Query)
    → note_all (ds ++ d ∷ []) q ≡ note d (note_all ds q)
note_all-append [] d q = refl
note_all-append (e ∷ ds) d q = note_all-append ds d (note e q)

pushed_all-append :
    (ds : List Decoded) (d : Decoded) → pushed d ≡ none → pushed_all (ds ++ d ∷ []) ≡ pushed_all ds
pushed_all-append [] d h = rw h refl
pushed_all-append (e ∷ ds) d h = rw (pushed_all-append ds d h) refl

abbrev signed : List Decoded → Bytes → List Decoded
signed first s = first ++ (spelling KnownName.signature, s) ∷ []

note-signed :
    (first : List Decoded) (s : Bytes)
    → note_all (signed first s) default_query
      ≡ store KnownName.signature s (note_all first default_query)
unfolding known_name bytes_eq
note-signed first s =
    rw (note_all-append first (spelling KnownName.signature, s) default_query) refl

pushed-signed : (first : List Decoded) (s : Bytes) → pushed_all (signed first s) ≡ pushed_all first
unfolding bytes_eq
pushed-signed first s = pushed_all-append first (spelling KnownName.signature, s) refl

with_signature-end : (q s : Bytes) → IsHexText s → ends_with_byte b'&' (with_signature q s) ≡ false
with_signature-end q s h =
    ends_with_byte-append b'&' q b'&' (signature_part s)
    ∙ ends_with_byte-Lacks b'&' (signature_part s) (signature_part-Lacks s h)

split-with_signature :
    (q s : Bytes)
    → IsHexText s
    → split b'&' (with_signature q s) ≡ split b'&' q ++ signature_part s ∷ []
split-with_signature q s h =
    split-around b'&' q (signature_part s)
    ∙ ap (λ r. split b'&' q ++ r)
        (split-Lacks_one b'&' (signature_part s) (signature_part-Lacks s h))

pub canonical_query-signed :
    (q s : Bytes) (first : List Decoded)
    → IsHexText s
    → decode_parts (split b'&' q) ≡ ok first
    → canonical_query (with_signature q s)
      ≡ ok (
        write_params (sort_params (pushed_all first)),
        store KnownName.signature s (note_all first default_query),
      )
canonical_query-signed q s first h k =
    rw
      (
        canonical_query-described (with_signature q s)
            (ne-nil (append-ne-nil q b'&' (signature_part s))) (with_signature-end q s h),
        split-with_signature q s h,
        last-decode_parts (split b'&' q) (signature_part s) first (spelling KnownName.signature, s)
            k (decode_part-signature_part s h),
        pushed-signed first s,
        note-signed first s,
      )
      refl

-- If a query that ends in X-Amz-Signature with a hexadecimal value is accepted, that value is what
-- is read for the signature, and with another hexadecimal value the canonical query and all other
-- values that are read are the same.
pub canonical_query-with_signature :
    (q s t : Bytes) {out : Bytes} {values : SigV4Query}
    → IsHexText s
    → IsHexText t
    → canonical_query (with_signature q s) ≡ ok (out, values)
    → (values.signature ≡ s)
      × (canonical_query (with_signature q t) ≡ ok (out, record values { signature = t }))
unfolding store
canonical_query-with_signature q s t {out} {values} hs ht h =
    let (ds, hds, written, noted) =
      canonical_query_decoded (with_signature q s) (append-ne-nil q b'&' (signature_part s)) h in
    let (first, last, hf, hl, spelled) =
      decode_parts-last (split b'&' q) (signature_part s)
        (rw (split-with_signature q s hs) at hds) in
    let before = canonical_query-signed q s first hs hf in
    let same : ◌≡◌ {A = UriResult (Bytes × SigV4Query)} (ok (out, values)) (
        ok (
          write_params (sort_params (pushed_all first)),
          store KnownName.signature s (note_all first default_query),
        )) =
      sym h ∙ before in
    let out_lem : out ≡ write_params (sort_params (pushed_all first)) = ground arith in
    let values_lem : values ≡ store KnownName.signature s (note_all first default_query) =
      ground arith in
    (rw values_lem refl, rw (out_lem, values_lem) (canonical_query-signed q t first ht hf))
