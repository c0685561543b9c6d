-- ===== src/Query/Params.antt =====
-- The loop of `canonical_query` against a description that decodes every part first.
use sigv4_verify.Base.{
  ◌≡◌, refl, Bool, true, false, Option, none, some, List, [], ◌∷◌, arith, Bytes, bytes_eq,
  bytes_eq→eq, Bool-cases, Result-cases, inl, inr, if◌then◌else◌, ok, err, ◌>>=◌,
}
use sigv4_verify.Percent.{UriResult, uri_error, percent_decode}
use sigv4_verify.Percent.Decode.{encode}
use sigv4_verify.Percent.Component.{canonicalize_query_component-reencode}
use sigv4_verify.Text.{ends_with_byte, split}
use sigv4_verify.Text.Utf8.{is_utf8}
use sigv4_verify.Query.Defs.{
  SigV4Query, default_query, KnownName, spelling, known_name, is_known_query_name, store, set,
  CanonicalQueryParam, name_and_value, canonical_part, canonical_parts, cons_some, sort_params,
  write_params, canonical_query, signature_round, param_round, Round,
}

-- A decoded parameter: its name and its value.
abbrev pub Decoded : Type 0
Decoded = Bytes × Bytes

abbrev pub is_signature : Bytes → Bool
is_signature name = bytes_eq name (spelling KnownName.signature)

-- A value that the verifier reads must be text.
abbrev pub check_text : Decoded → UriResult Decoded
check_text (name, value) =
    if is_known_query_name name
    then (if is_utf8 value then ok (name, value) else err uri_error)
    else ok (name, value)

-- A part decoded: its name must not be empty.
unfoldable pub decode_part : Bytes → UriResult Decoded
decode_part [] = err uri_error
decode_part (c ∷ rest) = do
  name ← percent_decode (name_and_value (c ∷ rest)).0
  if bytes_eq name []
      then err uri_error
      else do value ← percent_decode (name_and_value (c ∷ rest)).1; check_text (name, value)

unfoldable pub decode_parts : List Bytes → UriResult (List Decoded)
decode_parts [] = ok []
decode_parts (part ∷ parts) = do p ← decode_part part; ps ← decode_parts parts; ok (p ∷ ps)

-- What a decoded parameter leaves in the record of known values.
abbrev pub note : Decoded → SigV4Query → SigV4Query
note (name, value) q = elim (known_name name) [ none ↦ q | some k ↦ store k value q ]

abbrev pub note_all : List Decoded → SigV4Query → SigV4Query
note_all [] q = q
note_all (p ∷ ps) q = note_all ps (note p q)

-- What it adds to the canonical query: nothing, if it is the signature.
abbrev pub pushed : Decoded → Option CanonicalQueryParam
pushed (name, value) =
    if is_signature name then none else some (record { name = encode name; value = encode value })

abbrev pub pushed_all : List Decoded → List CanonicalQueryParam
pushed_all [] = []
pushed_all (p ∷ ps) = cons_some (pushed p) (pushed_all ps)

abbrev round_of : SigV4Query → UriResult Decoded → Round
round_of values (ok p) = ok (note p values, pushed p)
round_of values (err e) = err e

known_name-signature : (n : Bytes) → is_signature n ≡ true → known_name n ≡ some KnownName.signature
unfolding known_name bytes_eq
known_name-signature n h = rw (bytes_eq→eq n (spelling KnownName.signature) h) refl

signature_round_lem :
    (name value_raw : Bytes) (values : SigV4Query)
    → is_signature name ≡ true
    → signature_round name value_raw values
      ≡ round_of values (do value ← percent_decode value_raw; check_text (name, value))
unfolding signature_round set is_known_query_name
signature_round_lem name value_raw values h = elim (Result-cases (percent_decode value_raw)) [
  | inl (v, hv) ↦
      rw (canonicalize_query_component-reencode value_raw true, hv)
        (ground (arith, known_name-signature name h))
  | inr (e, he) ↦ rw (canonicalize_query_component-reencode value_raw true, he) refl
]

param_round_lem :
    (name value_raw : Bytes) (values : SigV4Query)
    → is_signature name ≡ false
    → param_round (encode name) name value_raw values
      ≡ round_of values (do value ← percent_decode value_raw; check_text (name, value))
unfolding param_round set is_known_query_name
param_round_lem name value_raw values h = elim (Result-cases (percent_decode value_raw)) [
  | inl (v, hv) ↦
      rw (canonicalize_query_component-reencode value_raw (is_known_query_name name), hv)
        (ground arith)
  | inr (e, he) ↦
      rw (canonicalize_query_component-reencode value_raw (is_known_query_name name), he) refl
]

-- The rest of a round, once the name is decoded.
abbrev named_round : Bytes → Bytes → Bytes → SigV4Query → Round
named_round encoded_name name value_raw values =
    if bytes_eq name []
    then err uri_error
    else (if is_signature name
        then signature_round name value_raw values
        else param_round encoded_name name value_raw values)

named_round_lem :
    (name value_raw : Bytes) (values : SigV4Query)
    → named_round (encode name) name value_raw values
      ≡ round_of values (
          if bytes_eq name []
          then err uri_error
          else do value ← percent_decode value_raw; check_text (name, value))
named_round_lem name value_raw values = elim (Bool-cases (bytes_eq name [])) [
  | inl h ↦ rw h refl
  | inr h ↦ elim (Bool-cases (is_signature name)) [
    | inl k ↦ rw (h, k) (signature_round_lem name value_raw values k)
    | inr k ↦ rw (h, k) (param_round_lem name value_raw values k)
  ]
]

canonical_part_lem :
    (part : Bytes) (values : SigV4Query)
    → canonical_part part values ≡ round_of values (decode_part part)
unfolding canonical_part decode_part
canonical_part_lem [] values = refl
canonical_part_lem (c ∷ rest) values =
    let raw = name_and_value (c ∷ rest) in
    elim (Result-cases (percent_decode raw.0)) [
      | inl (n, hn) ↦
          rw (canonicalize_query_component-reencode raw.0 true, hn) (named_round_lem n raw.1 values)
      | inr (e, he) ↦ rw (canonicalize_query_component-reencode raw.0 true, he) refl
    ]

abbrev loop_of :
    SigV4Query → UriResult (List Decoded) → UriResult (SigV4Query × List CanonicalQueryParam)
loop_of values (ok ps) = ok (note_all ps values, pushed_all ps)
loop_of values (err e) = err e

canonical_parts_lem :
    (parts : List Bytes) (values : SigV4Query)
    → canonical_parts parts values ≡ loop_of values (decode_parts parts)
unfolding canonical_parts decode_parts
canonical_parts_lem [] values = refl
canonical_parts_lem (part ∷ parts) values = elim (Result-cases (decode_part part)) [
  | inl (p, hp) ↦ elim (Result-cases (decode_parts parts)) [
    | inl (ps, hps) ↦
        rw (canonical_part_lem part values, hp, canonical_parts_lem parts (note p values), hps) refl
    | inr (e, he) ↦
        rw (canonical_part_lem part values, hp, canonical_parts_lem parts (note p values), he) refl
  ]
  | inr (e, he) ↦ rw (canonical_part_lem part values, he) refl
]

-- The canonical query by description: decode all parts, sort the encodings of all but the
-- signature, and note the known values in the order in which they stand.
abbrev pub described : UriResult (List Decoded) → UriResult (Bytes × SigV4Query)
described (ok ps) = ok (write_params (sort_params (pushed_all ps)), note_all ps default_query)
described (err e) = err e

-- On a query that is not empty and does not end in an ampersand, canonical_query decodes every
-- part, sorts the encodings of all parameters but the signature and notes the known values in
-- order; it fails exactly where the decoding of a part fails.
pub canonical_query-described :
    (query : Bytes)
    → bytes_eq query [] ≡ false
    → ends_with_byte b'&' query ≡ false
    → canonical_query query ≡ described (decode_parts (split b'&' query))
unfolding canonical_query bytes_eq
canonical_query-described [] h k = ground arith
canonical_query-described (c ∷ r) h k = elim (Result-cases (decode_parts (split b'&' (c ∷ r)))) [
  | inl (ps, hps) ↦ rw (k, canonical_parts_lem (split b'&' (c ∷ r)) default_query, hps) refl
  | inr (e, he) ↦ rw (k, canonical_parts_lem (split b'&' (c ∷ r)) default_query, he) refl
]
