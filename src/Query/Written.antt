-- ===== src/Query/Written.antt =====
-- What `canonical_query` writes for a parameter, read again as a part of a query.
use sigv4_verify.Base.{
  ℕ, ◌/◌, ◌%◌, ◌≡◌, ◌≢◌, refl, true, false, some, List, [], ◌∷◌, ◌++◌, map, append_assoc, arith,
  Bytes, bytes_eq, Bool-cases, inl, inr, if◌then◌else◌, ok, err, ◌>>=◌, All, All-append, IsByte,
}
use sigv4_verify.Hex.{
  is_unreserved, is_hex, hex_upper, write_escaped_byte, unreserved_plain, hex_upper_lem,
}
use sigv4_verify.Percent.{UriResult, uri_error, percent_decode, encode_byte}
use sigv4_verify.Percent.Decode.{encode, percent_decode-encode}
use sigv4_verify.Text.Split.{Lacks, join}
use sigv4_verify.Text.Joined.{append-ne-nil, split_once-append}
use sigv4_verify.Query.Defs.{CanonicalQueryParam, name_and_value, write_params}
use sigv4_verify.Query.Params.{
  Decoded, is_signature, check_text, decode_part, decode_parts, pushed, pushed_all,
}

-- None of the delimiters of a query.
abbrev IsInner : ℕ → Type 0
IsInner c = (c ≢ b'&') × (c ≢ b'=')

is_hex-IsInner : (c : ℕ) → is_hex c ≡ true → IsInner c
unfolding is_hex
is_hex-IsInner c h = ground arith

encode_byte-IsInner : (b : ℕ) → IsByte b → All IsInner (encode_byte b)
unfolding encode_byte write_escaped_byte
encode_byte-IsInner b h = elim (Bool-cases (is_unreserved b)) [
  | inl u ↦ let (p, s, a, e) = unreserved_plain b u in rw u ((a, e), tt)
  | inr u ↦
      let (hi, lo, v, x, y) = hex_upper_lem b h in
      rw u (
        (
          (omega arith, omega arith),
          (is_hex-IsInner (hex_upper (b / 16)) hi, (is_hex-IsInner (hex_upper (b % 16)) lo, tt)),
        ))
]

encode-IsInner : (d : Bytes) → All IsByte d → All IsInner (encode d)
encode-IsInner [] h = tt
encode-IsInner (b ∷ d) (hb, hd) =
    All-append IsInner (encode_byte b) (encode d) (encode_byte-IsInner b hb) (encode-IsInner d hd)

IsInner-Lacks : (s : Bytes) → All IsInner s → Lacks b'&' s × Lacks b'=' s
IsInner-Lacks [] h = (tt, tt)
IsInner-Lacks (c ∷ s) ((a, e), h) = let (x, y) = IsInner-Lacks s h in ((a, x), (e, y))

-- A parameter that stands for decoded bytes.
pub record IsWritten (p : CanonicalQueryParam) : Type 0 where
  pub raw : Decoded
  pub name_bytes : All IsByte raw.0
  pub value_bytes : All IsByte raw.1
  pub named : bytes_eq raw.0 [] ≡ false
  pub other : is_signature raw.0 ≡ false
  pub text : check_text raw ≡ ok raw
  pub name_lem : p.name ≡ encode raw.0
  pub value_lem : p.value ≡ encode raw.1

-- The part that is written for a parameter.
abbrev pub written : CanonicalQueryParam → Bytes
written p = p.name ++ b'=' ∷ p.value

pub write_params-join :
    (ps : List CanonicalQueryParam) → write_params ps ≡ join b'&' (map written ps)
unfolding write_params
write_params-join [] = refl
write_params-join (p ∷ []) = refl
write_params-join (p ∷ q ∷ ps) =
    rw
      (
        write_params-join (q ∷ ps),
        append_assoc p.name (b'=' ∷ p.value) (b'&' ∷ join b'&' (map written (q ∷ ps))),
      )
      refl

pub written-Lacks : (p : CanonicalQueryParam) → IsWritten p → Lacks b'&' (written p)
written-Lacks p w =
    let (n, _) = IsInner-Lacks (encode w.raw.0) (encode-IsInner w.raw.0 w.name_bytes) in
    let (v, _) = IsInner-Lacks (encode w.raw.1) (encode-IsInner w.raw.1 w.value_bytes) in
    rw (w.name_lem, w.value_lem)
      (All-append (λ c. c ≢ b'&') (encode w.raw.0) (b'=' ∷ encode w.raw.1) n (omega arith, v))

name_and_value-written :
    (p : CanonicalQueryParam) → IsWritten p → name_and_value (written p) ≡ (p.name, p.value)
name_and_value-written p w =
    let (_, n) = IsInner-Lacks (encode w.raw.0) (encode-IsInner w.raw.0 w.name_bytes) in
    let named : Lacks b'=' p.name = rw w.name_lem n in
    rw (name_and_value, split_once-append b'=' p.name p.value named) refl

-- Decoding a part that is not empty.
unfoldable pub decode_named : Bytes × Bytes → UriResult Decoded
decode_named (n, v) = do
  name ← percent_decode n
  if bytes_eq name [] then err uri_error else do value ← percent_decode v; check_text (name, value)

pub decode_part-named :
    (part : Bytes) → part ≢ [] → decode_part part ≡ decode_named (name_and_value part)
unfolding decode_part decode_named
decode_part-named [] h = absurd (h refl)
decode_part-named (c ∷ r) h = refl

pub written-ne-nil : (p : CanonicalQueryParam) → written p ≢ []
written-ne-nil p h = append-ne-nil p.name b'=' p.value h

-- The part is read as the parameter that it was written for.
pub decode_part-written :
    (p : CanonicalQueryParam) (w : IsWritten p)
    → (decode_part (written p) ≡ ok w.raw) × (pushed w.raw ≡ some p)
unfolding decode_named
decode_part-written p w = (
  rw
      (
        decode_part-named (written p) (written-ne-nil p),
        name_and_value-written p w,
        w.name_lem,
        w.value_lem,
        percent_decode-encode w.raw.0 w.name_bytes,
        w.named,
        percent_decode-encode w.raw.1 w.value_bytes,
      )
      w.text,
  rw w.other (rw (← w.name_lem, ← w.value_lem) refl),
)

pub decode_parts-written :
    (ps : List CanonicalQueryParam)
    → All IsWritten ps
    → (ds : List Decoded) × (decode_parts (map written ps) ≡ ok ds) × (pushed_all ds ≡ ps)
unfolding decode_parts
decode_parts-written [] h = ([], refl, refl)
decode_parts-written (p ∷ ps) (w, h) =
    let (ds, hds, same) = decode_parts-written ps h in
    let (hd, hp) = decode_part-written p w in (w.raw ∷ ds, rw (hd, hds) refl, rw (hp, same) refl)
