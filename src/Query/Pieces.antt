-- ===== src/Query/Pieces.antt =====
-- `canonical_query`: the parts of a query of bytes, and what is written for them.
use sigv4_verify.Base.{
  ℕ, ◌==◌, ◌≡◌, ◌⊎◌, refl, sym, ◌∙◌, false, none, some, List, [], ◌∷◌, ◌++◌, arith, Bytes, bytes_eq,
  Bool-cases, Result-cases, Option-cases, inl, inr, ok, err, All, IsByte,
}
use sigv4_verify.Percent.{uri_error, percent_decode}
use sigv4_verify.Percent.Decode.{encode, percent_decode-OkBytes, OkBytes}
use sigv4_verify.Text.{split_once, split, cons_head}
use sigv4_verify.Text.Split.{split_once-some}
use sigv4_verify.Query.Defs.{CanonicalQueryParam, name_and_value}
use sigv4_verify.Query.Params.{
  Decoded, is_signature, check_text, decode_part, decode_parts, pushed, pushed_all,
}
use sigv4_verify.Query.Laws.{decode_parts-cons}
use sigv4_verify.Query.Written.{IsWritten, decode_named, decode_part-named}

-- Parts and pieces of bytes are bytes.
AllByte-cut :
    (s : Bytes) (c : ℕ) (r : Bytes) → All IsByte (s ++ c ∷ r) → All IsByte s × All IsByte r
AllByte-cut [] c r (hc, h) = (tt, h)
AllByte-cut (x ∷ s) c r (hx, h) = let (a, b) = AllByte-cut s c r h in ((hx, a), b)

cons_head-All :
    (c : ℕ) (ps : List Bytes) → IsByte c → All (All IsByte) ps → All (All IsByte) (cons_head c ps)
cons_head-All c [] hc h = ((hc, tt), tt)
cons_head-All c (p ∷ ps) hc (hp, h) = ((hc, hp), h)

pub split-All : (b : ℕ) (s : Bytes) → All IsByte s → All (All IsByte) (split b s)
unfolding split
split-All b [] h = (tt, tt)
split-All b (c ∷ s) (hc, h) = elim (Bool-cases (c == b)) [
  | inl e ↦ rw e (tt, split-All b s h)
  | inr e ↦ rw e (cons_head-All c (split b s) hc (split-All b s h))
]

name_and_value-All :
    (part : Bytes)
    → All IsByte part
    → All IsByte (name_and_value part).0 × All IsByte (name_and_value part).1
name_and_value-All part h = elim (Option-cases (split_once b'=' part)) [
  | inl e ↦ rw (name_and_value, e) (h, tt)
  | inr (p, e) ↦
      let (spelled, _) = split_once-some b'=' part p e in
      rw (name_and_value, e) (AllByte-cut p.0 b'=' p.1 (rw spelled at h))
]

pub check_text-fixed : (d d' : Decoded) → check_text d ≡ ok d' → (d' ≡ d) × (check_text d ≡ ok d)
check_text-fixed (n, v) d' h = ground arith

abbrev IsPushed : Decoded → Type 0
IsPushed d = (pushed d ≡ none) ⊎ ((p : CanonicalQueryParam) × (pushed d ≡ some p) × IsWritten p)

-- What a decoded part pushes is what it stands for.
checked-IsPushed :
    (n v : Bytes)
    → All IsByte n
    → All IsByte v
    → bytes_eq n [] ≡ false
    → check_text (n, v) ≡ ok (n, v)
    → IsPushed (n, v)
checked-IsPushed n v hn hv named text = elim (Bool-cases (is_signature n)) [
  | inl e ↦ inl (rw e refl)
  | inr e ↦ inr (
    record { name = encode n; value = encode v },
    rw e refl,
    record {
      raw = (n, v);
      name_bytes = hn;
      value_bytes = hv;
      named = named;
      other = e;
      text = text;
      name_lem = refl;
      value_lem = refl;
    },
  )
]

named-IsPushed :
    (raw : Bytes × Bytes) (d : Decoded)
    → All IsByte raw.0
    → All IsByte raw.1
    → decode_named raw ≡ ok d
    → IsPushed d
unfolding decode_named
named-IsPushed (n, v) d hn hv h = elim (Result-cases (percent_decode n)) [
  | inr (e, bad) ↦ let absurd : err e ≡ ok d = rw bad at h in ground arith
  | inl (name, hname) ↦ elim (Bool-cases (bytes_eq name [])) [
    | inl empty ↦ let absurd : err uri_error ≡ ok d = rw (hname, empty) at h in ground arith
    | inr named ↦ elim (Result-cases (percent_decode v)) [
      | inr (e, bad) ↦ let absurd : err e ≡ ok d = rw (hname, named, bad) at h in ground arith
      | inl (value, hvalue) ↦
          let text : check_text (name, value) ≡ ok d = rw (hname, named, hvalue) at h in
          let (same, checked) = check_text-fixed (name, value) d text in
          let nb : OkBytes (ok name) = rw hname at (percent_decode-OkBytes n hn) in
          let vb : OkBytes (ok value) = rw hvalue at (percent_decode-OkBytes v hv) in
          rw same (checked-IsPushed name value nb vb named checked)
    ]
  ]
]

decode_part-IsPushed :
    (part : Bytes) (d : Decoded) → All IsByte part → decode_part part ≡ ok d → IsPushed d
unfolding decode_part
decode_part-IsPushed [] d b h = ground arith
decode_part-IsPushed (c ∷ r) d b h =
    let (hn, hv) = name_and_value-All (c ∷ r) b in
    named-IsPushed (name_and_value (c ∷ r)) d hn hv
      (sym (decode_part-named (c ∷ r) (λ e. ground arith)) ∙ h)

pub decode_parts-IsWritten :
    (parts : List Bytes) {ds : List Decoded}
    → All (All IsByte) parts
    → decode_parts parts ≡ ok ds
    → All IsWritten (pushed_all ds)
unfolding decode_parts
decode_parts-IsWritten [] {ds} b h = let none_left : ds ≡ [] = ground arith in rw none_left tt
decode_parts-IsWritten (part ∷ parts) {ds} (bp, b) h =
    let (d, rest, hd, hr, same) = decode_parts-cons part parts h in
    let ih = decode_parts-IsWritten parts b hr in
    rw same
      (elim (decode_part-IsPushed part d bp hd) [ inl e ↦ rw e ih | inr (p, e, w) ↦ rw e (w, ih) ])
