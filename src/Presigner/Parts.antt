-- ===== src/Presigner/Parts.antt =====
-- The parts of the presigner's query, as the verifier decodes them.
use sigv4_verify.Base.{
  ℕ, zero, suc, ◌+◌, ◌/◌, ◌%◌, ◌<◌, ◌≡◌, ◌≢◌, refl, ◌∙◌, ap, true, false, none, List, [], ◌∷◌, map,
  arith, Bytes, bytes_eq, ok, All, IsByte, ltb, Bool, not, every, every_lem, Bool-cases, inl, inr,
}
use sigv4_verify.Hex.{is_unreserved, write_escaped_byte, hex_upper}
use sigv4_verify.Percent.{encode_byte}
use sigv4_verify.Percent.Decode.{encode}
use sigv4_verify.Text.{any, split}
use sigv4_verify.Text.Joined.{split-join}
use sigv4_verify.Text.Split.{Lacks, join}
use sigv4_verify.Text.Decimal.{decimal_loop, to_string}
use sigv4_verify.Text.Utf8.{is_utf8, is_utf8_after, utf8_tail}
use sigv4_verify.Uri.{is_forbidden}
use sigv4_verify.Query.{SigV4Query, CanonicalQueryParam, known_name}
use sigv4_verify.Query.Params.{
  Decoded, is_signature, check_text, decode_part, decode_parts, note, note_all,
}
use sigv4_verify.Query.Laws.{cons_decode_parts}
use sigv4_verify.Query.Written.{IsWritten, written, written-Lacks, decode_part-written}
use sigv4_verify.Verifier.SignedUri.{any-append}
use sigv4_verify.Presigner.Defs.{RawQueryParam, raw_part}

-- A text that needs no escapes.
abbrev pub IsPlain : Bytes → Type 0
IsPlain = All (λ c. is_unreserved c ≡ true)

plain_ascii : (c : ℕ) → is_unreserved c ≡ true → (c < 256) × (ltb c 0x80 ≡ true)
unfolding is_unreserved
plain_ascii c h = ground arith

pub encode-IsPlain : (s : Bytes) → IsPlain s → encode s ≡ s
unfolding encode_byte
encode-IsPlain [] h = refl
encode-IsPlain (c ∷ s) (hc, h) = rw (encode_byte, hc, encode-IsPlain s h) refl

pub IsPlain-IsByte : (s : Bytes) → IsPlain s → All IsByte s
IsPlain-IsByte [] h = tt
IsPlain-IsByte (c ∷ s) (hc, h) = ((plain_ascii c hc).0, IsPlain-IsByte s h)

is_utf8_after-IsPlain : (s : Bytes) → IsPlain s → is_utf8_after [] s ≡ true
unfolding is_utf8_after utf8_tail
is_utf8_after-IsPlain [] h = refl
is_utf8_after-IsPlain (c ∷ s) (hc, h) =
    rw (is_utf8_after, utf8_tail, (plain_ascii c hc).1) (is_utf8_after-IsPlain s h)

pub is_utf8-IsPlain : (s : Bytes) → IsPlain s → is_utf8 s ≡ true
unfolding is_utf8
is_utf8-IsPlain s h = is_utf8_after-IsPlain s h

-- Decimal digits are plain.
decimal_loop-IsPlain : (fuel n : ℕ) (out : Bytes) → IsPlain out → IsPlain (decimal_loop fuel n out)
unfolding decimal_loop is_unreserved
decimal_loop-IsPlain zero n out h = h
decimal_loop-IsPlain (suc fuel) n out h =
    let digit : is_unreserved (b'0' + n % 10) ≡ true = ground arith in
    elim (Bool-cases (ltb n 10)) [
      | inl small ↦ rw small (digit, h)
      | inr large ↦ rw large (decimal_loop-IsPlain fuel (n / 10) ((b'0' + n % 10) ∷ out) (digit, h))
    ]

pub to_string-IsPlain : (n : ℕ) → IsPlain (to_string n)
unfolding to_string
to_string-IsPlain n = decimal_loop-IsPlain 20 n [] tt

-- A decoded parameter that can be written and is no signature.
pub record IsParam (d : Decoded) : Type 0 where
  pub name_bytes : All IsByte d.0
  pub value_bytes : All IsByte d.1
  pub named : bytes_eq d.0 [] ≡ false
  pub other : is_signature d.0 ≡ false
  pub text : check_text d ≡ ok d

abbrev pub encoded : Decoded → CanonicalQueryParam
encoded d = record { name = encode d.0; value = encode d.1 }

pub encoded-IsWritten : (d : Decoded) → IsParam d → IsWritten (encoded d)
encoded-IsWritten d p = record {
  raw = d;
  name_bytes = p.name_bytes;
  value_bytes = p.value_bytes;
  named = p.named;
  other = p.other;
  text = p.text;
  name_lem = refl;
  value_lem = refl;
}

-- What an extra parameter must be: a part of its own that decodes to a name that the verifier does
-- not read.
pub record IsExtra (param : RawQueryParam) : Type 0 where
  pub decoded : Decoded
  pub part_lem : decode_part (raw_part param) ≡ ok decoded
  pub unknown : known_name decoded.0 ≡ none
  pub whole : Lacks b'&' (raw_part param)
  pub clean : any is_forbidden (raw_part param) ≡ false

note-unknown : (d : Decoded) (q : SigV4Query) → known_name d.0 ≡ none → note d q ≡ q
note-unknown (n, v) q h = rw (note, h) refl

pub extras :
    (params : List RawQueryParam)
    → All IsExtra params
    → (ds : List Decoded) × (decode_parts (map raw_part params) ≡ ok ds)
      × ((q : SigV4Query) → note_all ds q ≡ q)
unfolding decode_parts
extras [] h = ([], refl, (λ q. refl))
extras (param ∷ params) (e, h) =
    let (ds, hds, same) = extras params h in
    (
      e.decoded ∷ ds,
      cons_decode_parts (raw_part param) (map raw_part params) e.decoded ds e.part_lem hds,
      (λ q. ap (note_all ds) (note-unknown e.decoded q e.unknown) ∙ same q),
    )

-- The parts of a query, each without an ampersand and a forbidden byte.
pub record IsPart (part : Bytes) : Type 0 where
  pub whole : Lacks b'&' part
  pub clean : any is_forbidden part ≡ false

pub IsExtra-IsPart :
    (params : List RawQueryParam) → All IsExtra params → All IsPart (map raw_part params)
IsExtra-IsPart [] h = tt
IsExtra-IsPart (param ∷ params) (e, h) =
    (record { whole = e.whole; clean = e.clean }, IsExtra-IsPart params h)

-- An encoded byte is not forbidden.
abbrev is_clean : ℕ → Bool
is_clean b = not (any is_forbidden (encode_byte b))

clean_table : every is_clean 256 ≡ true
unfolding every any encode_byte is_unreserved write_escaped_byte hex_upper
clean_table = refl

clean_byte : (b : ℕ) → IsByte b → any is_forbidden (encode_byte b) ≡ false
clean_byte b h = ground (arith, every_lem is_clean 256 clean_table b h)

clean-encode : (d : Bytes) → All IsByte d → any is_forbidden (encode d) ≡ false
unfolding any
clean-encode [] h = refl
clean-encode (b ∷ d) (hb, h) =
    any-append is_forbidden (encode_byte b) (encode d)
    ∙ (rw (clean_byte b hb, clean-encode d h) refl)

pub encoded-IsPart : (d : Decoded) → IsParam d → IsPart (written (encoded d))
unfolding any
encoded-IsPart d p = record {
  whole = written-Lacks (encoded d) (encoded-IsWritten d p);
  clean =
      any-append is_forbidden (encode d.0) (b'=' ∷ encode d.1)
      ∙ (rw (clean-encode d.0 p.name_bytes, clean-encode d.1 p.value_bytes) refl);
}

pub join-clean : (ps : List Bytes) → All IsPart ps → any is_forbidden (join b'&' ps) ≡ false
unfolding any
join-clean [] h = refl
join-clean (p ∷ []) (h, _) = h.clean
join-clean (p ∷ q ∷ ps) (h, hs) =
    any-append is_forbidden p (b'&' ∷ join b'&' (q ∷ ps))
    ∙ (rw (h.clean, join-clean (q ∷ ps) hs) refl)

parts-Lacks : (ps : List Bytes) → All IsPart ps → All (Lacks b'&') ps
parts-Lacks [] h = tt
parts-Lacks (p ∷ ps) (h, hs) = (h.whole, parts-Lacks ps hs)

pub split-parts : (ps : List Bytes) → ps ≢ [] → All IsPart ps → split b'&' (join b'&' ps) ≡ ps
split-parts [] h hs = absurd (h refl)
split-parts (p ∷ ps) h hs = split-join b'&' p ps (parts-Lacks (p ∷ ps) hs)

-- What is written for a parameter is read as it.
pub decode_part-encoded : (d : Decoded) → IsParam d → decode_part (written (encoded d)) ≡ ok d
unfolding encoded-IsWritten
decode_part-encoded d p = (decode_part-written (encoded d) (encoded-IsWritten d p)).0
