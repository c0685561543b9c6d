-- ===== src/Verifier/Binding/Lines.antt =====
-- The lines of a canonical request have no newline inside.
use sigv4_verify.Base.{
  ℕ, zero, suc, ◌/◌, ◌%◌, ◌==◌, ◌&&◌, ◌≡◌, ◌≢◌, sym, true, List, [], ◌∷◌, ◌++◌, arith, Bytes, codes,
  bytes_eq→eq, bytes_eq, get_or, ok, All, All-append, Bool-cases, inl, inr, if◌then◌else◌,
}
use sigv4_verify.Hex.{is_unreserved, is_hex, hex_upper, upper_hex, write_escaped_byte}
use sigv4_verify.Percent.{encode_byte}
use sigv4_verify.Percent.Decode.{encode}
use sigv4_verify.Text.Split.{Lacks}
use sigv4_verify.Uri.{canonical_loop, canonical_uri_from_valid_path}
use sigv4_verify.Uri.Canonical.{canonical_uri-canonical_loop}
use sigv4_verify.Query.{
  SigV4Query, CanonicalQueryParam, insert_param, sort_params, write_params, canonical_query,
  param_le,
}
use sigv4_verify.Query.Params.{Decoded, is_signature, pushed_all}
use sigv4_verify.Query.Laws.{canonical_query_decoded}
use sigv4_verify.Verifier.Types.{contains}
use sigv4_verify.Verifier.Configured.{IsMethod}

abbrev pub IsLine : Bytes → Type 0
IsLine = Lacks b'\n'

get_or-IsLine : (table : Bytes) (n : ℕ) → IsLine table → get_or table n 0 ≢ b'\n'
get_or-IsLine [] n h = omega arith
get_or-IsLine (x ∷ table) zero (hx, h) = hx
get_or-IsLine (x ∷ table) (suc n) (hx, h) = get_or-IsLine table n h

write_escaped_byte-IsLine : (c : ℕ) → IsLine (write_escaped_byte c)
unfolding write_escaped_byte hex_upper
write_escaped_byte-IsLine c = (
  omega arith,
  (
    get_or-IsLine (codes "0123456789ABCDEF") (c / 16) (omega arith),
    (get_or-IsLine (codes "0123456789ABCDEF") (c % 16) (omega arith), tt),
  ),
)

unreserved_line : (c : ℕ) → is_unreserved c ≡ true → c ≢ b'\n'
unfolding is_unreserved
unreserved_line c h = ground arith

upper_line : (c : ℕ) → is_hex c ≡ true → upper_hex c ≢ b'\n'
unfolding is_hex upper_hex
upper_line c h = ground arith

encode_byte-IsLine : (c : ℕ) → IsLine (encode_byte c)
unfolding encode_byte
encode_byte-IsLine c = elim (Bool-cases (is_unreserved c)) [
  | inl plain ↦ rw plain (unreserved_line c plain, tt)
  | inr other ↦ rw other (write_escaped_byte-IsLine c)
]

encode-IsLine : (d : Bytes) → IsLine (encode d)
encode-IsLine [] = tt
encode-IsLine (c ∷ d) =
    All-append (λ c. c ≢ b'\n') (encode_byte c) (encode d) (encode_byte-IsLine c) (encode-IsLine d)

-- What the loop writes for a byte that is not an escape.
keep-IsLine :
    (c : ℕ) (rest : Bytes)
    → IsLine rest
    → IsLine (
        if c == b'/'
        then b'/' ∷ rest
        else if is_unreserved c
        then c ∷ rest
        else write_escaped_byte c ++ rest)
keep-IsLine c rest h = elim (Bool-cases (c == b'/')) [
  | inl slash ↦ rw slash (omega arith, h)
  | inr other ↦ elim (Bool-cases (is_unreserved c)) [
    | inl plain ↦ rw (other, plain) (unreserved_line c plain, h)
    | inr escaped ↦
        rw (other, escaped)
          (All-append (λ c. c ≢ b'\n') (write_escaped_byte c) rest (write_escaped_byte-IsLine c) h)
  ]
]

canonical_loop-IsLine : (path : Bytes) → IsLine (canonical_loop path)
unfolding canonical_loop
canonical_loop-IsLine [] = tt
canonical_loop-IsLine (c ∷ h ∷ l ∷ r) =
    let plain = canonical_loop-IsLine (h ∷ l ∷ r) in
    let escape = canonical_loop-IsLine r in
    let keep = keep-IsLine c (canonical_loop (h ∷ l ∷ r)) plain in
    elim (Bool-cases ((c == b'%') && is_hex h && is_hex l)) [
      | inr other ↦ rw (canonical_loop, other) keep
      | inl escaped ↦ elim (Bool-cases (c == b'/')) [
        | inl slash ↦ rw (canonical_loop, slash) (omega arith, plain)
        | inr no_slash ↦
            rw (canonical_loop, no_slash, escaped)
              (omega arith, (upper_line h (ground arith), (upper_line l (ground arith), escape)))
      ]
    ]
canonical_loop-IsLine (c ∷ r) = keep-IsLine c (canonical_loop r) (canonical_loop-IsLine r)

pub canonical_uri-IsLine : (path : Bytes) → IsLine (canonical_uri_from_valid_path path)
canonical_uri-IsLine path = rw (canonical_uri-canonical_loop path) (canonical_loop-IsLine path)

abbrev IsWritable : CanonicalQueryParam → Type 0
IsWritable p = IsLine p.name × IsLine p.value

pushed_all-IsWritable : (ds : List Decoded) → All IsWritable (pushed_all ds)
pushed_all-IsWritable [] = tt
pushed_all-IsWritable ((n, v) ∷ ds) = elim (Bool-cases (is_signature n)) [
  | inl signature ↦ rw signature (pushed_all-IsWritable ds)
  | inr other ↦ rw other ((encode-IsLine n, encode-IsLine v), pushed_all-IsWritable ds)
]

insert_param-IsWritable :
    (p : CanonicalQueryParam) (ps : List CanonicalQueryParam)
    → IsWritable p
    → All IsWritable ps
    → All IsWritable (insert_param p ps)
unfolding insert_param
insert_param-IsWritable p [] hp h = (hp, tt)
insert_param-IsWritable p (q ∷ ps) hp (hq, h) = elim (Bool-cases (param_le p q)) [
  | inl before ↦ rw before (hp, (hq, h))
  | inr after ↦ rw after (hq, insert_param-IsWritable p ps hp h)
]

sort_params-IsWritable :
    (ps : List CanonicalQueryParam) → All IsWritable ps → All IsWritable (sort_params ps)
unfolding sort_params
sort_params-IsWritable [] h = tt
sort_params-IsWritable (p ∷ ps) (hp, h) =
    insert_param-IsWritable p (sort_params ps) hp (sort_params-IsWritable ps h)

write_params-IsLine : (ps : List CanonicalQueryParam) → All IsWritable ps → IsLine (write_params ps)
unfolding write_params
write_params-IsLine [] h = tt
write_params-IsLine (p ∷ []) ((n, v), h) =
    All-append (λ c. c ≢ b'\n') p.name (b'=' ∷ p.value) n (omega arith, v)
write_params-IsLine (p ∷ q ∷ ps) ((n, v), h) =
    All-append (λ c. c ≢ b'\n') p.name (b'=' ∷ (p.value ++ b'&' ∷ write_params (q ∷ ps))) n
      (
        omega arith,
        All-append (λ c. c ≢ b'\n') p.value (b'&' ∷ write_params (q ∷ ps)) v
            (omega arith, write_params-IsLine (q ∷ ps) h),
      )

pub canonical_query-IsLine :
    (query : Bytes) {out : Bytes} {values : SigV4Query}
    → canonical_query query ≡ ok (out, values)
    → IsLine out
unfolding canonical_query
canonical_query-IsLine [] {out} h = let none_left : out ≡ [] = ground arith in rw none_left tt
canonical_query-IsLine (c ∷ r) h =
    let (ds, _, written, _) = canonical_query_decoded (c ∷ r) (λ e. ground arith) h in
    rw written (
      write_params-IsLine (sort_params (pushed_all ds))
        (sort_params-IsWritable (pushed_all ds) (pushed_all-IsWritable ds)))

pub method-IsLine :
    (method : Bytes) (supported : List Bytes)
    → All IsMethod supported
    → contains method supported ≡ true
    → IsLine method
unfolding contains
method-IsLine method [] h k = ground arith
method-IsLine method (m ∷ ms) (hm, h) k = elim (Bool-cases (bytes_eq m method)) [
  | inr other ↦ method-IsLine method ms h (rw (contains, other) at k)
  | inl same ↦
      let q : method ≡ m = sym (bytes_eq→eq m method same) in
      elim hm [ inl get ↦ rw (q, get) (omega arith) | inr head ↦ rw (q, head) (omega arith) ]
]
