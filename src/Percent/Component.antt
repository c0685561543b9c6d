-- ===== src/Percent/Component.antt =====
-- The two paths of `canonicalize_query_component` agree: both re-encode the decoded component.
use sigv4_verify.Base.{
  ℕ, ◌≡◌, refl, Bool, true, false, Option, none, some, [], ◌∷◌, arith, Bytes, if◌then◌else◌, ok,
  err, Result-cases, inl, inr, All, IsByte,
}
use sigv4_verify.Hex.{hex_byte}
use sigv4_verify.Percent.Decode.{encode, percent_decode-encode, percent_decode-OkBytes, OkBytes}
use sigv4_verify.Percent.Defs.{
  UriResult, UriError, uri_error, push, percent_decode, needs_slow_path_loop, encode_byte,
  push_both, canonicalize_loop, canonicalize_query_component, query_component_needs_slow_path,
}

abbrev pub wanted : Bool → Bytes → Option Bytes
wanted want d = if want then some d else none

abbrev pub reencode : Bool → UriResult Bytes → UriResult (Bytes × Option Bytes)
reencode want (ok d) = ok (encode d, wanted want d)
reencode want (err e) = err e

push_both-reencode :
    (want : Bool) (b : ℕ) (r : UriResult Bytes)
    → push_both b (reencode want r) ≡ reencode want (push b r)
push_both-reencode true b (ok d) = refl
push_both-reencode false b (ok d) = refl
push_both-reencode want b (err e) = refl

canonicalize_loop_lem :
    (want : Bool) (raw : Bytes) → canonicalize_loop want raw ≡ reencode want (percent_decode raw)
unfolding canonicalize_loop percent_decode
canonicalize_loop_lem want [] = refl
canonicalize_loop_lem want (c ∷ h ∷ l ∷ r) = ground (
  arith,
  canonicalize_loop_lem want (h ∷ l ∷ r),
  canonicalize_loop_lem want r,
  push_both-reencode want c (percent_decode (h ∷ l ∷ r)),
  push_both-reencode want (hex_byte h l) (percent_decode r),
)
canonicalize_loop_lem want (c ∷ r) =
    ground (arith, canonicalize_loop_lem want r, push_both-reencode want c (percent_decode r))

-- The first pass fails exactly as decoding does.
needs_slow_path_err :
    (slow : Bool) (raw : Bytes) (e : UriError)
    → needs_slow_path_loop slow raw ≡ err e
    → percent_decode raw ≡ err e
unfolding needs_slow_path_loop percent_decode
needs_slow_path_err slow [] e h = ground arith
needs_slow_path_err slow (c ∷ h ∷ l ∷ r) e p = ground (
  arith,
  needs_slow_path_err true r e,
  needs_slow_path_err slow (h ∷ l ∷ r) e,
  needs_slow_path_err true (h ∷ l ∷ r) e,
)
needs_slow_path_err slow (c ∷ r) e p =
    ground (arith, needs_slow_path_err slow r e, needs_slow_path_err true r e)

-- A component that needs no slow path is its own decoding and its own encoding.
needs_slow_path_fast :
    (slow : Bool) (raw : Bytes)
    → needs_slow_path_loop slow raw ≡ ok false
    → (slow ≡ false) × (percent_decode raw ≡ ok raw) × (encode raw ≡ raw)
unfolding needs_slow_path_loop percent_decode encode_byte
needs_slow_path_fast slow [] p = ground arith
needs_slow_path_fast slow (c ∷ h ∷ l ∷ r) p = ground (
  arith,
  needs_slow_path_fast true r,
  needs_slow_path_fast slow (h ∷ l ∷ r),
  needs_slow_path_fast true (h ∷ l ∷ r),
)
needs_slow_path_fast slow (c ∷ r) p =
    ground (arith, needs_slow_path_fast slow r, needs_slow_path_fast true r)

-- canonicalize_query_component, by its fast and its slow path alike, gives the encoding of the
-- percent-decoded component, with the decoded bytes if they are wanted, and fails exactly as
-- percent_decode does.
pub canonicalize_query_component-reencode :
    (raw : Bytes) (want : Bool)
    → canonicalize_query_component raw want ≡ reencode want (percent_decode raw)
unfolding canonicalize_query_component query_component_needs_slow_path
canonicalize_query_component-reencode raw want = ground (
  arith,
  needs_slow_path_err false raw uri_error,
  needs_slow_path_fast false raw,
  canonicalize_loop_lem want raw,
)

-- What a successful call has decoded.
pub canonicalize_query_component_decoded :
    (raw : Bytes) (want : Bool) {e : Bytes} {d : Option Bytes}
    → All IsByte raw
    → canonicalize_query_component raw want ≡ ok (e, d)
    → (x : Bytes) × (percent_decode raw ≡ ok x)
      × All IsByte x
      × (e ≡ encode x)
      × (d ≡ wanted want x)
canonicalize_query_component_decoded raw want {e} {d} b p =
    elim (Result-cases (percent_decode raw)) [
      | inl (x, hx) ↦
          let bx : OkBytes (ok x) = rw hx at (percent_decode-OkBytes raw b) in
          let q : reencode want (ok x) ≡ ok (e, d) =
            ground (arith, canonicalize_query_component-reencode raw want) in
          (x, hx, bx, ground arith, ground arith)
      | inr (x, hx) ↦ cc (canonicalize_query_component-reencode raw want)
    ]

-- Two components of bytes whose canonical encodings are equal have the same decoded bytes.
pub canonicalize_query_component-injective :
    (raw raw' : Bytes) {e d d' : Bytes}
    → All IsByte raw
    → All IsByte raw'
    → canonicalize_query_component raw true ≡ ok (e, some d)
    → canonicalize_query_component raw' true ≡ ok (e, some d')
    → d ≡ d'
canonicalize_query_component-injective raw raw' b b' p q =
    let (x, _, bx, ex, dx) = canonicalize_query_component_decoded raw true b p in
    let (y, _, by, ey, dy) = canonicalize_query_component_decoded raw' true b' q in
    cc (percent_decode-encode x bx, percent_decode-encode y by)

-- For a component of bytes, canonicalising its encoding again gives the same encoding and the same
-- decoded bytes.
pub canonicalize_query_component_idem :
    (raw : Bytes) (want : Bool) {e : Bytes} {d : Option Bytes}
    → All IsByte raw
    → canonicalize_query_component raw want ≡ ok (e, d)
    → canonicalize_query_component e want ≡ ok (e, d)
canonicalize_query_component_idem raw want {e} {d} b p =
    let (x, _, bx, ex, dx) = canonicalize_query_component_decoded raw want b p in
    rw (canonicalize_query_component-reencode e want, ex, percent_decode-encode x bx) (cc)
