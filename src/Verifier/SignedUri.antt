-- ===== src/Verifier/SignedUri.antt =====
-- `split_original_uri` on a request URI with a signature appended.
use sigv4_verify.Base.{
  ℕ, ◌≡◌, refl, sym, ◌∙◌, Bool, true, false, ◌||◌, [], ◌∷◌, ◌++◌, arith, Bytes, ok, err,
  Result-cases, Bool-cases, inl, inr, All, IsByte,
}
use sigv4_verify.Hex.{is_hex, append_hex_lower, hex_lower_lem}
use sigv4_verify.Text.{any, starts_with_byte}
use sigv4_verify.Text.Split.{Lacks}
use sigv4_verify.Text.Joined.{split_once-append}
use sigv4_verify.Uri.{split_original_uri, is_forbidden, path_and_query, validate_raw_path}
use sigv4_verify.Percent.{uri_error}
use sigv4_verify.Query.Signed.{IsHexText, with_signature, signature_part}

pub append_hex_lower-IsHexText : (d : Bytes) → All IsByte d → IsHexText (append_hex_lower d)
unfolding append_hex_lower
append_hex_lower-IsHexText [] h = tt
append_hex_lower-IsHexText (b ∷ d) (hb, h) =
    let (hi, lo, value) = hex_lower_lem b hb in (hi, (lo, append_hex_lower-IsHexText d h))

pub any-append : (f : ℕ → Bool) (xs ys : Bytes) → any f (xs ++ ys) ≡ (any f xs || any f ys)
unfolding any
any-append f [] ys = refl
any-append f (x ∷ xs) ys = ground (arith, any-append f xs ys)

digit_allowed : (c : ℕ) → is_hex c ≡ true → is_forbidden c ≡ false
unfolding is_hex
digit_allowed c h = ground arith

any-IsHexText : (s : Bytes) → IsHexText s → any is_forbidden s ≡ false
unfolding any
any-IsHexText [] h = refl
any-IsHexText (c ∷ s) (hc, h) = rw (any, digit_allowed c hc, any-IsHexText s h) refl

-- The request URI with a signature appended.
abbrev pub signed_uri : Bytes → Bytes → Bytes → Bytes
signed_uri path query signature_hex = path ++ b'?' ∷ with_signature query signature_hex

path_and_query-signed :
    (path query s : Bytes)
    → Lacks b'?' path
    → path_and_query (signed_uri path query s) ≡ (path, with_signature query s)
path_and_query-signed path query s h =
    rw (path_and_query, split_once-append b'?' path (with_signature query s) h) refl

-- No forbidden byte, whatever the signature.
any-signed :
    (path query s : Bytes)
    → IsHexText s
    → any is_forbidden (signed_uri path query s)
      ≡ any is_forbidden (path ++ b'?' ∷ with_signature query [])
unfolding any
any-signed path query s h =
    rw
      (
        any-append is_forbidden path (b'?' ∷ with_signature query s),
        any-append is_forbidden path (b'?' ∷ with_signature query []),
        any-append is_forbidden query (b'&' ∷ signature_part s),
        any-append is_forbidden query (b'&' ∷ signature_part []),
        any-IsHexText s h,
      )
      refl

starts_with_byte-append :
    (b : ℕ) (path : Bytes) (c : ℕ) (r r' : Bytes)
    → starts_with_byte b (path ++ c ∷ r) ≡ starts_with_byte b (path ++ c ∷ r')
starts_with_byte-append b [] c r r' = refl
starts_with_byte-append b (x ∷ path) c r r' = refl

-- What `split_original_uri` tests of a signed URI.
pub split_original_uri-signed :
    (path query s t : Bytes) {p : Bytes × Bytes}
    → Lacks b'?' path
    → IsHexText s
    → IsHexText t
    → split_original_uri (signed_uri path query s) ≡ ok p
    → (p ≡ (path, with_signature query s))
      × (split_original_uri (signed_uri path query t) ≡ ok (path, with_signature query t))
unfolding split_original_uri
split_original_uri-signed path query s t {p} lacks hs ht h =
    let parts = path_and_query-signed path query s lacks in
    let parts' = path_and_query-signed path query t lacks in
    let starts =
      starts_with_byte-append b'/' path b'?' (with_signature query s) (with_signature query t) in
    let clean = any-signed path query s hs ∙ sym (any-signed path query t ht) in
    elim (Bool-cases (starts_with_byte b'/' (signed_uri path query s))) [
      | inr bad ↦
          let absurd : err uri_error ≡ ok p = rw (split_original_uri, bad) at h in ground arith
      | inl st ↦ elim (Bool-cases (any is_forbidden (signed_uri path query s))) [
        | inl bad ↦
            let absurd : err uri_error ≡ ok p = rw (split_original_uri, st, bad) at h in
            ground arith
        | inr fine ↦ elim (Result-cases (validate_raw_path path)) [
          | inr (e, bad) ↦
              let absurd : err e ≡ ok p = rw (split_original_uri, st, fine, parts, bad) at h in
              ground arith
          | inl (u, valid) ↦
              let found : ok (path, with_signature query s) ≡ ok p =
                rw (split_original_uri, st, fine, parts, valid) at h in
              (
                ground arith,
                rw (split_original_uri, sym starts ∙ st, sym clean ∙ fine, parts', valid) refl,
              )
        ]
      ]
    ]
