-- ===== src/Verifier/Binding/Texts.antt =====
-- The canonical request and the string to sign, read back.
use sigv4_verify.Base.{
  ◌≡◌, refl, sym, ◌∙◌, some, [], ◌∷◌, ◌++◌, arith, Bytes, codes, length, All, IsByte,
}
use sigv4_verify.Crypto.{Crypto}
use sigv4_verify.Hex.{append_hex_lower}
use sigv4_verify.Text.Cuts.{cut_prefix, cut_suffix, cut_at}
use sigv4_verify.Signing.{payload_hash, hash_canonical_request, string_to_sign}
use sigv4_verify.Signing.Signatures.{decode_signature-append_hex_lower, length-append_hex_lower}
use sigv4_verify.Verifier.Binding.Lines.{IsLine}

-- What `hash_canonical_request` hashes.
abbrev pub request_text : Bytes → Bytes → Bytes → Bytes → Bytes
request_text method canonical_path canonical_query_string canonical_host =
    method
    ++ (b'\n'
        ∷ (canonical_path
            ++ (b'\n'
                ∷ (canonical_query_string
                    ++ (codes "\nhost:"
                        ++ (canonical_host ++ (codes "\n\nhost\n" ++ payload_hash)))))))

pub hash_canonical_request-text :
    (crypto : Crypto) (m p q h : Bytes)
    → hash_canonical_request crypto m p q h ≡ crypto.digest (request_text m p q h)
unfolding hash_canonical_request
hash_canonical_request-text crypto m p q h = refl

pub request_text-injective :
    (m m' p p' q q' h h' : Bytes)
    → IsLine m
    → IsLine m'
    → IsLine p
    → IsLine p'
    → IsLine q
    → IsLine q'
    → request_text m p q h ≡ request_text m' p' q' h'
    → (m ≡ m') × (p ≡ p') × (q ≡ q') × (h ≡ h')
request_text-injective m m' p p' q q' h h' lm lm' lp lp' lq lq' e =
    let (same_m, e1) = cut_at b'\n' m m' _ _ lm lm' e in
    let (same_p, e2) = cut_at b'\n' p p' _ _ lp lp' e1 in
    let end = codes "\n\nhost\n" ++ payload_hash in
    let (same_q, e3) =
      cut_at b'\n' q q' (codes "host:" ++ (h ++ end)) (codes "host:" ++ (h' ++ end)) lq lq' e2 in
    let (_, e4) = cut_prefix (codes "host:") (codes "host:") (h ++ end) (h' ++ end) refl e3 in
    let (same_h, _) = cut_suffix h h' end end refl e4 in (same_m, same_p, same_q, same_h)

hex-injective :
    (x y : Bytes)
    → All IsByte x
    → All IsByte y
    → length x ≡ 32
    → length y ≡ 32
    → append_hex_lower x ≡ append_hex_lower y
    → x ≡ y
hex-injective x y bx by lx ly e =
    let a = decode_signature-append_hex_lower x bx lx in
    let b = decode_signature-append_hex_lower y by ly in
    let both : some x ≡ some y = sym a ∙ rw e b in cc

pub string_to_sign-injective :
    (crypto : Crypto) (d d' s s' x y : Bytes)
    → length d ≡ length d'
    → All IsByte x
    → All IsByte y
    → length x ≡ 32
    → length y ≡ 32
    → string_to_sign crypto d s x ≡ string_to_sign crypto d' s' y
    → (d ≡ d') × (s ≡ s') × (x ≡ y)
unfolding string_to_sign
string_to_sign-injective crypto d d' s s' x y ld bx by lx ly e =
    let rest = s ++ (b'\n' ∷ append_hex_lower x) in
    let rest' = s' ++ (b'\n' ∷ append_hex_lower y) in
    let name = codes "AWS4-HMAC-SHA256\n" in
    let (_, e1) = cut_prefix name name (d ++ (b'\n' ∷ rest)) (d' ++ (b'\n' ∷ rest')) refl e in
    let (same_d, e2) = cut_prefix d d' (b'\n' ∷ rest) (b'\n' ∷ rest') ld e1 in
    let (_, e3) = cut_prefix (b'\n' ∷ []) (b'\n' ∷ []) rest rest' refl e2 in
    let long : length (append_hex_lower x) ≡ length (append_hex_lower y) =
      omega (arith, length-append_hex_lower x, length-append_hex_lower y, lx, ly) in
    let (same_s, e4) =
      cut_suffix s s' (b'\n' ∷ append_hex_lower x) (b'\n' ∷ append_hex_lower y)
        (omega (arith, long)) e3 in
    let (_, e5) =
      cut_prefix (b'\n' ∷ []) (b'\n' ∷ []) (append_hex_lower x) (append_hex_lower y) refl e4 in
    (same_d, same_s, hex-injective x y bx by lx ly e5)
