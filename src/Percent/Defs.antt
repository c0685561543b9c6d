-- ===== src/Percent/Defs.antt =====
-- `percent_decode`, `query_component_needs_slow_path` and `canonicalize_query_component`.
-- `while i < len` is the recursion on the bytes from `i` on: `i + 2 >= len` says that fewer than
-- two bytes follow, so the clause for three bytes is the other case. A loop that pushes onto `out`
-- is the recursion that conses.
use sigv4_verify.Base.{
  ℕ, Bool, true, false, not, ◌&&◌, Option, none, some, [], ◌∷◌, ◌++◌, Bytes, ◌==◌, if◌then◌else◌,
  Result, ok, err, ◌>>=◌,
}
use sigv4_verify.Hex.{is_unreserved, is_hex, hex_byte, write_escaped_byte}

pub data UriError : Type 0 where
  uri_error : UriError

abbrev pub UriResult : Type 0 → Type 0
UriResult = Result UriError

-- `decoded.push(b)` in front of what the rest of the loop pushes.
abbrev pub push : ℕ → UriResult Bytes → UriResult Bytes
push b rest = do out ← rest; ok (b ∷ out)

unfoldable pub percent_decode : Bytes → UriResult Bytes
percent_decode [] = ok []
percent_decode (c ∷ h ∷ l ∷ r) =
    let plain = push c (percent_decode (h ∷ l ∷ r)) in
    let escape = push (hex_byte h l) (percent_decode r) in
    if not (c == b'%') then plain else if is_hex h && is_hex l then escape else err uri_error
percent_decode (c ∷ r) =
    let plain = push c (percent_decode r) in if not (c == b'%') then plain else err uri_error

-- The loop of `query_component_needs_slow_path`, with its variable `slow`.
unfoldable pub needs_slow_path_loop : Bool → Bytes → UriResult Bool
needs_slow_path_loop slow [] = ok slow
needs_slow_path_loop slow (c ∷ h ∷ l ∷ r) =
    let escape = needs_slow_path_loop true r in
    let plain = needs_slow_path_loop (if is_unreserved c then slow else true) (h ∷ l ∷ r) in
    if c == b'%' then (if is_hex h && is_hex l then escape else err uri_error) else plain
needs_slow_path_loop slow (c ∷ r) =
    let plain = needs_slow_path_loop (if is_unreserved c then slow else true) r in
    if c == b'%' then err uri_error else plain

unfoldable pub query_component_needs_slow_path : Bytes → UriResult Bool
query_component_needs_slow_path raw = needs_slow_path_loop false raw

-- What one round appends to `encoded` for the byte `b`.
unfoldable pub encode_byte : ℕ → Bytes
encode_byte b = if is_unreserved b then b ∷ [] else write_escaped_byte b

-- `encoded`, and `decoded` if it is wanted, with the byte `b` in front.
abbrev pub push_both : ℕ → UriResult (Bytes × Option Bytes) → UriResult (Bytes × Option Bytes)
push_both b rest = do
  (encoded, decoded) ← rest
  ok (encode_byte b ++ encoded, elim decoded [ none ↦ none | some d ↦ some (b ∷ d) ])

-- The slow loop of `canonicalize_query_component`.
unfoldable pub canonicalize_loop : Bool → Bytes → UriResult (Bytes × Option Bytes)
canonicalize_loop want [] = ok ([], if want then some [] else none)
canonicalize_loop want (c ∷ h ∷ l ∷ r) =
    let escape = push_both (hex_byte h l) (canonicalize_loop want r) in
    let plain = push_both c (canonicalize_loop want (h ∷ l ∷ r)) in
    if c == b'%' then (if is_hex h && is_hex l then escape else err uri_error) else plain
canonicalize_loop want (c ∷ r) =
    let plain = push_both c (canonicalize_loop want r) in if c == b'%' then err uri_error else plain

unfoldable pub canonicalize_query_component : Bytes → Bool → UriResult (Bytes × Option Bytes)
canonicalize_query_component raw want_decoded = do
  slow ← query_component_needs_slow_path raw
  if not slow
      then ok (raw, if want_decoded then some raw else none)
      else canonicalize_loop want_decoded raw
