-- ===== src/Uri/Defs.antt =====
-- `split_original_uri`, `validate_raw_path`, `canonical_uri_from_valid_path`, `is_canonical_path`.
-- An index loop is the recursion on the bytes from the index on, as in Percent/Defs.
use sigv4_verify.Base.{
  ℕ, Bool, true, false, not, ◌&&◌, ◌||◌, none, some, List, [], ◌∷◌, ◌++◌, Bytes, codes, leb, ◌==◌,
  if◌then◌else◌, bytes_eq, ok, err, ◌>>=◌, ◌>>◌,
}
use sigv4_verify.Hex.{is_unreserved, is_hex, upper_hex, write_escaped_byte}
use sigv4_verify.Percent.{UriResult, uri_error, percent_decode}
use sigv4_verify.Text.{starts_with_byte, any, split_once, split}

-- `path.windows(2).any(|w| w == b"//")`.
unfoldable pub has_double_slash : Bytes → Bool
has_double_slash [] = false
has_double_slash (c ∷ []) = false
has_double_slash (c ∷ d ∷ r) = ((c == b'/') && (d == b'/')) || has_double_slash (d ∷ r)

-- The escapes that decode to a slash or a backslash.
abbrev pub is_encoded_separator : ℕ → ℕ → Bool
is_encoded_separator h l =
    ((upper_hex h == b'2') && (upper_hex l == b'F'))
    || ((upper_hex h == b'5') && (upper_hex l == b'C'))

abbrev pub is_control : ℕ → Bool
is_control b = leb b 0x20 || (b == 0x7f)

-- The first loop of `validate_raw_path`.
unfoldable pub validate_bytes : Bytes → UriResult Unit
validate_bytes [] = ok tt
validate_bytes (b ∷ h ∷ l ∷ r) =
    let plain = validate_bytes (h ∷ l ∷ r) in
    let escape = validate_bytes r in
    if is_control b
    then err uri_error
    else if not (b == b'%')
    then plain
    else if not (is_hex h) || not (is_hex l)
    then err uri_error
    else if is_encoded_separator h l
    then err uri_error
    else escape
validate_bytes (b ∷ r) =
    let plain = validate_bytes r in
    if is_control b then err uri_error else if not (b == b'%') then plain else err uri_error

abbrev pub is_dot_segment : Bytes → Bool
is_dot_segment s = bytes_eq s (codes ".") || bytes_eq s (codes "..")

-- One round of the second loop of `validate_raw_path`.
unfoldable pub validate_segment : Bytes → UriResult Unit
validate_segment [] = ok tt
validate_segment (c ∷ s) =
    if not (any (λ b. b == b'%') (c ∷ s))
    then (if is_dot_segment (c ∷ s) then err uri_error else ok tt)
    else do
      decoded ← percent_decode (c ∷ s)
      if is_dot_segment decoded then err uri_error else ok tt

unfoldable pub validate_segments : List Bytes → UriResult Unit
validate_segments [] = ok tt
validate_segments (s ∷ rest) = do validate_segment s; validate_segments rest

-- `path[1..]`.
abbrev pub tail_of : Bytes → Bytes
tail_of [] = []
tail_of (c ∷ r) = r

-- The second loop starts at index 1 and visits what lies between the slashes.
unfoldable pub validate_raw_path : Bytes → UriResult Unit
validate_raw_path path =
    if not (starts_with_byte b'/' path)
    then err uri_error
    else if has_double_slash path
    then err uri_error
    else do validate_bytes path; validate_segments (split b'/' (tail_of path))

abbrev pub is_forbidden : ℕ → Bool
is_forbidden b = (b == b'\r') || (b == b'\n') || (b == b'\t') || (b == b' ') || (b == b'#')

abbrev pub path_and_query : Bytes → Bytes × Bytes
path_and_query raw_uri = elim (split_once b'?' raw_uri) [ some p ↦ p | none ↦ (raw_uri, []) ]

unfoldable pub split_original_uri : Bytes → UriResult (Bytes × Bytes)
split_original_uri raw_uri =
    if not (starts_with_byte b'/' raw_uri)
    then err uri_error
    else if any is_forbidden raw_uri
    then err uri_error
    else do let parts = path_and_query raw_uri; validate_raw_path parts.0; ok parts

-- The rebuilding loop of `canonical_uri_from_valid_path`.
unfoldable pub canonical_loop : Bytes → Bytes
canonical_loop [] = []
canonical_loop (c ∷ h ∷ l ∷ r) =
    let plain = canonical_loop (h ∷ l ∷ r) in
    let escape = canonical_loop r in
    if c == b'/'
    then b'/' ∷ plain
    else if (c == b'%') && is_hex h && is_hex l
    then b'%' ∷ upper_hex h ∷ upper_hex l ∷ escape
    else if is_unreserved c
    then c ∷ plain
    else write_escaped_byte c ++ plain
canonical_loop (c ∷ r) =
    let plain = canonical_loop r in
    if c == b'/'
    then b'/' ∷ plain
    else if is_unreserved c
    then c ∷ plain
    else write_escaped_byte c ++ plain

unfoldable pub is_canonical_path : Bytes → Bool
is_canonical_path [] = true
is_canonical_path (c ∷ h ∷ l ∷ r) =
    let plain = is_canonical_path (h ∷ l ∷ r) in
    let escape = is_canonical_path r in
    if (c == b'/') || is_unreserved c
    then plain
    else if (c == b'%') && is_hex h && is_hex l
    then (if not (h == upper_hex h) || not (l == upper_hex l) then false else escape)
    else false
is_canonical_path (c ∷ r) =
    let plain = is_canonical_path r in if (c == b'/') || is_unreserved c then plain else false

unfoldable pub canonical_uri_from_valid_path : Bytes → Bytes
canonical_uri_from_valid_path raw_path =
    if is_canonical_path raw_path then raw_path else canonical_loop raw_path
