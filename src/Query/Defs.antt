-- ===== src/Query/Defs.antt =====
-- `SigV4Query`, `CanonicalQueryParam` and `canonical_query`.
use sigv4_verify.Base.{
  ℕ, ◌+◌, Bool, true, false, Option, none, some, List, [], ◌∷◌, ◌++◌, Bytes, codes, ltb, ◌==◌,
  if◌then◌else◌, bytes_eq, ok, err, ◌>>=◌,
}
use sigv4_verify.Percent.{UriResult, uri_error, canonicalize_query_component}
use sigv4_verify.Text.{ends_with_byte, split_once, split}
use sigv4_verify.Text.Utf8.{is_utf8}

pub record SigV4Query : Type 0 where
  pub algorithm : Bytes
  pub algorithm_count : ℕ
  pub credential : Bytes
  pub credential_count : ℕ
  pub date : Bytes
  pub date_count : ℕ
  pub expires : Bytes
  pub expires_count : ℕ
  pub signed_headers : Bytes
  pub signed_headers_count : ℕ
  pub signature : Bytes
  pub signature_count : ℕ

-- `SigV4Query::default()`.
abbrev pub default_query : SigV4Query
default_query = record {
  algorithm = [];
  algorithm_count = 0;
  credential = [];
  credential_count = 0;
  date = [];
  date_count = 0;
  expires = [];
  expires_count = 0;
  signed_headers = [];
  signed_headers_count = 0;
  signature = [];
  signature_count = 0;
}

-- The parameter names that the verifier reads.
pub data KnownName : Type 0 where
  algorithm credential date expires signed_headers signature : KnownName

abbrev pub spelling : KnownName → Bytes
spelling KnownName.algorithm = codes "X-Amz-Algorithm"
spelling KnownName.credential = codes "X-Amz-Credential"
spelling KnownName.date = codes "X-Amz-Date"
spelling KnownName.expires = codes "X-Amz-Expires"
spelling KnownName.signed_headers = codes "X-Amz-SignedHeaders"
spelling KnownName.signature = codes "X-Amz-Signature"

-- The arm of the `match name` in `set` that a name takes; `is_known_query_name` has the same arms.
unfoldable pub known_name : Bytes → Option KnownName
known_name name =
    if bytes_eq name (spelling KnownName.algorithm)
    then some KnownName.algorithm
    else if bytes_eq name (spelling KnownName.credential)
    then some KnownName.credential
    else if bytes_eq name (spelling KnownName.date)
    then some KnownName.date
    else if bytes_eq name (spelling KnownName.expires)
    then some KnownName.expires
    else if bytes_eq name (spelling KnownName.signed_headers)
    then some KnownName.signed_headers
    else if bytes_eq name (spelling KnownName.signature)
    then some KnownName.signature
    else none

unfoldable pub is_known_query_name : Bytes → Bool
unfolding known_name
is_known_query_name name = elim (known_name name) [ none ↦ false | some k ↦ true ]

-- The body of the arm.
unfoldable pub store : KnownName → Bytes → SigV4Query → SigV4Query
store KnownName.algorithm v q = record q { algorithm = v; algorithm_count = q.algorithm_count + 1 }
store KnownName.credential v q = record q {
  credential = v;
  credential_count = q.credential_count + 1;
}
store KnownName.date v q = record q { date = v; date_count = q.date_count + 1 }
store KnownName.expires v q = record q { expires = v; expires_count = q.expires_count + 1 }
store KnownName.signed_headers v q = record q {
  signed_headers = v;
  signed_headers_count = q.signed_headers_count + 1;
}
store KnownName.signature v q = record q { signature = v; signature_count = q.signature_count + 1 }

-- `SigV4Query::set`.
unfoldable pub set : Bytes → Bytes → SigV4Query → UriResult SigV4Query
unfolding store
set name value q =
    if is_utf8 value
    then ok (elim (known_name name) [ none ↦ q | some k ↦ store k value q ])
    else err uri_error

unfoldable pub single_known_query_value : Bytes → ℕ → Option Bytes
single_known_query_value value count = if count == 1 then some value else none

pub record CanonicalQueryParam : Type 0 where
  pub name : Bytes
  pub value : Bytes

-- `expect` of a component that was decoded on request, where `none` would be a panic.
abbrev pub expect : Option Bytes → Bytes
expect none = []
expect (some d) = d

-- `part[..eq]` and `part[eq + 1..]`.
abbrev pub name_and_value : Bytes → Bytes × Bytes
name_and_value part = elim (split_once b'=' part) [ some p ↦ p | none ↦ (part, []) ]

abbrev pub Round : Type 0
Round = UriResult (SigV4Query × Option CanonicalQueryParam)

-- The round for `X-Amz-Signature`: the value is kept, and no parameter is pushed.
unfoldable pub signature_round : Bytes → Bytes → SigV4Query → Round
signature_round decoded_name value_raw values = do
  (_, decoded_value) ← canonicalize_query_component value_raw true
  values' ← set decoded_name (expect decoded_value) values
  ok (values', none)

-- The round for any other name.
unfoldable pub param_round : Bytes → Bytes → Bytes → SigV4Query → Round
param_round encoded_name decoded_name value_raw values = do
  let known = is_known_query_name decoded_name
  (encoded_value, decoded_value) ← canonicalize_query_component value_raw known
  values' ← (if known then set decoded_name (expect decoded_value) values else ok values)
  ok (values', some (record { name = encoded_name; value = encoded_value }))

-- One round of the loop: the new `values`, and the parameter that it pushes.
unfoldable pub canonical_part : Bytes → SigV4Query → Round
unfolding signature_round param_round
canonical_part [] values = err uri_error
canonical_part (c ∷ rest) values = do
  let (name_raw, value_raw) = name_and_value (c ∷ rest)
  (encoded_name, decoded) ← canonicalize_query_component name_raw true
  let decoded_name = expect decoded
  if bytes_eq decoded_name []
      then err uri_error
      else (if bytes_eq decoded_name (spelling KnownName.signature)
          then signature_round decoded_name value_raw values
          else param_round encoded_name decoded_name value_raw values)

abbrev pub cons_some :
    Option CanonicalQueryParam → List CanonicalQueryParam → List CanonicalQueryParam
cons_some none ps = ps
cons_some (some p) ps = p ∷ ps

-- The loop over the parts between the ampersands.
unfoldable pub canonical_parts :
    List Bytes → SigV4Query → UriResult (SigV4Query × List CanonicalQueryParam)
canonical_parts [] values = ok (values, [])
canonical_parts (part ∷ parts) values = do
  (values', param) ← canonical_part part values
  (final, params) ← canonical_parts parts values'
  ok (final, cons_some param params)

-- `cmp` of byte strings, as a test for `<=`.
unfoldable pub bytes_le : Bytes → Bytes → Bool
bytes_le [] ys = true
bytes_le (x ∷ xs) [] = false
bytes_le (x ∷ xs) (y ∷ ys) = if ltb x y then true else if x == y then bytes_le xs ys else false

-- The comparator of the sort: by name, and by value among equal names.
unfoldable pub param_le : CanonicalQueryParam → CanonicalQueryParam → Bool
param_le a b = if bytes_eq a.name b.name then bytes_le a.value b.value else bytes_le a.name b.name

unfoldable pub insert_param :
    CanonicalQueryParam → List CanonicalQueryParam → List CanonicalQueryParam
insert_param p [] = p ∷ []
insert_param p (q ∷ qs) = if param_le p q then p ∷ q ∷ qs else q ∷ insert_param p qs

-- `sort_unstable_by`, as an insertion sort: the comparator compares all the fields there are.
unfoldable pub sort_params : List CanonicalQueryParam → List CanonicalQueryParam
unfolding insert_param
sort_params [] = []
sort_params (p ∷ ps) = insert_param p (sort_params ps)

-- The writing loop: an ampersand before every parameter but the first.
unfoldable pub write_params : List CanonicalQueryParam → Bytes
write_params [] = []
write_params (p ∷ []) = p.name ++ b'=' ∷ p.value
write_params (p ∷ q ∷ ps) = p.name ++ b'=' ∷ (p.value ++ b'&' ∷ write_params (q ∷ ps))

-- A non-empty query that does not end in `&` has one round for each part, as the index loop has.
unfoldable pub canonical_query : Bytes → UriResult (Bytes × SigV4Query)
canonical_query [] = ok ([], default_query)
canonical_query (c ∷ r) = if ends_with_byte b'&' (c ∷ r) then err uri_error else do
  (values, params) ← canonical_parts (split b'&' (c ∷ r)) default_query
  ok (write_params (sort_params params), values)
