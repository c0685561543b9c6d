-- ===== src/Tests/QueryTests.antt =====
-- The theorems of this component at concrete queries, and tests.
use sigv4_verify.Running.{running}
use mathlib.Core.List.{Perm}
use mathlib.Core.List.Perm
use sigv4_verify.Base.{◌≡◌, ◌∷◌, [], List, refl, codes, Bytes, ok, err}
use sigv4_verify.Percent.{uri_error}
use sigv4_verify.Text.{split}
use sigv4_verify.Query.{
  SigV4Query, default_query, KnownName, spelling, CanonicalQueryParam, sort_params, canonical_query,
  single_known_query_value,
}
use sigv4_verify.Query.Order.{sort_params_unique}
use sigv4_verify.Query.Params.{Decoded, decode_parts, described, canonical_query-described}
use sigv4_verify.Query.Laws.{canonical_query-order}
use sigv4_verify.Query.Values.{
  value_of, count_of, values_named, the_only, single_known_query_value-canonical_query,
}

abbrev query : Bytes
query = codes "b=2&X-Amz-Signature=ff&a=1%2f"

abbrev rearranged : Bytes
rearranged = codes "X-Amz-Signature=ff&b=2&a=1%2f"

abbrev values : SigV4Query
values = record default_query { signature = codes "ff"; signature_count = 1 }

accepted : canonical_query query ≡ ok (codes "a=1%2F&b=2", values)
unfolding running
accepted = refl

empty_part : canonical_query (codes "a=1&&b=2") ≡ err uri_error
unfolding running
empty_part = refl

trailing_ampersand : canonical_query (codes "a=1&") ≡ err uri_error
unfolding running
trailing_ampersand = refl

not_text : canonical_query (codes "X-Amz-Date=%ff") ≡ err uri_error
unfolding running
not_text = refl

parts_perm : Perm (split b'&' query) (split b'&' rearranged)
unfolding running
parts_perm = Perm.swap (codes "X-Amz-Signature=ff") (codes "b=2") (codes "a=1%2f" ∷ [])

canonical_query-described_example :
    canonical_query query ≡ described (decode_parts (split b'&' query))
unfolding running
canonical_query-described_example = canonical_query-described query refl refl

canonical_query-order_example :
    (values' : SigV4Query) × (canonical_query rearranged ≡ ok (codes "a=1%2F&b=2", values'))
canonical_query-order_example =
    canonical_query-order query rearranged (cc) (cc) refl parts_perm accepted

single_known_query_value-canonical_query_example :
    (ps : List Decoded) × (decode_parts (split b'&' query) ≡ ok ps)
    × (single_known_query_value
          (value_of KnownName.signature values)
          (count_of KnownName.signature values)
        ≡ the_only (values_named (spelling KnownName.signature) ps))
single_known_query_value-canonical_query_example =
    single_known_query_value-canonical_query KnownName.signature query (cc) accepted

abbrev param : Bytes → Bytes → CanonicalQueryParam
param n v = record { name = n; value = v }

sort_params_unique_example :
    param (codes "a") (codes "1") ∷ param (codes "b") (codes "2") ∷ []
    ≡ sort_params (param (codes "b") (codes "2") ∷ param (codes "a") (codes "1") ∷ [])
unfolding running
sort_params_unique_example =
    sort_params_unique (param (codes "b") (codes "2") ∷ param (codes "a") (codes "1") ∷ [])
      (param (codes "a") (codes "1") ∷ param (codes "b") (codes "2") ∷ []) (refl, tt)
      (Perm.swap (param (codes "b") (codes "2")) (param (codes "a") (codes "1")) [])
