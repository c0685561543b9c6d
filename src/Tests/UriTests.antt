-- ===== src/Tests/UriTests.antt =====
-- The theorems of this component at concrete paths, and tests.
use sigv4_verify.Running.{running}
use sigv4_verify.Base.{◌≡◌, ◌⊎◌, ◌++◌, ◌∷◌, [], refl, arith, codes, Bytes, ok, err}
use sigv4_verify.Percent.{uri_error, percent_decode}
use sigv4_verify.Text.Split.{Lacks}
use sigv4_verify.Uri.{validate_raw_path, canonical_uri_from_valid_path}
use sigv4_verify.Uri.Decoding.{canonical_uri_decodes}
use sigv4_verify.Uri.Safety.{
  IsSafePath, validate_raw_path-IsSafePath, split_original_uri-IsSafePath,
}

abbrev object_path : Bytes
object_path = codes "/bucket/a%20b+c"

dot_segments :
    (validate_raw_path (codes "/a/../b") ≡ err uri_error)
    × (validate_raw_path (codes "/a/%2e%2E/b") ≡ err uri_error)
    × (validate_raw_path (codes "/a%2fb") ≡ err uri_error)
    × (validate_raw_path (codes "/a//b") ≡ err uri_error)
unfolding running
dot_segments = (refl, refl, refl, refl)

canonical_object_path : canonical_uri_from_valid_path (codes "/b/a%2bc+d") ≡ codes "/b/a%2Bc%2Bd"
unfolding running
canonical_object_path = refl

validate_raw_path-IsSafePath_example : IsSafePath object_path
unfolding running
validate_raw_path-IsSafePath_example = validate_raw_path-IsSafePath object_path refl

split_original_uri-IsSafePath_example :
    IsSafePath object_path
    × Lacks b'?' object_path
    × (((codes "/bucket/a%20b+c?x=1" ≡ object_path) × (codes "x=1" ≡ []))
        ⊎ (codes "/bucket/a%20b+c?x=1" ≡ object_path ++ b'?' ∷ codes "x=1"))
unfolding running
split_original_uri-IsSafePath_example =
    split_original_uri-IsSafePath (codes "/bucket/a%20b+c?x=1") object_path (codes "x=1") refl

canonical_uri_decodes_example :
    percent_decode (canonical_uri_from_valid_path object_path) ≡ ok (codes "/bucket/a b+c")
unfolding running
canonical_uri_decodes_example = canonical_uri_decodes object_path (omega arith) refl
