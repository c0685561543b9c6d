-- ===== src/Tests/PercentTests.antt =====
-- The theorems of this component at concrete components, and tests.
use sigv4_verify.Running.{running}
use sigv4_verify.Base.{◌≡◌, refl, true, codes, Bytes, err}
use sigv4_verify.Percent.{uri_error, percent_decode, canonicalize_query_component}
use sigv4_verify.Percent.Component.{reencode, canonicalize_query_component-reencode}

abbrev lower_escape : Bytes
lower_escape = codes "a%2fb c"

abbrev upper_escape : Bytes
upper_escape = codes "%61%2Fb%20c"

malformed : percent_decode (codes "a%2") ≡ err uri_error
unfolding running
malformed = refl

canonicalize_query_component-reencode_example :
    canonicalize_query_component lower_escape true ≡ reencode true (percent_decode lower_escape)
canonicalize_query_component-reencode_example =
    canonicalize_query_component-reencode lower_escape true
