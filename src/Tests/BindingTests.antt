-- ===== src/Tests/BindingTests.antt =====
-- One signed URI sent twice, with another spelling of the method and of the host.
use sigv4_verify.Base.{◌≡◌, ◌⊎◌, refl, true, ok, codes, Bytes, All, IsByte}
use sigv4_verify.Signing.{decode_signature}
use sigv4_verify.Running.{running}
use sigv4_verify.Tests.SigningTests.{toy, total}
use sigv4_verify.Tests.PresignTests.{repeat-IsByte, total-IsByte}
use sigv4_verify.Tests.VerifierTests.{state, method, signed_uri, host, now, configured}
use sigv4_verify.Verifier.{Checked, check_request, verify}
use sigv4_verify.Verifier.Safety.{check_request-IsChecked}
use sigv4_verify.Verifier.Binding.Collisions.{IsSameRequest, IsCollision, verify-binds}

abbrev first : (c : Checked) × (check_request toy state method signed_uri host now ≡ ok c)
unfolding running
first = (_, refl)

abbrev second :
    (c : Checked) × (check_request toy state (codes "GET") signed_uri (codes "example.com") now
      ≡ ok c)
unfolding running
second = (_, refl)

first_allowed : (verify toy state method signed_uri host now).0.allowed ≡ true
unfolding running
first_allowed = refl

second_allowed :
    (verify toy state (codes "GET") signed_uri (codes "example.com") now).0.allowed ≡ true
unfolding running
second_allowed = refl

one_signature : decode_signature first.0.signature_hex ≡ decode_signature second.0.signature_hex
unfolding first second
one_signature = refl

digest-IsByte : (data' : Bytes) → All IsByte (toy.digest data')
digest-IsByte data' = repeat-IsByte 32 (total data') (total-IsByte data')

verify-binds_example : IsSameRequest first.0 second.0 ⊎ IsCollision toy first.0 second.0
verify-binds_example =
    verify-binds toy state state method signed_uri host now (codes "GET") signed_uri
      (codes "example.com") now first.0 second.0 configured configured digest-IsByte
      (check_request-IsChecked toy state method signed_uri host now first.0 first.1)
      (check_request-IsChecked toy state (codes "GET") signed_uri (codes "example.com") now second.0
        second.1)
      first_allowed second_allowed one_signature
