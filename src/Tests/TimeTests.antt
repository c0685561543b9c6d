-- ===== src/Tests/TimeTests.antt =====
-- One request at several times, and against other credentials.
use sigv4_verify.Base.{◌≡◌, ◌↔◌, refl, sym, subst, true, codes, ◌∷◌, ok}
use sigv4_verify.Base.Int.{pos, ◌+ℤ◌, ◌≤ℤ◌, saturate}
use sigv4_verify.Running.{running}
use sigv4_verify.Scope.{CredentialScope}
use sigv4_verify.Tests.SigningTests.{toy}
use sigv4_verify.Verifier.{
  Credentials, SystemTime, since_epoch, from_secs, saturating_duration_i64,
  system_time_epoch_seconds, verify, Checked, check_request, Part, RequestUri, read_uri, read_scope,
  lookup,
}
use sigv4_verify.Verifier.Safety.{check_request-IsChecked}
use sigv4_verify.Verifier.Isolation.{Agree, verify-isolated}
use sigv4_verify.Verifier.Window.{verify-window, verify-lifetime}
use sigv4_verify.Tests.VerifierTests.{cred, state, method, signed_uri, host, now, configured}

abbrev first : SystemTime
first = since_epoch (from_secs 1_767_323_050)

abbrev last : SystemTime
last = since_epoch (from_secs 1_767_323_600)

first_allowed : (verify toy state method signed_uri host first).0.allowed ≡ true
unfolding running
first_allowed = refl

last_allowed : (verify toy state method signed_uri host last).0.allowed ≡ true
unfolding running
last_allowed = refl

abbrev read_first : (c : Checked) × (check_request toy state method signed_uri host first ≡ ok c)
unfolding running
read_first = (_, refl)

verify-window_example : ((verify toy state method signed_uri host now).0.allowed ≡ true) ↔ (
    (read_first.0.parsed_date.epoch_seconds
      ≤ℤ saturate (
          system_time_epoch_seconds now
          +ℤ saturating_duration_i64 state.settings.allowed_clock_skew))
    × (system_time_epoch_seconds now
        ≤ℤ saturate (read_first.0.parsed_date.epoch_seconds +ℤ pos read_first.0.expires_seconds)))
verify-window_example =
    verify-window toy state method signed_uri host first now read_first.0 configured.1
      (check_request-IsChecked toy state method signed_uri host first read_first.0 read_first.1)
      first_allowed

verify-lifetime_example :
    system_time_epoch_seconds last
    ≤ℤ saturate (
        saturate (
          system_time_epoch_seconds first
          +ℤ saturating_duration_i64 state.settings.allowed_clock_skew)
        +ℤ pos 604_800)
verify-lifetime_example =
    verify-lifetime toy state method signed_uri host first last configured.1 first_allowed
      last_allowed

-- Another credential in front.
abbrev others : Credentials
others = (codes "AKIB", record cred { access_key = codes "AKIB" }) ∷ state.credentials

abbrev read : (uri : RequestUri) × (read_uri signed_uri ≡ ok uri)
unfolding running
read = (_, refl)

abbrev scoped : (scope : CredentialScope) × (read_scope toy state read.0 ≡ ok scope)
unfolding running
scoped = (_, refl)

found : lookup scoped.0.access_key others ≡ lookup scoped.0.access_key state.credentials
unfolding running
found = refl

one_result : {A : Type 0} (m : Part A) (a b : A) → m ≡ ok a → m ≡ ok b → a ≡ b
one_result m a b p q = cc

agree : Agree toy state others signed_uri
agree uri scope q r =
    let same = one_result (read_uri signed_uri) read.0 uri read.1 q in
    let r' : read_scope toy state read.0 ≡ ok scope =
      subst (λ u. read_scope toy state u ≡ ok scope) (sym same) r in
    let same_scope = one_result (read_scope toy state read.0) scoped.0 scope scoped.1 r' in
    subst (λ s. lookup s.access_key others ≡ lookup s.access_key state.credentials) same_scope found

verify-isolated_example :
    (verify toy (record state { credentials = others }) method signed_uri host now).0
    ≡ (verify toy state method signed_uri host now).0
verify-isolated_example = verify-isolated toy state others method signed_uri host now agree
