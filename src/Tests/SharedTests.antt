-- ===== src/Tests/SharedTests.antt =====
-- Two threads with one verifier: both miss the cache, both fill it, and the verifier is reloaded in
-- between.
use sigv4_verify.Base.{◌≡◌, refl, true, none, ok, []}
use sigv4_verify.Running.{running}
use sigv4_verify.Tests.SigningTests.{toy}
use sigv4_verify.Verifier.{Checked, VerifyResult, State, default_settings, compile_state, verify}
use sigv4_verify.Verifier.Stateless.{stateless}
use sigv4_verify.Verifier.Shared.{
  Arrival, check_arrival, look, fill, finish, System, checked, miss, filled, finished, reloaded,
  cloned, Reach, start, later,
}
use sigv4_verify.Verifier.Shared.Answers.{Reach-answers}
use sigv4_verify.Tests.VerifierTests.{state, method, signed_uri, host, now, configured}

abbrev arrival : Arrival
arrival = record { raw_method = method; raw_uri = signed_uri; raw_host = host; now = now }

abbrev passed : (c : Checked) × (check_arrival toy state arrival ≡ ok c)
unfolding running
passed = (_, refl)

abbrev c : Checked
c = passed.0

missing : look toy state c ≡ none
unfolding running
missing = refl

-- What thread 1 leaves, and what thread 0 answers after it.
abbrev filled_state : State
filled_state = (fill toy state c).1

abbrev result : VerifyResult
result = finish toy c (fill toy filled_state c).0

-- Threads 0 and 1 call verifiers 0 and 1, which share a state.
abbrev begun : (s : System) × Reach toy state s
begun = (
  _,
  later
      (later
        (later
          (later (later (later start (cloned 0 1)) (checked 0 0 arrival c refl passed.1))
            (checked 1 1 arrival c refl passed.1))
          (miss 0 arrival (stateless state) 0 c refl missing))
        (miss 1 arrival (stateless state) 0 c refl missing))
      (filled 1 arrival (stateless state) 0 c refl),
)

abbrev closed : (s : State) × (compile_state toy default_settings [] ≡ ok s)
unfolding running
closed = (_, refl)

-- Verifier 0 gets a state without credentials before thread 0 fills the cache of the old one.
abbrev raced : (s : System) × Reach toy state s
raced = (
  _,
  later
      (later (later begun.1 (reloaded 0 default_settings [] closed.0 closed.1))
        (filled 0 arrival (stateless state) 0 c refl))
      (finished 0 arrival (stateless state) c _ refl),
)

allowed : result.allowed ≡ true
unfolding running
allowed = refl

Reach-answers_example : result ≡ (verify toy (stateless state) method signed_uri host now).0
Reach-answers_example =
    Reach-answers toy 0 arrival (stateless state) result configured.1 raced.1 refl
