-- ===== src/Tests/UnitTests.antt =====
-- The unit tests of the directives pass.
use sigv4_verify.Running.{running}
use sigv4_verify.Base.{
  ◌≡◌, refl, true, false, ℕ, [], ◌∷◌, ◌++◌, ◌==◌, arith, codes, Bytes, bytes_eq,
}
use sigv4_verify.Config.{is_nil, resolve, load_secret, read_secret}
use sigv4_verify.Config.UnitTests.{
  parses_full_credential_directive, parses_explicit_allow_any_flags,
  rejects_blank_policy_list_values, rejects_omitted_policy_lists_without_explicit_flags,
  rejects_conflicting_policy_arguments, rejects_malformed_arguments,
  loads_secret_from_file_and_trims_trailing_newline, rejects_missing_and_empty_secret_files,
  parses_durations, parses_mode_and_merges,
}

parses_full_credential_directive_passes : parses_full_credential_directive ≡ true
unfolding running
parses_full_credential_directive_passes = refl

parses_explicit_allow_any_flags_passes : parses_explicit_allow_any_flags ≡ true
unfolding running
parses_explicit_allow_any_flags_passes = refl

rejects_blank_policy_list_values_passes : rejects_blank_policy_list_values ≡ true
unfolding running
rejects_blank_policy_list_values_passes = refl

rejects_omitted_policy_lists_without_explicit_flags_passes :
    rejects_omitted_policy_lists_without_explicit_flags ≡ true
unfolding running
rejects_omitted_policy_lists_without_explicit_flags_passes = refl

rejects_conflicting_policy_arguments_passes : rejects_conflicting_policy_arguments ≡ true
unfolding running
rejects_conflicting_policy_arguments_passes = refl

rejects_malformed_arguments_passes : rejects_malformed_arguments ≡ true
unfolding running
rejects_malformed_arguments_passes = refl

parses_durations_passes : parses_durations ≡ true
unfolding running
parses_durations_passes = refl

parses_mode_and_merges_passes : parses_mode_and_merges ≡ true
unfolding running
parses_mode_and_merges_passes = refl

appended : (xs : Bytes) (b : ℕ) (ys : Bytes) → is_nil (xs ++ b ∷ ys) ≡ false
appended [] b ys = refl
appended (x ∷ xs) b ys = refl

bytes_eq-append : (xs ys zs : Bytes) → bytes_eq (xs ++ ys) (xs ++ zs) ≡ bytes_eq ys zs
unfolding bytes_eq
bytes_eq-append [] ys zs = refl
bytes_eq-append (x ∷ xs) ys zs =
    let same : (x == x) ≡ true = ground arith in rw (same, bytes_eq-append xs ys zs) refl

loads_passes : (dir : Bytes) → loads_secret_from_file_and_trims_trailing_newline dir ≡ true
unfolding running
loads_passes dir = rw (appended dir b'/' (codes "secret")) (
    rw (resolve, load_secret, read_secret, bytes_eq-append dir (codes "/secret") (codes "/secret"))
      refl)

missing_passes : (dir : Bytes) → rejects_missing_and_empty_secret_files dir ≡ true
unfolding running
missing_passes dir =
    rw (appended dir b'/' (codes "empty"), appended dir b'/' (codes "absent"))
      (rw
        (
          resolve,
          load_secret,
          read_secret,
          bytes_eq-append dir (codes "/empty") (codes "/empty"),
          bytes_eq-append dir (codes "/absent") (codes "/empty"),
        )
        refl)
