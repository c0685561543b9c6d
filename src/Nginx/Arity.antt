-- ===== src/Nginx/Arity.antt =====
-- The number of a directive's arguments, which NGINX checks by the flags of `COMMANDS` before it
-- calls the handler, against the handlers' indexing.
use sigv4_verify.Base.{
  ◌≡◌, ◌≢◌, refl, Bool, true, false, false≢true, not, Option, some, List, [], ◌∷◌, Bytes, Result,
  ok, err, ◌>>=◌, arith, Bool-cases, inl, inr,
}
use sigv4_verify.Verifier.{Duration}
use sigv4_verify.Config.{DirectiveError, parse_mode, parse_duration, parse_on_off, parse_directive}
use sigv4_verify.Nginx.Conf.{
  MainConf, LocConf, Body, ConfFailure, conf_error, is_duplicate, panicked, panic_message,
  method_not_supported, same_access_key, guard_conf,
}
use sigv4_verify.Nginx.Directives.{
  Command, mode, clock_skew, default_max_expires, methods, log_denies, log_all, credential,
  takes_one, all_utf8, directive_args, first_arg, report, stop_if, is_set, is_unset, set_mode,
  set_main_duration, set_clock_skew, set_default_max_expires, is_empty_list, check_methods,
  set_methods, set_main_flag, set_log_denies, set_log_all, has_access_key, set_credential,
  call_command,
}

-- What NGINX accepts: one argument after the name, or one and more.
abbrev pub accepts_args : Command → List Bytes → Bool
accepts_args command [] = false
accepts_args command (name ∷ []) = false
accepts_args command (name ∷ arg ∷ []) = true
accepts_args command (name ∷ arg ∷ arg' ∷ args) = not (takes_one command)

-- A failure that is not that of a panic.
abbrev pub IsReported : ConfFailure → Type 0
IsReported e = (e ≢ panicked) × (e ≢ conf_error panic_message)

abbrev Fails : {A : Type 0} → Body A → Type 0
Fails (ok a) = Unit
Fails (err e) = IsReported e

Fails-then :
    {A B : Type 0} (m : Body A) (f : A → Body B)
    → Fails m
    → ((a : A) → m ≡ ok a → Fails (f a))
    → Fails (m >>= f)
Fails-then (ok a) f h k = k a refl
Fails-then (err e) f h k = h

Fails-guard : {A : Type 0} (m : Body A) → Fails m → Fails (guard_conf m)
unfolding guard_conf
Fails-guard (ok a) h = tt
Fails-guard (err is_duplicate) h = h
Fails-guard (err (conf_error m)) h = h
Fails-guard (err panicked) h = absurd (h.0 refl)

Fails-stop_if : (stop : Bool) (e : ConfFailure) → IsReported e → Fails (stop_if stop e)
Fails-stop_if true e h = h
Fails-stop_if false e h = tt

duplicate_lem : IsReported is_duplicate
duplicate_lem = ((λ h. ground arith), (λ h. ground arith))

Fails-report : {A : Type 0} (r : Result DirectiveError A) → Fails (report r)
Fails-report (ok a) = tt
Fails-report (err e) = ((λ h. ground arith), (λ h. ground arith))

Fails-directive_args : (name : Bytes) (args : List Bytes) → Fails (directive_args (name ∷ args))
unfolding directive_args
Fails-directive_args name args = elim (Bool-cases (all_utf8 args)) [
  | inl good ↦ rw (directive_args, good) tt
  | inr bad ↦ rw (directive_args, bad) ((λ h. ground arith), (λ h. ground arith))
]

directive_args-same :
    (name : Bytes) (args : List Bytes) {found : List Bytes}
    → directive_args (name ∷ args) ≡ ok found
    → found ≡ args
unfolding directive_args
directive_args-same name args h = ground arith

-- The first argument is there.
Fails-first_arg :
    (name arg : Bytes) (args : List Bytes) {found : List Bytes}
    → directive_args (name ∷ arg ∷ args) ≡ ok found
    → Fails (first_arg found)
Fails-first_arg name arg args h = rw (directive_args-same name (arg ∷ args) h) tt

module _ (name arg : Bytes) (args : List Bytes) where
  abbrev cf_args : List Bytes
  cf_args = name ∷ arg ∷ args

  set_mode-Fails : (loc : LocConf) (main : Option MainConf) → Fails (set_mode cf_args loc main)
  unfolding set_mode
  set_mode-Fails loc main = Fails-guard _ (
      Fails-then (stop_if (not (is_unset loc.mode)) is_duplicate) _
        (Fails-stop_if _ _ duplicate_lem)
        (λ u _.
          Fails-then (directive_args cf_args) _ (Fails-directive_args name (arg ∷ args)) (λ found h.
            Fails-then (first_arg found) _ (Fails-first_arg name arg args h) (λ a _.
              Fails-then (report (parse_mode a)) _ (Fails-report (parse_mode a)) (λ m _. tt)))))

  set_main_duration-Fails : (slot : Option Duration) → Fails (set_main_duration cf_args slot)
  unfolding set_main_duration
  set_main_duration-Fails slot = Fails-guard _ (
      Fails-then (stop_if (is_set slot) is_duplicate) _ (Fails-stop_if _ _ duplicate_lem) (λ u _.
        Fails-then (directive_args cf_args) _ (Fails-directive_args name (arg ∷ args)) (λ found h.
          Fails-then (first_arg found) _ (Fails-first_arg name arg args h) (λ a _.
            Fails-then (report (parse_duration a)) _ (Fails-report (parse_duration a))
              (λ m _. tt)))))

  set_main_flag-Fails : (slot : Option Bool) → Fails (set_main_flag cf_args slot)
  unfolding set_main_flag
  set_main_flag-Fails slot = Fails-guard _ (
      Fails-then (stop_if (is_set slot) is_duplicate) _ (Fails-stop_if _ _ duplicate_lem) (λ u _.
        Fails-then (directive_args cf_args) _ (Fails-directive_args name (arg ∷ args)) (λ found h.
          Fails-then (first_arg found) _ (Fails-first_arg name arg args h) (λ a _.
            Fails-then (report (parse_on_off a)) _ (Fails-report (parse_on_off a)) (λ m _. tt)))))

  check_methods-Fails : (ms : List Bytes) → Fails (check_methods ms)
  unfolding check_methods
  check_methods-Fails [] = tt
  check_methods-Fails (m ∷ ms) =
      Fails-then (stop_if _ (conf_error (method_not_supported m))) _
        (Fails-stop_if _ (conf_error (method_not_supported m))
          ((λ h. ground arith), (λ h. ground arith)))
        (λ u _. check_methods-Fails ms)

  set_methods-Fails : (main : MainConf) → Fails (set_methods cf_args main)
  unfolding set_methods
  set_methods-Fails main = Fails-guard _ (
      Fails-then (stop_if (not (is_empty_list main.supported_methods)) is_duplicate) _
        (Fails-stop_if _ _ duplicate_lem)
        (λ u _.
          Fails-then (directive_args cf_args) _ (Fails-directive_args name (arg ∷ args)) (λ found h.
            Fails-then (check_methods found) _ (check_methods-Fails found) (λ u' _. tt))))

  set_credential-Fails : (main : MainConf) → Fails (set_credential cf_args main)
  unfolding set_credential
  set_credential-Fails main = Fails-guard _ (
      Fails-then (directive_args cf_args) _ (Fails-directive_args name (arg ∷ args)) (λ found h.
        Fails-then (report (parse_directive found)) _ (Fails-report (parse_directive found)) (λ d _.
          Fails-then
            (stop_if (has_access_key d.access_key main.credentials)
              (conf_error (same_access_key d.access_key)))
            _
            (Fails-stop_if _ (conf_error (same_access_key d.access_key))
              ((λ h. ground arith), (λ h. ground arith)))
            (λ u _. tt))))

  call_command-Fails :
      (command : Command) (loc : LocConf) (main : MainConf)
      → Fails (call_command command cf_args loc main)
  unfolding call_command set_clock_skew set_default_max_expires set_log_denies set_log_all
  call_command-Fails mode loc main = set_mode-Fails loc (some main)
  call_command-Fails clock_skew loc main =
      Fails-then _ _ (Fails-then _ _ (set_main_duration-Fails main.clock_skew) (λ a _. tt))
        (λ m _. tt)
  call_command-Fails default_max_expires loc main =
      Fails-then _ _ (Fails-then _ _ (set_main_duration-Fails main.default_max_expires) (λ a _. tt))
        (λ m _. tt)
  call_command-Fails methods loc main = Fails-then _ _ (set_methods-Fails main) (λ m _. tt)
  call_command-Fails log_denies loc main =
      Fails-then _ _ (Fails-then _ _ (set_main_flag-Fails main.log_denies) (λ a _. tt)) (λ m _. tt)
  call_command-Fails log_all loc main =
      Fails-then _ _ (Fails-then _ _ (set_main_flag-Fails main.log_all) (λ a _. tt)) (λ m _. tt)
  call_command-Fails credential loc main = Fails-then _ _ (set_credential-Fails main) (λ m _. tt)

Fails-err : {A : Type 0} (m : Body A) {e : ConfFailure} → Fails m → m ≡ err e → IsReported e
Fails-err m h q = rw q at h

-- If a directive has as many arguments as its entry of COMMANDS takes and its handler fails, the
-- handler has not panicked: the failure is a duplicate or has a message other than that for a
-- panic.
pub call_command-IsReported :
    (command : Command) (cf_args : List Bytes) (loc : LocConf) (main : MainConf) {e : ConfFailure}
    → accepts_args command cf_args ≡ true
    → call_command command cf_args loc main ≡ err e
    → IsReported e
call_command-IsReported command [] loc main h q = absurd (false≢true h)
call_command-IsReported command (name ∷ []) loc main h q = absurd (false≢true h)
call_command-IsReported command (name ∷ arg ∷ args) loc main h q =
    Fails-err (call_command command (name ∷ arg ∷ args) loc main)
      (call_command-Fails name arg args command loc main) q
