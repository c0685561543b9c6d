-- ===== src/Nginx/Enabling.antt =====
-- What the commands do to `enabled_anywhere` and to the mode of a location.
use sigv4_verify.Base.{
  ◌≡◌, ◌⊎◌, refl, inr, Bool, true, false, not, Option, none, some, List, Bytes, ok, err, ◌>>=◌,
  arith,
}
use sigv4_verify.Config.{Mode, verifies, parse_mode, parse_directive}
use sigv4_verify.Nginx.Conf.{
  MainConf, LocConf, Body, conf_error, is_duplicate, panicked, guard_conf,
}
use sigv4_verify.Nginx.Directives.{
  Command, mode, clock_skew, default_max_expires, methods, log_denies, log_all, credential,
  directive_args, first_arg, report, stop_if, is_unset, enable, set_mode, set_main_duration,
  set_clock_skew, set_default_max_expires, check_methods, set_methods, set_main_flag,
  set_log_denies, set_log_all, has_access_key, set_credential, call_command,
}

-- The result, if there is one, has the property.
abbrev pub Gives : {A : Type 0} → (A → Type 0) → Body A → Type 0
Gives P (ok a) = P a
Gives P (err e) = Unit

Gives-then :
    {A B : Type 0} (P : B → Type 0) (m : Body A) (f : A → Body B)
    → ((a : A) → Gives P (f a))
    → Gives P (m >>= f)
Gives-then P (ok a) f h = h a
Gives-then P (err e) f h = tt

Gives-guard : {A : Type 0} (P : A → Type 0) (m : Body A) → Gives P m → Gives P (guard_conf m)
unfolding guard_conf
Gives-guard P (ok a) h = h
Gives-guard P (err is_duplicate) h = tt
Gives-guard P (err (conf_error m)) h = tt
Gives-guard P (err panicked) h = tt

pub Gives-ok : {A : Type 0} (P : A → Type 0) (m : Body A) {a : A} → Gives P m → m ≡ ok a → P a
Gives-ok P m h e = rw e at h

abbrev pub enabled : Option MainConf → Bool
enabled none = false
enabled (some main) = main.enabled_anywhere

-- A command keeps `enabled_anywhere`, and sets it where it turns a location on.
abbrev pub KeepsEnabled : LocConf → MainConf → LocConf × Option MainConf → Type 0
KeepsEnabled loc main (loc', main') =
    (main.enabled_anywhere ≡ true → enabled main' ≡ true)
    × (verifies loc'.mode ≡ true → (enabled main' ≡ true) ⊎ (loc' ≡ loc))

enable-KeepsEnabled :
    (m : Mode) (loc : LocConf) (main : MainConf)
    → KeepsEnabled loc main (record { mode = m }, enable m (some main))
enable-KeepsEnabled m loc main = ground arith

set_mode-KeepsEnabled :
    (cf_args : List Bytes) (loc : LocConf) (main : MainConf)
    → Gives (KeepsEnabled loc main) (set_mode cf_args loc (some main))
unfolding set_mode
set_mode-KeepsEnabled cf_args loc main =
    let P = KeepsEnabled loc main in
    Gives-guard P _ (
      Gives-then P (stop_if (not (is_unset loc.mode)) is_duplicate) _ (λ u.
        Gives-then P (directive_args cf_args) _ (λ args.
          Gives-then P (first_arg args) _ (λ arg.
            Gives-then P (report (parse_mode arg)) _ (λ m. enable-KeepsEnabled m loc main)))))

-- The other commands touch neither.
abbrev SameEnabled : MainConf → MainConf → Type 0
SameEnabled main main' = main'.enabled_anywhere ≡ main.enabled_anywhere

call_main :
    (loc : LocConf) (main : MainConf) (m : Body MainConf)
    → Gives (SameEnabled main) m
    → Gives (KeepsEnabled loc main) (m >>= λ main'. ok (loc, some main'))
call_main loc main (ok main') h = (λ e. rw h e, λ e. inr refl)
call_main loc main (err e) h = tt

set_slot :
    {A : Type 0} (main : MainConf) (m : Body A) (f : A → MainConf)
    → ((a : A) → SameEnabled main (f a))
    → Gives (SameEnabled main) (m >>= λ a. ok (f a))
set_slot main m f h = Gives-then (SameEnabled main) m _ h

set_methods-SameEnabled :
    (cf_args : List Bytes) (main : MainConf) → Gives (SameEnabled main) (set_methods cf_args main)
unfolding set_methods
set_methods-SameEnabled cf_args main =
    let P = SameEnabled main in
    Gives-guard P _ (
      Gives-then P (stop_if _ is_duplicate) _ (λ u.
        Gives-then P (directive_args cf_args) _
          (λ args. Gives-then P (check_methods args) _ (λ u'. refl))))

set_credential-SameEnabled :
    (cf_args : List Bytes) (main : MainConf)
    → Gives (SameEnabled main) (set_credential cf_args main)
unfolding set_credential
set_credential-SameEnabled cf_args main =
    let P = SameEnabled main in
    Gives-guard P _ (
      Gives-then P (directive_args cf_args) _ (λ args.
        Gives-then P (report (parse_directive args)) _ (λ d.
          Gives-then P (stop_if (has_access_key d.access_key main.credentials) _) _ (λ u. refl))))

pub call_command-KeepsEnabled :
    (c : Command) (cf_args : List Bytes) (loc : LocConf) (main : MainConf)
    → Gives (KeepsEnabled loc main) (call_command c cf_args loc main)
unfolding call_command set_clock_skew set_default_max_expires set_log_denies set_log_all
call_command-KeepsEnabled mode cf_args loc main = set_mode-KeepsEnabled cf_args loc main
call_command-KeepsEnabled clock_skew cf_args loc main =
    call_main loc main _ (set_slot main (set_main_duration cf_args main.clock_skew) _ (λ a. refl))
call_command-KeepsEnabled default_max_expires cf_args loc main =
    call_main loc main _
      (set_slot main (set_main_duration cf_args main.default_max_expires) _ (λ a. refl))
call_command-KeepsEnabled methods cf_args loc main =
    call_main loc main (set_methods cf_args main) (set_methods-SameEnabled cf_args main)
call_command-KeepsEnabled log_denies cf_args loc main =
    call_main loc main _ (set_slot main (set_main_flag cf_args main.log_denies) _ (λ a. refl))
call_command-KeepsEnabled log_all cf_args loc main =
    call_main loc main _ (set_slot main (set_main_flag cf_args main.log_all) _ (λ a. refl))
call_command-KeepsEnabled credential cf_args loc main =
    call_main loc main (set_credential cf_args main) (set_credential-SameEnabled cf_args main)
