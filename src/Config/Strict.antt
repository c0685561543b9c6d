-- ===== src/Config/Strict.antt =====
-- A parsed directive states its policies, and no list of them is lost on the way to the verifier.
use sigv4_verify.Base.{
  ◌≡◌, refl, Bool, true, false, ◌||◌, Option, none, some, List, [], ◌∷◌, All, All-append, Bytes,
  codes, if◌then◌else◌, bytes_eq, ok, err, ◌>>=◌, ◌>>◌, arith, Result-cases, Bool-cases, inl, inr,
}
use sigv4_verify.Text.{split_once}
use sigv4_verify.Text.Trim.{trim}
use sigv4_verify.Config.Defs.{
  DirectiveError, unknown_flag, empty_value, parse_on_off, parse_duration,
}
use sigv4_verify.Config.Directive.{
  CredentialDirective, Parsed, default_directive, refuse, is_some, is_nil, out_of_range, set_secret,
  push_policy, set_argument, parse_argument, parse_arguments, validate, parse_directive,
}

-- More than white space.
abbrev pub IsPresent : Bytes → Type 0
IsPresent value = is_nil (trim value) ≡ false

-- No policy list has a blank entry.
pub record IsFilled (d : CredentialDirective) : Type 0 where
  pub hosts : All IsPresent d.allowed_hosts
  pub methods : All IsPresent d.allowed_methods
  pub prefixes : All IsPresent d.allowed_prefixes

-- Every policy is a list, or the explicit flag.
pub record IsStrict (d : CredentialDirective) : Type 0 where
  pub secret_lem : is_some d.secret ≡ true
  pub hosts_lem : d.allow_any_host ≡ is_nil d.allowed_hosts
  pub prefixes_lem : d.allow_any_prefix ≡ is_nil d.allowed_prefixes
  pub methods_lem : d.allow_default_methods ≡ is_nil d.allowed_methods
  pub expires_lem : out_of_range d.max_expires ≡ false

validate-IsStrict : (d : CredentialDirective) → validate d ≡ ok tt → IsStrict d
unfolding validate
validate-IsStrict d h = ground arith

push_policy-IsFilled :
    (key value : Bytes) (d : CredentialDirective)
    → IsPresent value
    → IsFilled d
    → IsFilled (push_policy key value d)
unfolding push_policy
push_policy-IsFilled key value d v h = elim (Bool-cases (bytes_eq key (codes "allowed_host"))) [
  | inl host ↦ rw host (record {
    hosts = All-append IsPresent d.allowed_hosts (value ∷ []) h.hosts (v, tt);
    methods = h.methods;
    prefixes = h.prefixes;
  })
  | inr other ↦ elim (Bool-cases (bytes_eq key (codes "allowed_method"))) [
    | inl method ↦
        rw (other, method)
          (record {
            hosts = h.hosts;
            methods = All-append IsPresent d.allowed_methods (value ∷ []) h.methods (v, tt);
            prefixes = h.prefixes;
          })
    | inr prefix ↦
        rw (other, prefix)
          (record {
            hosts = h.hosts;
            methods = h.methods;
            prefixes = All-append IsPresent d.allowed_prefixes (value ∷ []) h.prefixes (v, tt);
          })
  ]
]

-- What a step of the parse returns has no blank entry either.
abbrev Keeps : Parsed CredentialDirective → Type 0
Keeps (ok d) = IsFilled d
Keeps (err e) = Unit

Keeps-if :
    (b : Bool) (x y : Parsed CredentialDirective) → Keeps x → Keeps y → Keeps (if b then x else y)
Keeps-if true x y hx hy = hx
Keeps-if false x y hx hy = hy

Keeps-refuse :
    (b : Bool) (e : DirectiveError) (m : Parsed CredentialDirective)
    → (b ≡ false → Keeps m)
    → Keeps (refuse b e >> m)
Keeps-refuse true e m h = tt
Keeps-refuse false e m h = h refl

Keeps-then :
    {A : Type 0} (m : Parsed A) (f : A → Parsed CredentialDirective)
    → ((a : A) → Keeps (f a))
    → Keeps (m >>= f)
Keeps-then (ok a) f h = h a
Keeps-then (err e) f h = tt

-- The same record but for fields that the lists do not depend on.
same_lists :
    (d d' : CredentialDirective)
    → d'.allowed_hosts ≡ d.allowed_hosts
    → d'.allowed_methods ≡ d.allowed_methods
    → d'.allowed_prefixes ≡ d.allowed_prefixes
    → IsFilled d
    → IsFilled d'
same_lists d d' a b c h = record {
  hosts = rw a h.hosts;
  methods = rw b h.methods;
  prefixes = rw c h.prefixes;
}

set_argument-IsFilled :
    (key value : Bytes) (d : CredentialDirective) → IsFilled d → Keeps (set_argument key value d)
unfolding set_argument set_secret
set_argument-IsFilled key value d h =
    Keeps-if (bytes_eq key (codes "secret_key_file")) _ _
      (Keeps-refuse (is_some d.secret) _ _ (λ q. same_lists d _ refl refl refl h))
      (Keeps-if (bytes_eq key (codes "secret_key")) _ _
        (Keeps-refuse (is_some d.secret) _ _ (λ q. same_lists d _ refl refl refl h))
        (Keeps-if (bytes_eq key (codes "enabled")) _ _
          (Keeps-refuse (is_some d.enabled) _ _
            (λ q. Keeps-then (parse_on_off value) _ (λ e. same_lists d _ refl refl refl h)))
          (Keeps-if (bytes_eq key (codes "max_expires")) _ _
            (Keeps-refuse (is_some d.max_expires) _ _
              (λ q. Keeps-then (parse_duration value) _ (λ e. same_lists d _ refl refl refl h)))
            (Keeps-if
              (bytes_eq key (codes "allowed_host")
                || bytes_eq key (codes "allowed_method")
                || bytes_eq key (codes "allowed_prefix"))
              _ _
              (Keeps-refuse (is_nil (trim value)) _ _ (λ q. push_policy-IsFilled key value d q h))
              tt))))

parse_argument-IsFilled :
    (arg : Bytes) (d : CredentialDirective) → IsFilled d → Keeps (parse_argument arg d)
unfolding parse_argument
parse_argument-IsFilled arg d h =
    Keeps-if (bytes_eq arg (codes "allow_any_host")) _ _ (same_lists d _ refl refl refl h) (
      Keeps-if (bytes_eq arg (codes "allow_any_prefix")) _ _ (same_lists d _ refl refl refl h) (
        Keeps-if (bytes_eq arg (codes "allow_default_methods")) _ _
          (same_lists d _ refl refl refl h) (key_value (split_once b'=' arg))))
  where
    key_value :
        (o : Option (Bytes × Bytes))
        → Keeps (elim o [
          | none ↦ err (unknown_flag arg)
          | some p ↦ refuse (is_nil p.1) (empty_value p.0) >> set_argument p.0 p.1 d
        ])
    key_value none = tt
    key_value (some p) = Keeps-refuse (is_nil p.1) _ _ (λ q. set_argument-IsFilled p.0 p.1 d h)

parse_arguments-IsFilled :
    (args : List Bytes) (d : CredentialDirective) {d' : CredentialDirective}
    → parse_arguments args d ≡ ok d'
    → IsFilled d
    → IsFilled d'
unfolding parse_arguments
parse_arguments-IsFilled [] d {d'} h f = let q : d ≡ d' = cc in rw (← q) f
parse_arguments-IsFilled (arg ∷ rest) d {d'} h f = elim (Result-cases (parse_argument arg d)) [
  | inr (e, bad) ↦ let absurd : err e ≡ ok d' = rw bad at h in ground arith
  | inl (d1, good) ↦
      parse_arguments-IsFilled rest d1 (rw good at h) (rw good at (parse_argument-IsFilled arg d f))
]

-- A parsed directive has a secret, states each of its three policies by a non-empty list or by the
-- explicit flag and not by both, has an expiry limit within range or none, and no entry of its
-- lists is blank.
pub parse_directive-IsStrict :
    (args : List Bytes) {d : CredentialDirective}
    → parse_directive args ≡ ok d
    → IsStrict d × IsFilled d
unfolding parse_directive
parse_directive-IsStrict [] h = ground arith
parse_directive-IsStrict (first ∷ rest) {d} h =
    let named = record default_directive { access_key = trim first } in
    elim (Result-cases (parse_arguments rest named)) [
      | inr (e, bad) ↦ ground arith
      | inl (d1, good) ↦ elim (Result-cases (validate d1)) [
        | inr (e, bad) ↦ ground arith
        | inl (u, valid) ↦
            let same : d1 ≡ d = ground arith in
            rw (← same) (
              validate-IsStrict d1 valid,
              parse_arguments-IsFilled rest named good
                  (record { hosts = tt; methods = tt; prefixes = tt }),
            )
      ]
    ]
