-- ===== src/Config/Secret.antt =====
-- `load_secret` and `resolve`. `fs::read` is a parameter: the bytes of the file, or `none`.
use sigv4_verify.Base.{
  ℕ, Bool, true, ◌||◌, Option, none, some, [], ◌∷◌, Bytes, ◌==◌, if◌then◌else◌, ok, err, ◌>>=◌,
  ◌>>◌,
}
use sigv4_verify.Text.Utf8.{is_utf8}
use sigv4_verify.Verifier.{Duration, from_secs, Credential}
use sigv4_verify.Config.Defs.{unreadable_secret, secret_not_utf8, empty_secret}
use sigv4_verify.Config.Directive.{
  SecretSource, file, literal, CredentialDirective, Parsed, refuse, is_nil,
}

-- A byte in front of what is left of the rest; a newline goes if nothing is left.
abbrev pub keep_byte : Bool → ℕ → Bytes → Bytes
keep_byte true b [] = []
keep_byte newline b rest = b ∷ rest

-- The loop that pops the newlines at the end.
unfoldable pub strip_newlines : Bytes → Bytes
strip_newlines [] = []
strip_newlines (b ∷ r) = keep_byte ((b == b'\n') || (b == b'\r')) b (strip_newlines r)

module _ (read_file : Bytes → Option Bytes) where
  unfoldable pub read_secret : CredentialDirective → SecretSource → Parsed Bytes
  unfolding strip_newlines
  read_secret directive (literal secret) = ok secret
  read_secret directive (file path) = elim (read_file path) [
    | none ↦ err (unreadable_secret directive.access_key)
    | some raw ↦
        let secret = strip_newlines raw in
        if is_utf8 secret then ok secret else err (secret_not_utf8 directive.access_key)
  ]

  -- The secret is there after `parse`; without one the source would panic.
  unfoldable pub load_secret : CredentialDirective → Parsed Bytes
  unfolding read_secret
  load_secret directive = do
    secret ← elim directive.secret [
      | none ↦ err (empty_secret directive.access_key)
      | some source ↦ read_secret directive source
    ]
    refuse (is_nil secret) (empty_secret directive.access_key)
    ok secret

  abbrev pub enabled_or_true : Option Bool → Bool
  enabled_or_true none = true
  enabled_or_true (some b) = b

  abbrev pub expires_or_zero : Option Duration → Duration
  expires_or_zero none = from_secs 0
  expires_or_zero (some d) = d

  unfoldable pub resolve : CredentialDirective → Parsed Credential
  unfolding load_secret
  resolve directive = do
    secret_key ← load_secret directive
    ok (record {
      access_key = directive.access_key;
      secret_key = secret_key;
      enabled = enabled_or_true directive.enabled;
      max_expires = expires_or_zero directive.max_expires;
      allowed_hosts = directive.allowed_hosts;
      allowed_methods = directive.allowed_methods;
      allowed_prefixes = directive.allowed_prefixes;
    })
