-- ===== src/Verifier/Shared.antt =====
-- `Verifier` and its clones on several threads. A verifier is a reference to a state, which its
-- clones share; `reload` gives one verifier a new state. Of a state, only the signing-key caches
-- change, each under its own lock: `signing_key` looks up under the read lock, and where that misses,
-- it runs under the write lock. What a thread does between two locks is one step. The waiting for
-- a lock is not part of it: Signing/Locks models that, for one cache.
pub mod Invariant
pub mod Answers
use sigv4_verify.Base.{
  ℕ, ◌+◌, ◌==◌, ◌≡◌, Bool, true, false, Option, none, some, [], Bytes, ok, err, if◌then◌else◌, List,
}
use sigv4_verify.Crypto.{Crypto}
use sigv4_verify.Uri.{canonical_uri_from_valid_path}
use sigv4_verify.Signing.{
  Cache, hmac_sha256, read_step, write_step, string_to_sign, hash_canonical_request,
  decode_signature,
}
use sigv4_verify.Verifier.Types.{SystemTime, Settings, Credential, State, VerifyResult, lookup}
use sigv4_verify.Verifier.Compile.{compile_state}
use sigv4_verify.Verifier.Defs.{reason_ok, reason_signature_mismatch, deny, Part}
use sigv4_verify.Verifier.Handler.{Checked, check_request, verdict, set_cache}
use sigv4_verify.Verifier.Stateless.{stateless}

-- The arguments of a call of `verify`.
pub record Arrival : Type 0 where
  pub raw_method : Bytes
  pub raw_uri : Bytes
  pub raw_host : Bytes
  pub now : SystemTime

-- The cache of the credential that a checked request names.
unfoldable pub cache_of : State → Bytes → Cache
cache_of state k = elim (lookup k state.credentials) [ none ↦ [] | some cred ↦ cred.signing_cache ]

module _ (crypto : Crypto) where
  abbrev pub check_arrival : State → Arrival → Part Checked
  check_arrival state a = check_request crypto state a.raw_method a.raw_uri a.raw_host a.now

  -- The look-up of `signing_key` under the read lock.
  unfoldable pub look : State → Checked → Option Bytes
  unfolding read_step cache_of
  look state c =
      read_step c.scope.date c.scope.region c.scope.service (cache_of state c.scope.access_key)

  -- The rest of `signing_key`, under the write lock.
  unfoldable pub fill : State → Checked → Bytes × State
  unfolding write_step cache_of set_cache
  fill state c =
      let (key, cache) =
        write_step crypto c.cred.secret_seed c.scope.date c.scope.region c.scope.service
          (cache_of state c.scope.access_key) in
      (key, record state { credentials = set_cache c.scope.access_key cache state.credentials })

  -- The rest of `verify`, once the signing key is there.
  unfoldable pub finish : Checked → Bytes → VerifyResult
  finish c key =
      let canonical_hash =
        hash_canonical_request crypto c.method (canonical_uri_from_valid_path c.uri.path)
          c.uri.canonical_query_string c.host in
      verdict crypto (decode_signature c.signature_hex)
        (hmac_sha256 crypto key (string_to_sign crypto c.amz_date c.scope.scope canonical_hash))
        (deny reason_signature_mismatch c.uri.path c.cred.access_key_hash)
        (record {
          allowed = true;
          reason = reason_ok;
          path = c.uri.path;
          access_key = some c.cred.access_key;
          access_key_hash = c.cred.access_key_hash;
        })

-- Where a thread stands. `state` is the reference that the verifier held when the call began; `conf`
-- is what was configured there then, which the code does not keep.
pub data Pc : Type 0 where
  idle : Pc
  looking missed : (a : Arrival) (conf : State) (state : ℕ) (c : Checked) → Pc
  keyed : (a : Arrival) (conf : State) (c : Checked) (key : Bytes) → Pc
  answered : (a : Arrival) (conf : State) (result : VerifyResult) → Pc

-- A family with one member replaced.
abbrev pub update {ℓ} : {A : Type ℓ} → (ℕ → A) → ℕ → A → ℕ → A
update f i a j = if i == j then a else f j

-- The states allocated so far are those below `next`.
pub record System : Type 0 where
  pub heap : ℕ → State
  pub next : ℕ
  pub verifiers : ℕ → ℕ
  pub threads : ℕ → Pc

abbrev pub goes : System → ℕ → Pc → System
goes s i pc = record s { threads = update s.threads i pc }

module _ (crypto : Crypto) where
  -- One step of thread `i`, or the owner of verifier `v` clones or reloads it.
  pub data Step (s : System) : System → Type 0 where
    denied :
        (i v : ℕ) (a : Arrival) (result : VerifyResult)
        → s.threads i ≡ idle
        → check_arrival crypto (s.heap (s.verifiers v)) a ≡ err result
        → Step s (goes s i (answered a (stateless (s.heap (s.verifiers v))) result))
    checked :
        (i v : ℕ) (a : Arrival) (c : Checked)
        → s.threads i ≡ idle
        → check_arrival crypto (s.heap (s.verifiers v)) a ≡ ok c
        → Step s (goes s i (looking a (stateless (s.heap (s.verifiers v))) (s.verifiers v) c))
    hit :
        (i : ℕ) (a : Arrival) (conf : State) (o : ℕ) (c : Checked) (key : Bytes)
        → s.threads i ≡ looking a conf o c
        → look crypto (s.heap o) c ≡ some key
        → Step s (goes s i (keyed a conf c key))
    miss :
        (i : ℕ) (a : Arrival) (conf : State) (o : ℕ) (c : Checked)
        → s.threads i ≡ looking a conf o c
        → look crypto (s.heap o) c ≡ none
        → Step s (goes s i (missed a conf o c))
    filled :
        (i : ℕ) (a : Arrival) (conf : State) (o : ℕ) (c : Checked)
        → s.threads i ≡ missed a conf o c
        → Step s (record s {
          heap = update s.heap o (fill crypto (s.heap o) c).1;
          threads = update s.threads i (keyed a conf c (fill crypto (s.heap o) c).0);
        })
    finished :
        (i : ℕ) (a : Arrival) (conf : State) (c : Checked) (key : Bytes)
        → s.threads i ≡ keyed a conf c key
        → Step s (goes s i (answered a conf (finish crypto c key)))
    taken :
        (i : ℕ) (a : Arrival) (conf : State) (result : VerifyResult)
        → s.threads i ≡ answered a conf result
        → Step s (goes s i idle)
    cloned : (v w : ℕ) → Step s (record s { verifiers = update s.verifiers w (s.verifiers v) })
    reloaded :
        (v : ℕ) (settings : Settings) (credentials : List Credential) (state : State)
        → compile_state crypto settings credentials ≡ ok state
        → Step s (record s {
          heap = update s.heap s.next state;
          next = s.next + 1;
          verifiers = update s.verifiers v s.next;
        })

  -- From one verifier, to which every name refers, and threads that have not called it yet.
  abbrev pub begin : State → System
  begin state = record { heap = λ o. state; next = 1; verifiers = λ v. 0; threads = λ i. idle }

  pub data Reach (state : State) : System → Type 0 where
    start : Reach state (begin state)
    later : {s t : System} → Reach state s → Step s t → Reach state t
