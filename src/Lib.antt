-- ===== src/Lib.antt =====
-- sigv4-verify: an NGINX module that checks S3 presigned URLs (AWS Signature Version 4).
--
-- The program has three crates. rust/sigv4-verifier is the verifier: it splits the request URI,
-- validates and canonicalises the path and the query, parses the credential scope, derives the signing
-- key and compares signatures. rust/module-config parses the directives, and rust/nginx-module is the
-- glue to NGINX.
--
-- What is modelled, from rust/sigv4-verifier/src/lib.rs:
--   Hex       is_unreserved, is_hex, from_hex, upper_hex and the other byte helpers
--   Percent   percent_decode, query_component_needs_slow_path, canonicalize_query_component
--   Text      the slice and str methods in use: split, split_once, any, UTF-8 validation
--   Uri       split_original_uri, validate_raw_path, canonical_uri_from_valid_path
--   Query     SigV4Query, canonical_query, the sort of the parameters
--   Scope     parse_credential_scope
--   Date      parse_amz_date, days_from_civil
--   Signing   signing_key with its cache, hash_canonical_request, sign, decode_signature
--   Signing/Locks  threads that wait for the lock around one signing-key cache
--   Verifier  compile_state and its parts, new, reload, and verify with each of its parts
--   Verifier/History  sequences of verify and reload, and the specification without caches
--   Verifier/Shared   clones of a Verifier on several threads: the heap of states that they refer to,
--                     and verify as steps between which the signing-key cache's lock is free
--   Verifier/Window, Verifier/Isolation  verify at several times and against other credentials
--   Verifier/Binding  the texts that are hashed and signed, read back
-- From rust/module-config/src/lib.rs:
--   Config    Mode, parse_on_off, parse_duration, CredentialDirective with parse, validate and resolve
--   Config/UnitTests  the crate's own unit tests
-- From rust/nginx-module/src/lib.rs:
--   Nginx/Conf        MainConf, LocConf, guard_conf
--   Nginx/Directives  directive_args, the setters set_mode to set_credential, COMMANDS
--   Nginx/Init        init_main_conf
--   Nginx/Access      alloc_ctx, handle_request and the access handler around it
--   Nginx/Variables   bind_variable, the getters of VARIABLES, preconfiguration, postconfiguration
--   Nginx/Loading     the parsing of a configuration, a step relation over the setters
--   Nginx/Workers     a worker process, a step relation over handle_request
--   Nginx/Clients     a request whose client has presigned it
-- From rust/sigv4-verifier/fuzz/fuzz_targets, with the module internals of the verifier's lib.rs:
--   Internals, Fuzz   the wrappers, and the targets with what they assert
-- From rust/sigv4-verifier/tests/verifier.rs:
--   Presigner         presigned_uri and what it calls: the client's side, with its own canonical forms
-- The parameters:
--   Crypto    the parameter for ring and subtle: SHA-256, HMAC, constant-time comparison
-- Base holds the shared types and lemmas, Running the functions opened together for tests, and Tests
-- the tests and the theorems at concrete inputs.
--
-- Bytes are numbers, and a theorem that needs them below 256 says so. A str is the list of its UTF-8
-- bytes. An index loop is the recursion on the bytes from the index on, and a loop that pushes onto a
-- vector is the recursion that conses. The loop that shrinks the signing cache takes fuel, one more
-- than the length before the insertion, and each round removes an entry. to_string takes fuel for
-- twenty digits, as many as a number below 2^64 has.
-- In Verifier/Shared what runs under the cache's read lock and under its write lock are two atomic
-- steps, between which other threads may write. Signing/Locks goes inside these steps for one cache:
-- a thread waits for the lock, holds a guard and lets it go. Borrowing, allocation sizes and the
-- zeroing of secrets have no part in the model. The i32 arithmetic of days_from_civil wraps around, as
-- in a release build.
--
-- What NGINX supplies is an argument of the definitions of Nginx: the directive's arguments, the
-- configurations that a look-up finds, whether an allocation succeeds, the request's method, URI and
-- host, the clock. A directive handler returns the configuration that it leaves, or why it fails; NGINX
-- stops at the first failure. A verifier and its caches are part of the main configuration, so that
-- handle_request returns the verifier's state too. A panic is the value panicked in a directive, and
-- none in the access handler.
--
-- Reading a secret file is a parameter of Config too. An error message is a constructor with the text
-- that the message quotes.
--
-- Not modelled: the static tables of pointers that NGINX loads the module by; benches, examples and
-- the integration tests beside their presigner, which only drive the crates; a poisoned lock.
pub mod Base
pub mod Hex
pub mod Percent
pub mod Text
pub mod Uri
pub mod Query
pub mod Scope
pub mod Date
pub mod Crypto
pub mod Signing
pub mod Verifier
pub mod Config
pub mod Internals
pub mod Fuzz
pub mod Nginx
pub mod Presigner
pub mod Running
pub mod Tests
