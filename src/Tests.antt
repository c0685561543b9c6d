-- ===== src/Tests.antt =====
-- Tests, and the theorems at concrete inputs.
mod PercentTests
mod UriTests
mod QueryTests
mod ScopeTests
mod SigningTests
mod LocksTests
mod DateTests
mod VerifierTests
mod SharedTests
mod TimeTests
mod BindingTests
mod ConfigTests
mod UnitTests
mod PresignTests
mod PresignerTests
mod FuzzTests
mod NginxTests
mod NginxExamples
