-- ===== src/Verifier/Binding.antt =====
-- What a signature binds: the text that `hash_canonical_request` and `string_to_sign` write for a
-- request, read back.
pub mod Lines
pub mod Texts
pub mod Collisions
