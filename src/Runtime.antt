-- ===== src/Runtime.antt =====
-- The program layer, src/runtime: credentials, where they are kept, and the dial loop.
pub mod Credentials
pub mod Config
pub mod Runner
pub mod Slug
pub mod Credential
pub mod Store
