-- ===== src/Runtime/Store.antt =====
-- The credential store, src/runtime/store.rs: the interface, the errors and the file backend.
-- `serde_json` is the pair `encode` and `decode`, a parameter.
mod Errors
pub mod Disk
pub mod Load
pub mod Save
pub mod Paths
pub mod FileStore
mod Tests
unfoldable pub use Errors.*
