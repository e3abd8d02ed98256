-- ===== src/Gate.antt =====
-- The path gate, src/gate.rs. `std::fs::canonicalize` is the parameter `canonicalize`: what the file
-- system answers while one call runs, `none` standing for an error.
mod Defs
pub mod Join
pub mod Resolve
pub mod Check
mod Tests
unfoldable pub use Defs.*
