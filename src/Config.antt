-- ===== src/Config.antt =====
-- The node's own variables, src/config.rs.
mod Defs
pub mod Numbers
mod Tests
unfoldable pub use Defs.*
