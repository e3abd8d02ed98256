-- ===== src/Docker.antt =====
-- The state of the host's containers, src/docker.rs.
mod Cli
mod Defs
pub mod Rows
mod Tests
unfoldable pub use Cli.*
unfoldable pub use Defs.*
