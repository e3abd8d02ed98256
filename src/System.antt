-- ===== src/System.antt =====
-- The process list and the snapshot, src/system.rs.
mod Defs
mod Processes
mod Snapshot
pub mod Stat
pub mod Tasks
pub mod Memory
mod Tests
unfoldable pub use Defs.*
unfoldable pub use Snapshot.*
unfoldable pub use Processes.*
