-- ===== src/Heal.antt =====
-- The self-healing watcher, src/heal.rs. The probes' answers are arguments, and a report is the
-- incident that it is for.
mod Defs
pub mod Cluster
pub mod News
pub mod Reports
pub mod Slot
pub mod Keys
pub mod Report
mod ClusterTests
mod SlotTests
mod Tests
unfoldable pub use Defs.*
