-- ===== src/K8s.antt =====
-- The state of the cluster, src/k8s.rs.
mod Cli
mod Defs
pub mod Listed
pub mod Nodes
pub mod PodJson
pub mod Pods
mod Tests
pub mod Written
unfoldable pub use Cli.*
unfoldable pub use Defs.*
