-- ===== src/Enroll.antt =====
-- Enrollment, src/enroll.rs: which credential source a node uses, and the device grant. The
-- enrollment server of `zyris::enroll` is the list of its answers.
mod Defs
pub mod Renewals
pub mod Stored
pub mod FileStore
pub mod Origin
pub mod Forget
pub mod Gone
pub mod Forgotten
pub mod Holding
pub mod Source
pub mod Notice
mod Tests
unfoldable pub use Defs.*
