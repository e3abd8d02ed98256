-- ===== src/Terminal.antt =====
-- `GatedTerminal`, src/terminal.rs: `exec`, which is this program's own, and the PTY calls, which go to a
-- layer below.
mod Defs
pub mod Capped
pub mod Exec
pub mod Gated
mod Tests
unfoldable pub use Defs.*
