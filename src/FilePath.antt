-- ===== src/FilePath.antt =====
-- `std::path` on Unix as far as the program uses it: a path is the list of its components, which is
-- what `==`, `starts_with`, `push` and `pop` go by. A text is read into components by `components`
-- and written by `display`. There are no Windows prefixes.
mod Defs
pub mod Clean
pub mod Display
unfoldable pub use Defs.*
