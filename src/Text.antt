-- ===== src/Text.antt =====
-- The functions of Go's standard library on text that the table and configuration parsers call. Text
-- is a byte slice in UTF-8.
mod Spaces
mod Lines
pub mod Visible
unfoldable pub use Spaces.*
unfoldable pub use Lines.*
