-- ===== src/Index.antt =====
-- internal/index: the local .idx files, which map a trimmed EKey to a place in a data file.
pub mod Entry
pub mod Header
pub mod Reader
pub mod Writer
pub mod Tests
