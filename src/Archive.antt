-- ===== src/Archive.antt =====
-- internal/archive: the spans of the data.NNN files.
pub mod Span
pub mod SpanHeader
pub mod Writer
pub mod Tests
