-- ===== src/Encoding.antt =====
-- internal/encoding: the ENCODING file, which maps a content key to encoded keys.
pub mod Reader
pub mod Writer
mod Tests
