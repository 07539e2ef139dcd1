-- ===== src/Decrypt.antt =====
-- internal/decrypt: the keys and the ciphers of encrypted frames.
pub mod Salsa20
pub mod Registry
pub mod Frames
mod Tests
