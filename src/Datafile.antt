-- ===== src/Datafile.antt =====
-- internal/datafile: the BLTE container, its header, its frames and its writer.
pub mod Header
pub mod Frame
pub mod Encoder
pub mod Tests
