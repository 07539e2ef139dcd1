-- ===== src/Cdn.antt =====
-- internal/cdn: the indices of the archives of a content delivery network.
pub mod ArchiveIndex
pub mod ArchiveSet
mod Tests
