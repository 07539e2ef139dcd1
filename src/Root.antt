-- ===== src/Root.antt =====
-- internal/root: the root files, which map the names of files to content keys.
pub mod Wow
pub mod Install
pub mod Text
mod Tests
