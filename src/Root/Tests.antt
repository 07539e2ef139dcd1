-- ===== src/Root/Tests.antt =====
-- Runs of the root files at concrete inputs.
mod Wow
mod Install
mod Text
