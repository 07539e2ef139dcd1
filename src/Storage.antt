-- ===== src/Storage.antt =====
-- internal/storage: lookup.go, cache.go and the reads of cdn_archives.go. The network, the registry
-- of root handlers and the type of a handler are parameters. The mutex serialises the calls, which
-- are steps here.
pub mod Cache
pub mod Lookup
pub mod Merge
pub mod EndToEnd
pub mod Loading
pub mod Keeps
mod Tests
