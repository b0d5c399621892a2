-- ===== src/Connectors.antt =====
-- The results of connectors and their cache.
pub mod Results
pub mod Entries
pub mod Cache
pub mod Osv
