-- ===== src/Connectors/Osv.antt =====
-- connectors/osv: the advisories of osv.dev.
pub mod Vectors
pub mod Cvss
pub mod Fixes
pub mod Parse
