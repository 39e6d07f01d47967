-- ===== src/Registry.antt =====
-- The package edgar.registry: the ledger of mapping assertions and the mirror of canonical metrics.
pub mod Interval
pub mod Metrics
pub mod Store
pub mod Mapping
pub mod Service
pub mod Sync
