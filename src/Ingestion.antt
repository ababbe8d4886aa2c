-- ===== src/Ingestion.antt =====
-- core/ingestion: the compute leg, from raw offers to the spot index.
pub mod Protocols
pub mod Median
pub mod ComputeIndex
pub mod Estimators
pub mod Providers
pub mod Json
pub mod Venues
pub mod SnapshotStore
pub mod Energy
