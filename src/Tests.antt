-- ===== src/Tests.antt =====
-- Runs at concrete inputs, and the theorems applied where their hypotheses hold.
pub mod Sections
pub mod Utils
pub mod Models
pub mod Features
pub mod Labels
pub mod Basis
pub mod Backtest
pub mod Signals
pub mod Ingestion
pub mod Providers
pub mod Venues
pub mod Benchmark
pub mod Service
pub mod Store
pub mod Storage
pub mod Spread
pub mod Desk
pub mod Ercot
pub mod Estimators
