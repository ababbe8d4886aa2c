-- ===== src/Models.antt =====
-- core/models: the purged cross-validation, and the labels.
pub mod PurgedKFold
pub mod OutOfSample
pub mod Pipeline
