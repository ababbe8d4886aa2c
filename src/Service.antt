-- ===== src/Service.antt =====
-- projects/14_service: the product over the index, with one point where a source is injected.
pub mod Views
pub mod Recommendation
pub mod Alerts
