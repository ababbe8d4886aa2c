-- ===== src/Pricing.antt =====
-- core/pricing: the theoretical futures, and the spread between compute and energy.
pub mod Futures
pub mod SparkSpread
