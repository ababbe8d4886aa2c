-- ===== src/Storage.antt =====
-- core/storage: the cold stores.
pub mod Lake
pub mod Frame
pub mod Append
pub mod Schema
pub mod PriceStore
pub mod Converters
pub mod EnergyStore
