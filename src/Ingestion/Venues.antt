-- ===== src/Ingestion/Venues.antt =====
-- core/ingestion/providers: the modules of the venues, one each, and the registry of them.
pub mod GpuModel
pub mod Offers
pub mod Vastai
pub mod Hyperstack
pub mod Registry
pub mod Primeintellect
pub mod Tensordock
pub mod Runpod
pub mod Cudo
pub mod Datacrunch
