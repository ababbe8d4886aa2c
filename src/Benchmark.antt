-- ===== src/Benchmark.antt =====
-- projects/13_compute_benchmark: what is published about the index and the venues behind it.
pub mod Dispersion
pub mod Series
pub mod Levels
