-- ===== src/Backtest.antt =====
-- core/backtest: the look-ahead guard, the accumulation loop and the engine.
pub mod Metrics
pub mod Guards
pub mod Loop
pub mod Engine
