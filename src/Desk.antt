-- ===== src/Desk.antt =====
-- projects/10_portfolio_execution/src: several signals, weighted into one position, under the engine.
pub mod Portfolio
pub mod Execution
pub mod Strategy
pub mod Mocks
pub mod Report
