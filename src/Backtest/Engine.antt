-- ===== src/Backtest/Engine.antt =====
-- core/backtest/engine.py, `BacktestEngine`, with the records of core/backtest/protocols.py. The
-- strategy and the metrics are parameters, as they are injected there; so is `np.cumsum`. The kernel
-- of phase 2 is the Python oracle of core/backtest/reference_loop.py.
pub mod Causality
pub mod Runs
use compute_quant_lab.Prelude.{ℕ, zero, suc, ◌+◌, List, [], ◌∷◌, length, map}
use compute_quant_lab.Prelude.Float.{Float}
use compute_quant_lab.Prelude.Int.{pos}
use compute_quant_lab.Prelude.Result.{Result, ok, err, ◌>>=◌}
use compute_quant_lab.Backtest.Guards
use compute_quant_lab.Backtest.Guards.{PointInTimeView, GuardedView, view}
use compute_quant_lab.Backtest.Loop.{accumulate}

-- A strategy is an object with a state `S`, which a call of `signal` may change.
abbrev pub Strategy : Type 0 → Type 0 → Type 0
Strategy S F = S → PointInTimeView F → Result (F × S)

pub record Ledger (F : Type 0) : Type 0 where
  pub returns : List F
  pub pnl : List F
  pub equity_curve : List F
  pub positions : List F
  pub n_trades : ℕ

pub record BacktestResult (F M P : Type 0) : Type 0 where
  pub ledger : Ledger F
  pub metrics : M
  pub params : P

pub record BacktestEngine (F M : Type 0) : Type 0 where
  pub fees_bps : F
  pub slippage_bps : F
  pub capital : F
  pub compute_metrics : Ledger F → M

module _ {S F : Type 0} where
  -- The rounds of phase 1 from `t` on, `left` in number.
  unfoldable pub positions_from : List F → Strategy S F → ℕ → ℕ → S → Result (List F × S)
  positions_from prices strategy t zero s = ok ([], s)
  positions_from prices strategy t (suc left) s = do
    guarded ← Guards.make prices (pos t)
    (position, s') ← strategy s (view guarded)
    (positions, s'') ← positions_from prices strategy (t + 1) left s'
    ok (position ∷ positions, s'')

  unfoldable pub generate_positions : List F → Strategy S F → S → Result (List F × S)
  unfolding positions_from
  generate_positions prices strategy = positions_from prices strategy 0 (length prices)

module _ {S F M P : Type 0} ⦃float : Float F⦄ (cumsum : List F → List F) where
  open float use {add, mul}

  -- The result, and the state that the strategy is left in.
  unfoldable pub run :
      BacktestEngine F M → List F → Strategy S F → P → S → Result (BacktestResult F M P × S)
  unfolding generate_positions
  run engine prices strategy params s = do
    (positions, s') ← generate_positions prices strategy s
    (returns, n_trades) ← accumulate positions prices engine.fees_bps engine.slippage_bps
    let pnl = map (λ r. mul r engine.capital) returns
    let ledger : Ledger F = record {
      returns = returns;
      pnl = pnl;
      equity_curve = map (add engine.capital) (cumsum pnl);
      positions = positions;
      n_trades = n_trades;
    }
    ok (record { ledger = ledger; metrics = engine.compute_metrics ledger; params = params }, s')
