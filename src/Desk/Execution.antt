-- ===== src/Desk/Execution.antt =====
-- projects/10_portfolio_execution/src/execution.py: the costs of the desk.
pub mod Parity
use compute_quant_lab.Prelude.{List, [], ◌∷◌, map, if◌then◌else◌}
use compute_quant_lab.Prelude.Float.{Float, nought, abs, lt}
use compute_quant_lab.Prelude.Result.{Result, ok, ◌>>=◌, ◌>>◌, raise_if, value_error}
use compute_quant_lab.Backtest.Loop.{bps}
use compute_quant_lab.Backtest.Metrics.{diff}
use compute_quant_lab.Desk.Portfolio.{elementwise}

pub record ExecutionModel (F : Type 0) : Type 0 where
  pub fees_bps : F
  pub slippage_bps : F
  pub impact_kappa : F
  pub linear_rate : F

module _ {F : Type 0} ⦃float : Float F⦄ where
  open float use {add, sub, mul, div}

  abbrev pub smaller : F → F → F
  smaller x y = if lt y x then y else x

  -- `ExecutionModel.__init__`
  unfoldable pub make : F → F → F → Result (ExecutionModel F)
  make fees_bps slippage_bps impact_kappa = do
    raise_if (lt (smaller (smaller fees_bps slippage_bps) impact_kappa) nought) value_error
    ok (record {
      fees_bps = fees_bps;
      slippage_bps = slippage_bps;
      impact_kappa = impact_kappa;
      linear_rate = div (add fees_bps slippage_bps) bps;
    })

  unfoldable pub cost : ExecutionModel F → F → F
  cost self delta = add (mul self.linear_rate (abs delta)) (mul self.impact_kappa (mul delta delta))

  -- The net returns and the costs.
  unfoldable pub apply : ExecutionModel F → List F → List F → Result (List F × List F)
  unfolding cost
  apply self gross_returns positions = do
    let cost_series = map (cost self) (diff nought positions)
    net_returns ← elementwise sub gross_returns cost_series
    ok (net_returns, cost_series)
