-- ===== src/Backtest/Metrics.antt =====
-- core/backtest/metrics.py, and the cost model of core/backtest/costs.py. The sums, means, deviations
-- and running maxima of numpy arrays are parameters. A NaN is `none`.
use compute_quant_lab.Prelude.{Option, none, some, List, [], ◌∷◌, length, map, keep, if◌then◌else◌}
use compute_quant_lab.Prelude.Float.{Float, nought, unit, abs, lt, feq}
use compute_quant_lab.Prelude.Result.{
  Result, ok, err, ◌>>=◌, ◌>>◌, raise_if, value_error, zero_division_error,
}
use compute_quant_lab.Backtest.Loop.{bps}
use compute_quant_lab.Backtest.Engine.{Ledger}

pub record Arrays (F : Type 0) : Type 0 where
  pub sum : List F → F
  pub mean : List F → F
  -- `std(ddof=1)`, which is NaN for fewer than two entries
  pub std : List F → Option F
  pub cumsum : List F → List F
  -- `np.maximum.accumulate`
  pub running_max : List F → List F

pub record Trade (F : Type 0) : Type 0 where
  pub delta_position : F
  pub price : F

pub record Metrics (F : Type 0) : Type 0 where
  pub pnl_total : F
  pub sharpe : Option F
  pub max_drawdown : F
  pub turnover : F
  pub hit_ratio : F

module _ {F : Type 0} ⦃float : Float F⦄ where
  open float use {add, sub, mul, div, of_nat, sqrt}

  -- `LinearCostModel(fees_bps, slippage_bps).cost`
  unfoldable pub linear_cost : F → F → Trade F → F
  linear_cost fees_bps slippage_bps trade =
      div (mul (abs (mul trade.delta_position trade.price)) (add fees_bps slippage_bps)) bps

  -- `np.diff(xs, prepend=prev)`
  abbrev pub diff : F → List F → List F
  diff prev [] = []
  diff prev (x ∷ xs) = sub x prev ∷ diff x xs

  -- `equity_curve / peak - 1.0`
  abbrev pub drawdowns : List F → List F → List F
  drawdowns [] peaks = []
  drawdowns (e ∷ es) [] = []
  drawdowns (e ∷ es) (p ∷ ps) = sub (div e p) unit ∷ drawdowns es ps

  -- `drawdown.min()`, which an empty array does not have
  abbrev pub least : List F → Result F
  least [] = err value_error
  least (x ∷ []) = ok x
  least (x ∷ y ∷ ys) = do m ← least (y ∷ ys); ok (if lt m x then m else x)

  unfoldable pub hit_ratio : List F → F
  hit_ratio [] = nought
  hit_ratio (r ∷ rs) =
      div (of_nat (length (keep (λ x. lt nought x) (r ∷ rs)))) (of_nat (length (r ∷ rs)))

module _ {F : Type 0} ⦃float : Float F⦄ (arrays : Arrays F) where
  open float use {sub, mul, div, sqrt}
  open arrays use {sum, mean, std, cumsum, running_max}

  unfoldable pub cumulative_pnl : List F → List F
  cumulative_pnl pnl = cumsum pnl

  -- The ratio, from the excess returns on.
  unfoldable pub annual : List F → F → F → Option F
  annual returns periods_per_year risk_free_rate =
      let excess = map (λ r. sub r (div risk_free_rate periods_per_year)) returns in
      elim (std excess) [
        | none ↦ none
        | some deviation ↦
            if feq deviation nought
            then some nought
            else some (mul (div (mean excess) deviation) (sqrt periods_per_year))
      ]

  -- The excess over the risk-free rate is a division by the periods of Python's own.
  unfoldable pub sharpe_ratio : List F → F → F → Result (Option F)
  sharpe_ratio returns periods_per_year risk_free_rate = do
    raise_if (feq periods_per_year nought) zero_division_error
    ok (annual returns periods_per_year risk_free_rate)

  unfoldable pub max_drawdown : List F → Result F
  max_drawdown equity_curve = least (drawdowns equity_curve (running_max equity_curve))

  unfoldable pub turnover : List F → F
  turnover positions = sum (map abs (diff nought positions))

  -- `DefaultMetrics(periods_per_year, risk_free_rate).compute`
  unfoldable pub compute : F → F → Ledger F → Result (Metrics F)
  compute periods_per_year risk_free_rate ledger = do
    sharpe ← sharpe_ratio ledger.returns periods_per_year risk_free_rate
    deepest ← max_drawdown ledger.equity_curve
    ok (record {
      pnl_total = sum ledger.pnl;
      sharpe = sharpe;
      max_drawdown = deepest;
      turnover = turnover ledger.positions;
      hit_ratio = hit_ratio ledger.returns;
    })
