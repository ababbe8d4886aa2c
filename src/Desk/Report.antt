-- ===== src/Desk/Report.antt =====
-- projects/10_portfolio_execution/src/run_desk.py: a run without costs, and what costs make of it. The
-- sum of the columns of an array, given their number, is a parameter.
pub mod Backtest
use Prim.Native.String.{String}
use text.Mathlib.Text.{◌==◌ as str_eq}
use compute_quant_lab.Prelude.{ℕ, ◌-◌, List, [], ◌∷◌, length, map, take, drop, if◌then◌else◌}
use compute_quant_lab.Prelude.Float.{Float, nought, unit}
use compute_quant_lab.Prelude.Int.{pos}
use compute_quant_lab.Prelude.Result.{Result, ok, err, ◌>>=◌, traverse}
use compute_quant_lab.Backtest.Engine.{Ledger, BacktestEngine, run}
use compute_quant_lab.Backtest.Metrics.{Arrays, Metrics, compute}
use compute_quant_lab.Desk.Portfolio.{Numpy, PortfolioConstructor}
use compute_quant_lab.Desk.Execution
use compute_quant_lab.Desk.Execution.{ExecutionModel, apply}
use compute_quant_lab.Desk.Strategy
use compute_quant_lab.Desk.Strategy.{SignalProducer, DeskState, signal, history}

pub record DeskResult (F : Type 0) : Type 0 where
  pub gross_returns : List F
  pub net_returns : List F
  pub costs : List F
  pub positions : List F
  pub n_trades : ℕ
  pub gross_metrics : Metrics F
  pub net_metrics : Metrics F
  pub attribution : List (String × F)

-- One row of the sensitivity table.
pub record Sensitivity (F : Type 0) : Type 0 where
  pub impact_kappa : F
  pub metrics : Metrics F
  pub cost_total : F

-- `d[name] = x`
abbrev pub put : {F : Type 0} → String → F → List (String × F) → List (String × F)
put name x [] = (name, x) ∷ []
put name x ((n, y) ∷ d) = if str_eq n name then (n, x) ∷ d else (n, y) ∷ put name x d

-- `{p.name: c for p, c in zip(producers, contrib)}`, on top of a dictionary
abbrev pub by_name :
    {S F : Type 0} → List (SignalProducer S F × S) → List F → List (String × F) → List (String × F)
by_name [] cs d = d
by_name (p ∷ ps) [] d = d
by_name (p ∷ ps) (c ∷ cs) d = by_name ps cs (put (p.0).name c d)

module _ {F : Type 0} ⦃float : Float F⦄ (arrays : Arrays F) where
  open float use {add, mul}

  -- The engine of a run without costs, at a capital of one.
  abbrev pub free_engine : F → BacktestEngine F (Result (Metrics F))
  free_engine periods_per_year = record {
    fees_bps = nought;
    slippage_bps = nought;
    capital = unit;
    compute_metrics = compute arrays periods_per_year nought;
  }

  abbrev pub net_ledger : Ledger F → List F → Ledger F
  net_ledger gross net_returns = record {
    returns = net_returns;
    pnl = map (λ r. mul r unit) net_returns;
    equity_curve = map (add unit) (arrays.cumsum (map (λ r. mul r unit) net_returns));
    positions = gross.positions;
    n_trades = gross.n_trades;
  }

  -- The body of the loop of `cost_sensitivity`.
  unfoldable pub sensitivity_at : Ledger F → F → F → F → F → Result (Sensitivity F)
  sensitivity_at gross fees_bps slippage_bps periods_per_year kappa = do
    model ← Execution.make fees_bps slippage_bps kappa
    (net_returns, costs) ← apply model gross.returns gross.positions
    metrics ← compute arrays periods_per_year nought (net_ledger gross net_returns)
    ok (record { impact_kappa = kappa; metrics = metrics; cost_total = arrays.sum costs })

module _ {S F : Type 0} ⦃float : Float F⦄ (numpy : Numpy F) (arrays : Arrays F)
    (column_sum : ℕ → List (List F) → List F) where
  -- `_gross_run`: the ledger, and the desk afterwards.
  unfoldable pub gross_run :
      List F
      → List (SignalProducer S F × S)
      → PortfolioConstructor F
      → F
      → Result (Ledger F × DeskState S F)
  gross_run prices producers constructor periods_per_year = do
    (desk, fresh) ← Strategy.make producers constructor (pos 60)
    (result, after) ←
        run arrays.cumsum (free_engine arrays periods_per_year) prices (signal numpy desk) tt fresh
    metrics ← result.metrics
    ok (result.ledger, after)

  -- `_attribution`: the components held before each period, times its market return.
  unfoldable pub attribution : DeskState S F → List (SignalProducer S F × S) → List (String × F)
  attribution after producers =
      let h = history after in
      let held = take (length h.components - 1) h.components in
      by_name producers (column_sum (length producers) (scaled held (drop 1 h.mkt_returns))) []
    where
      scaled : List (List F) → List F → List (List F)
      scaled [] ms = []
      scaled (row ∷ rows) [] = []
      scaled (row ∷ rows) (m ∷ ms) = map (λ c. float.mul c m) row ∷ scaled rows ms

  unfoldable pub run_desk_backtest :
      List F
      → List (SignalProducer S F × S)
      → PortfolioConstructor F
      → ExecutionModel F
      → F
      → Result (DeskResult F)
  run_desk_backtest prices producers constructor execution periods_per_year = do
    (gross, after) ← gross_run prices producers constructor periods_per_year
    (net_returns, costs) ← apply execution gross.returns gross.positions
    gross_metrics ← compute arrays periods_per_year nought gross
    net_metrics ← compute arrays periods_per_year nought (net_ledger arrays gross net_returns)
    ok (record {
      gross_returns = gross.returns;
      net_returns = net_returns;
      costs = costs;
      positions = gross.positions;
      n_trades = gross.n_trades;
      gross_metrics = gross_metrics;
      net_metrics = net_metrics;
      attribution = attribution after producers;
    })

  unfoldable pub cost_sensitivity :
      List F
      → List (SignalProducer S F × S)
      → PortfolioConstructor F
      → List F
      → F
      → F
      → F
      → Result (List (Sensitivity F))
  cost_sensitivity prices producers constructor kappas fees_bps slippage_bps periods_per_year = do
    (gross, after) ← gross_run prices producers constructor periods_per_year
    traverse (sensitivity_at arrays gross fees_bps slippage_bps periods_per_year) kappas
