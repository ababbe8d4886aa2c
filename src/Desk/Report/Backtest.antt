-- ===== src/Desk/Report/Backtest.antt =====
-- projects/10_portfolio_execution/src/run_desk.py, `run_desk_backtest`: a whole backtest of a desk.
use compute_quant_lab.Prelude.{
  ℕ, ◌≡◌, ◌≤◌, ◌∙◌, refl, ap, Option, List, [], ◌∷◌, All, eqb, length, length-map, map, arith,
  false, if◌then◌else◌,
}
use compute_quant_lab.Prelude.Float.{Float, IsOrdered, nought, unit, feq, lt}
use compute_quant_lab.Prelude.Int.{pos}
use compute_quant_lab.Prelude.Result.{ok}
use compute_quant_lab.Backtest.Loop.{accumulate}
use compute_quant_lab.Backtest.Loop.Returns.{changes, accumulate_lem}
use compute_quant_lab.Backtest.Engine.{Ledger, generate_positions, run}
use compute_quant_lab.Backtest.Metrics.{
  Arrays, Metrics, drawdowns, least, max_drawdown, annual, sharpe_ratio, turnover, hit_ratio,
  compute,
}
use compute_quant_lab.Desk.Portfolio
use compute_quant_lab.Desk.Portfolio.{
  Numpy, WeightScheme, PortfolioConstructor, IsSigned, IsWithin, IsAllocation,
}
use compute_quant_lab.Desk.Execution
use compute_quant_lab.Desk.Execution.{ExecutionModel, apply}
use compute_quant_lab.Desk.Execution.Parity.{HasZero, apply-accumulate}
use compute_quant_lab.Desk.Strategy
use compute_quant_lab.Desk.Strategy.{SignalProducer, DeskStrategy, DeskState, reset, signal}
use compute_quant_lab.Desk.Strategy.Steps.{IsColumnStd, AllAnswer, AllNonzero}
use compute_quant_lab.Desk.Strategy.History.{generate_positions-history}
use compute_quant_lab.Desk.Report.{
  DeskResult, net_ledger, gross_run, attribution, run_desk_backtest,
}

-- numpy's running sum and running maximum have an entry for each entry.
pub record IsArrays {F : Type 0} (arrays : Arrays F) : Type 0 where
  pub length-cumsum : (xs : List F) → length (arrays.cumsum xs) ≡ length xs
  pub length-running_max : (xs : List F) → length (arrays.running_max xs) ≡ length xs

module _ {F : Type 0} ⦃float : Float F⦄ (arrays : Arrays F) where
  abbrev ledger_of : List F → List F → ℕ → Ledger F
  ledger_of ps gross trades = record {
    returns = gross;
    pnl = map (λ r. float.mul r unit) gross;
    equity_curve = map (float.add unit) (arrays.cumsum (map (λ r. float.mul r unit) gross));
    positions = ps;
    n_trades = trades;
  }

module _ {F : Type 0} ⦃float : Float F⦄ (arrays : Arrays F) (shapes : IsArrays arrays) where
  least-ok : (x : F) (xs : List F) → (m : F) × (least (x ∷ xs) ≡ ok m)
  least-ok x [] = (x, refl)
  least-ok x (y ∷ xs) = let (m, e) = least-ok y xs in (if lt m x then m else x, rw e refl)

  drawdowns-ok :
      (es ps : List F)
      → 1 ≤ length es
      → length ps ≡ length es
      → (m : F) × (least (drawdowns es ps) ≡ ok m)
  drawdowns-ok [] ps h same = absurd (omega arith)
  drawdowns-ok (e ∷ es) [] h same = absurd (omega arith)
  drawdowns-ok (e ∷ es) (p ∷ ps) h same =
      least-ok (float.sub (float.div e p) unit) (drawdowns es ps)

  -- A ledger with at least one period has its metrics.
  compute-ok :
      (periods_per_year : F) (ledger : Ledger F)
      → feq periods_per_year nought ≡ false
      → 1 ≤ length ledger.equity_curve
      → (m : Metrics F) × (compute arrays periods_per_year nought ledger ≡ ok m)
  unfolding compute sharpe_ratio max_drawdown
  compute-ok periods ledger nonzero some_period =
      let es = ledger.equity_curve in
      let (m, e) =
        drawdowns-ok es (arrays.running_max es) some_period (shapes.length-running_max es) in
      (
        record {
          pnl_total = arrays.sum ledger.pnl;
          sharpe = annual arrays ledger.returns periods nought;
          max_drawdown = m;
          turnover = turnover arrays ledger.positions;
          hit_ratio = hit_ratio ledger.returns;
        },
        rw (nonzero, e) refl,
      )

  length-equity :
      (returns : List F)
      → length (map (float.add unit) (arrays.cumsum (map (λ r. float.mul r unit) returns)))
        ≡ length returns
  length-equity returns =
      let pnl = map (λ r. float.mul r unit) returns in
      length-map (float.add unit) (arrays.cumsum pnl)
      ∙ shapes.length-cumsum pnl
      ∙ length-map (λ r. float.mul r unit) returns

module _ {S F : Type 0} ⦃float : Float F⦄ (numpy : Numpy F) (arrays : Arrays F)
    (column_sum : ℕ → List (List F) → List F) where
  gross_run-ok :
      (prices : List F) (producers : List (SignalProducer S F × S))
      (constructor : PortfolioConstructor F) (periods : F) (ps gross : List F)
      (after : DeskState S F) (trades : ℕ) (metrics : Metrics F)
      → eqb (length producers) 0 ≡ false
      → generate_positions prices
          (signal numpy (record { constructor = constructor; vol_lookback = 60 }))
          (reset producers)
        ≡ ok (ps, after)
      → accumulate ps prices nought nought ≡ ok (gross, trades)
      → compute arrays periods nought (ledger_of arrays ps gross trades) ≡ ok metrics
      → gross_run numpy arrays column_sum prices producers constructor periods
        ≡ ok (ledger_of arrays ps gross trades, after)
  unfolding gross_run run Strategy.make
  gross_run-ok prices producers constructor periods ps gross after trades metrics producing ran
        booked computed =
      rw (producing, ran, booked, computed) refl

  abbrev result_of :
      List (SignalProducer S F × S)
      → List F
      → List F
      → ℕ
      → DeskState S F
      → List F
      → List F
      → Metrics F
      → Metrics F
      → DeskResult F
  result_of producers ps gross trades after net costs gross_metrics net_metrics = record {
    gross_returns = gross;
    net_returns = net;
    costs = costs;
    positions = ps;
    n_trades = trades;
    gross_metrics = gross_metrics;
    net_metrics = net_metrics;
    attribution = attribution numpy arrays column_sum after producers;
  }

  run_desk_backtest-ok :
      (prices : List F) (producers : List (SignalProducer S F × S))
      (constructor : PortfolioConstructor F) (execution : ExecutionModel F) (periods : F)
      (ps gross : List F) (trades : ℕ) (after : DeskState S F) (net costs : List F)
      (gm nm : Metrics F)
      → gross_run numpy arrays column_sum prices producers constructor periods
        ≡ ok (ledger_of arrays ps gross trades, after)
      → apply execution gross ps ≡ ok (net, costs)
      → compute arrays periods nought (ledger_of arrays ps gross trades) ≡ ok gm
      → compute arrays periods nought (net_ledger arrays (ledger_of arrays ps gross trades) net)
        ≡ ok nm
      → run_desk_backtest numpy arrays column_sum prices producers constructor execution periods
        ≡ ok (result_of producers ps gross trades after net costs gm nm)
  unfolding run_desk_backtest
  run_desk_backtest-ok prices producers constructor execution periods ps gross trades after net
        costs gm nm run applied gross_metrics net_metrics =
      rw (run, applied, gross_metrics, net_metrics) refl

  -- A backtest of a desk without impact succeeds, for a series of at least one price and no zero,
  -- producers that answer at each of its instants and a scheme with a weight for each volatility.
  -- It has a position for each price, between the limits of the desk, counts the periods that
  -- change it, and its net returns are those of the engine's own loop at the same fees and
  -- slippage. This in an arithmetic where order, signs, zero and multiplication behave as those of
  -- finite floating point numbers, given the shapes that numpy documents.
  pub run_desk_backtest_lem :
      (std : IsColumnStd numpy) (shapes : IsArrays arrays) (laws : IsOrdered F)
      (signed : IsSigned F) (exact : HasZero F) (prices : List F)
      (producers : List (SignalProducer S F × S)) (scheme : Option (WeightScheme F))
      (vol_floor gross_cap fees_bps slippage_bps kappa periods_per_year : F)
      {constructor : PortfolioConstructor F} {execution : ExecutionModel F}
      → Portfolio.make numpy scheme vol_floor gross_cap ≡ ok constructor
      → Execution.make fees_bps slippage_bps kappa ≡ ok execution
      → kappa ≡ nought
      → feq periods_per_year nought ≡ false
      → IsAllocation constructor.scheme
      → AllAnswer prices producers
      → 1 ≤ length producers
      → AllNonzero prices
      → 1 ≤ length prices
      → (result : DeskResult F) × (run_desk_backtest numpy arrays column_sum prices producers
            constructor execution periods_per_year
          ≡ ok result)
        × (length result.positions ≡ length prices)
        × All (IsWithin constructor) result.positions
        × (result.n_trades ≡ changes nought result.positions)
        × (accumulate result.positions prices fees_bps slippage_bps
            ≡ ok (result.net_returns, result.n_trades))
  unfolding Strategy.make
  run_desk_backtest_lem std shapes laws signed exact prices producers scheme vol_floor gross_cap
        fees slippage kappa periods {constructor} {execution} made_c made_e flat nonzero_periods
        allocation answer some_producer nonzero some_price =
      let desk : DeskStrategy F = record { constructor = constructor; vol_lookback = 60 } in
      let producing : eqb (length producers) 0 ≡ false = ground arith in
      let made : Strategy.make producers constructor (pos 60) ≡ ok (desk, reset producers) =
        rw producing refl in
      let (ps, after, ran, n, within, _, _, _, _, _, _) =
        generate_positions-history numpy std laws signed prices scheme vol_floor gross_cap (pos 60)
          producers (reset producers) made_c made allocation answer nonzero some_price in
      let (gross, booked, many, _) = accumulate_lem ps prices nought nought n in
      let (returns', booked', many', _) = accumulate_lem ps prices fees slippage n in
      let (net, costs, applied, charged, parity) =
        apply-accumulate exact ps prices gross fees slippage kappa (changes nought ps) flat made_e
          booked in
      let same : net ≡ returns' = ground (arith, parity, booked') in
      let ledger = ledger_of arrays ps gross (changes nought ps) in
      let (gm, gross_metrics) =
        compute-ok arrays shapes periods ledger nonzero_periods
          (omega (arith, length-equity arrays shapes gross, many)) in
      let (nm, net_metrics) =
        compute-ok arrays shapes periods (net_ledger arrays ledger net) nonzero_periods
          (omega (arith, length-equity arrays shapes net, ap length same, many')) in
      let opened =
        gross_run-ok prices producers constructor periods ps gross after (changes nought ps) gm
          producing ran booked gross_metrics in
      (
        result_of producers ps gross (changes nought ps) after net costs gm nm,
        run_desk_backtest-ok prices producers constructor execution periods ps gross
            (changes nought ps) after net costs gm nm opened applied gross_metrics net_metrics,
        n,
        within,
        refl,
        parity,
      )
