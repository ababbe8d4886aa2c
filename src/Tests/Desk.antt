-- ===== src/Tests/Desk.antt =====
-- projects/10_portfolio_execution: desks over whole numbers.
use mathlib.Core.Path.{ap₂}
use native.Mathlib.Nat.{mul_comm, add_comm}
use compute_quant_lab.Prelude.{
  ℕ, none, ◌+◌, ◌*◌, ◌∙◌, ◌≡◌, refl, some, List, [], ◌∷◌, All, length, length-map, map, arith,
}
use compute_quant_lab.Prelude.Float.{nought, int_float, int-IsOrdered}
use compute_quant_lab.Prelude.Int.{
  ℤ, pos, negsuc, pos_part, neg_part, sub_ℕ, ◌+ℤ◌, ◌-ℤ◌, ◌*ℤ◌, quotient,
}
use compute_quant_lab.Prelude.Result.{ok}
use compute_quant_lab.Backtest.Loop.{accumulate}
use compute_quant_lab.Backtest.Engine.{generate_positions}
use compute_quant_lab.Desk.Portfolio
use compute_quant_lab.Desk.Portfolio.{
  Numpy, WeightScheme, PortfolioConstructor, IsSigned, IsWithin, IsAllocation,
}
use compute_quant_lab.Desk.Execution
use compute_quant_lab.Desk.Execution.{ExecutionModel, apply}
use compute_quant_lab.Desk.Execution.Parity.{HasZero}
use compute_quant_lab.Desk.Strategy
use compute_quant_lab.Desk.Strategy.{
  SignalProducer, DeskStrategy, DeskState, reset, signal, history,
}
use compute_quant_lab.Desk.Strategy.Steps.{IsColumnStd, AllAnswer}
use compute_quant_lab.Desk.Strategy.History.{IsMoves, generate_positions-history}
use compute_quant_lab.Desk.Strategy.Restart.{generate_positions-Restart}
use compute_quant_lab.Backtest.Loop.Returns.{changes}
use compute_quant_lab.Backtest.Metrics.{Arrays}
use compute_quant_lab.Desk.Report.{DeskResult, run_desk_backtest}
use compute_quant_lab.Desk.Report.Backtest.{IsArrays, run_desk_backtest_lem}
use compute_quant_lab.Desk.Mocks.{constant_mock}

abbrev total : List ℤ → ℤ
total [] = pos 0
total (x ∷ xs) = x +ℤ total xs

abbrev product : List ℤ → List ℤ → ℤ
product [] ys = pos 0
product (x ∷ xs) [] = pos 0
product (x ∷ xs) (y ∷ ys) = x *ℤ y +ℤ product xs ys

-- The entries of the first row stand for the deviations of the columns.
abbrev first_row : List (List ℤ) → List ℤ
first_row [] = []
first_row (r ∷ rs) = r

abbrev numpy : Numpy ℤ
numpy = record { sum = total; dot = product; column_std = first_row }

first_row-IsColumnStd : IsColumnStd numpy
first_row-IsColumnStd k [] h some_row = absurd (omega arith)
first_row-IsColumnStd k (r ∷ rs) (e, _) some_row = e

int-IsSigned : IsSigned ℤ
unfolding ◌-ℤ◌
int-IsSigned x h = ground arith

-- A unit of each signal.
abbrev units : WeightScheme ℤ
units = record { weights = λ vols budget. ok (map (λ v. pos 1) vols) }

abbrev desk_constructor : PortfolioConstructor ℤ
desk_constructor = record { scheme = units; vol_floor = pos 1; gross_cap = pos 1 }

constructor_made : Portfolio.make numpy (some units) (pos 1) (pos 1) ≡ ok desk_constructor
unfolding Portfolio.make
constructor_made = refl

units-IsAllocation : IsAllocation units
units-IsAllocation vols = (map (λ v. pos 1) vols, refl, length-map (λ v. pos 1) vols)

abbrev producers : List (SignalProducer (Unit {0}) ℤ × Unit {0})
producers = (constant_mock (pos 1) "carry", tt) ∷ (constant_mock (pos 5) "trend", tt) ∷ []

abbrev desk : DeskStrategy ℤ
desk = record { constructor = desk_constructor; vol_lookback = 60 }

desk_made : Strategy.make producers desk_constructor (pos 60) ≡ ok (desk, reset producers)
unfolding Strategy.make
desk_made = refl

abbrev prices : List ℤ
prices = pos 2 ∷ pos 4 ∷ pos 12 ∷ []

producers-AllAnswer : AllAnswer prices producers
producers-AllAnswer = (λ s t v made. (_, refl), (λ s t v made. (_, refl), tt))

generate_positions-history_example :
    (ps : List ℤ) × (state' : DeskState (Unit {0}) ℤ) × (generate_positions prices
        (signal numpy desk)
        (reset producers)
      ≡ ok (ps, state'))
    × (length ps ≡ 3)
    × All (IsWithin desk_constructor) ps
    × ((history state').positions ≡ ps)
    × IsMoves prices 0 (history state').mkt_returns
    × (length (history state').mkt_returns ≡ 3)
    × (length (history state').signals ≡ 3)
    × (length (history state').weights ≡ 3)
    × (length (history state').components ≡ 3)
generate_positions-history_example =
    generate_positions-history numpy first_row-IsColumnStd int-IsOrdered int-IsSigned prices
      (some units) (pos 1) (pos 1) (pos 60) producers (reset producers) constructor_made desk_made
      units-IsAllocation producers-AllAnswer (refl, (refl, (refl, tt))) (omega arith)

-- What an earlier run left.
abbrev used : DeskState (Unit {0}) ℤ
used = record (reset producers) { prev_signals = pos 1 ∷ pos 1 ∷ []; rec_positions = pos 9 ∷ [] }

generate_positions-Restart_example :
    generate_positions prices (signal numpy desk) (reset producers)
    ≡ generate_positions prices (signal numpy desk) used
generate_positions-Restart_example =
    generate_positions-Restart numpy desk (pos 2) (pos 4 ∷ pos 12 ∷ []) (reset producers) used
      (refl, λ v first. refl, (refl, λ v first. refl, tt))

plus_zero : (x : ℤ) → x +ℤ pos 0 ≡ x
unfolding ◌+ℤ◌
plus_zero (pos n) = ground arith
plus_zero (negsuc n) = ground arith

minus_zero : (x : ℤ) → x -ℤ pos 0 ≡ x
unfolding ◌-ℤ◌
minus_zero (pos n) = ground arith
minus_zero (negsuc n) = ground arith

times_zero : (x : ℤ) → x *ℤ pos 0 ≡ pos 0
unfolding ◌*ℤ◌
times_zero (pos n) = ground arith
times_zero (negsuc n) = ground arith

times_comm : (x y : ℤ) → x *ℤ y ≡ y *ℤ x
unfolding ◌*ℤ◌
times_comm x y =
    let pp = mul_comm (pos_part x) (pos_part y) in
    let nn = mul_comm (neg_part x) (neg_part y) in
    let pn = mul_comm (pos_part x) (neg_part y) in
    let np = mul_comm (neg_part x) (pos_part y) in
    ap₂ sub_ℕ (ap₂ ◌+◌ pp nn)
      (ap₂ ◌+◌ pn np ∙ add_comm (neg_part y * pos_part x) (pos_part y * neg_part x))

int-HasZero : HasZero ℤ
unfolding ◌-ℤ◌ ◌+ℤ◌ ◌*ℤ◌ quotient
int-HasZero = record {
  mul_comm = times_comm;
  mul-nought = times_zero;
  add-nought = plus_zero;
  sub-nought = minus_zero;
  div-nought = refl;
}

abbrev model : ExecutionModel ℤ
model = record {
  fees_bps = pos 20000;
  slippage_bps = pos 10000;
  impact_kappa = pos 0;
  linear_rate = pos 3;
}

model_made : Execution.make (pos 20000) (pos 10000) (pos 0) ≡ ok model
unfolding Execution.make ◌+ℤ◌ quotient
model_made = refl

abbrev arrays : Arrays ℤ
arrays = record {
  sum = total;
  mean = total;
  std = λ xs. none;
  cumsum = λ xs. xs;
  running_max = λ xs. xs;
}

arrays-IsArrays : IsArrays arrays
arrays-IsArrays = record { length-cumsum = λ xs. refl; length-running_max = λ xs. refl }

abbrev column_sum : ℕ → List (List ℤ) → List ℤ
column_sum k rows = first_row rows

run_desk_backtest_lem_example :
    (result : DeskResult ℤ) × (run_desk_backtest numpy arrays column_sum prices producers
        desk_constructor model
        (pos 1)
      ≡ ok result)
    × (length result.positions ≡ 3)
    × All (IsWithin desk_constructor) result.positions
    × (result.n_trades ≡ changes nought result.positions)
    × (accumulate result.positions prices (pos 20000) (pos 10000)
        ≡ ok (result.net_returns, result.n_trades))
run_desk_backtest_lem_example =
    run_desk_backtest_lem numpy arrays column_sum first_row-IsColumnStd arrays-IsArrays
      int-IsOrdered int-IsSigned int-HasZero prices producers (some units) (pos 1) (pos 1)
      (pos 20000) (pos 10000) (pos 0) (pos 1) constructor_made model_made refl refl
      units-IsAllocation producers-AllAnswer (omega arith) (refl, (refl, (refl, tt))) (omega arith)
