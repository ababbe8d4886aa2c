-- ===== src/Tests/Backtest.antt =====
-- core/backtest: runs and instances, over whole numbers.
use compute_quant_lab.Prelude.{
  ℕ, zero, suc, ◌+◌, ◌≡◌, ◌<◌, ◌≤◌, refl, ap, some, List, [], ◌∷◌, arith, length, take, get_elem?,
}
use compute_quant_lab.Prelude.Float.{nought, int_float}
use compute_quant_lab.Prelude.Int.{ℤ, pos, negsuc, ◌+ℤ◌, ◌-ℤ◌, ◌*ℤ◌, quotient}
use compute_quant_lab.Prelude.Result.{ok, err, ◌>>=◌, look_ahead_error, index_error}
use compute_quant_lab.Backtest.Guards
use compute_quant_lab.Backtest.Guards.{PointInTimeView, GuardedView, view, at_guarded}
use compute_quant_lab.Backtest.Loop.{bps, accumulate}
use compute_quant_lab.Backtest.Loop.Returns.{changes, IsReturns, accumulate_lem}
use compute_quant_lab.Backtest.Engine.{Strategy, BacktestEngine, BacktestResult, run}
use compute_quant_lab.Backtest.Engine.Causality.{Agree}
use compute_quant_lab.Backtest.Engine.Runs.{IsCumsum, run_causal, run_total}

abbrev prices : List ℤ
prices = pos 1 ∷ pos 3 ∷ pos 6 ∷ []

abbrev other_prices : List ℤ
other_prices = pos 1 ∷ pos 3 ∷ pos 90 ∷ []

abbrev sums_from : ℤ → List ℤ → List ℤ
sums_from total [] = []
sums_from total (x ∷ xs) = (total +ℤ x) ∷ sums_from (total +ℤ x) xs

abbrev sums : List ℤ → List ℤ
sums = sums_from (pos 0)

length-sums_from : (total : ℤ) (xs : List ℤ) → length (sums_from total xs) ≡ length xs
length-sums_from total [] = refl
length-sums_from total (x ∷ xs) = ap suc (length-sums_from (total +ℤ x) xs)

take-sums_from :
    (total : ℤ) (xs : List ℤ) (m : ℕ) → take m (sums_from total xs) ≡ sums_from total (take m xs)
take-sums_from total xs zero = refl
take-sums_from total [] (suc m) = refl
take-sums_from total (x ∷ xs) (suc m) =
    ap (λ l. (total +ℤ x) ∷ l) (take-sums_from (total +ℤ x) xs m)

sums-IsCumsum : IsCumsum sums
sums-IsCumsum = record { lengths = length-sums_from (pos 0); prefixes = take-sums_from (pos 0) }

abbrev engine : BacktestEngine ℤ ℕ
engine = record {
  fees_bps = pos 10_000;
  slippage_bps = pos 0;
  capital = pos 1;
  compute_metrics = λ ledger. ledger.n_trades;
}

abbrev setting : ℕ
setting = 0

-- Takes the latest price as its position, and counts its calls.
abbrev follow : Strategy ℕ ℤ
follow n v = do x ← v.latest; ok (x, n + 1)

-- Holds one unit.
abbrev hold : Strategy ℕ ℤ
hold n v = ok (pos 1, n)

-- Reads tomorrow's price.
abbrev cheat : Strategy ℕ ℤ
cheat n v = do x ← v.at (pos (v.t + 1)); ok (x, n)

abbrev ledger : List ℤ → List ℤ → List ℤ → List ℤ → ℕ → BacktestResult ℤ ℕ ℕ
ledger returns pnl equity positions n = record {
  ledger = record {
    returns = returns;
    pnl = pnl;
    equity_curve = equity;
    positions = positions;
    n_trades = n;
  };
  metrics = n;
  params = 0;
}

abbrev followed : BacktestResult ℤ ℕ ℕ
followed =
    let gains : List ℤ = negsuc 0 ∷ pos 0 ∷ pos 0 ∷ [] in
    ledger gains gains (pos 0 ∷ pos 0 ∷ pos 0 ∷ []) prices 3

abbrev other_followed : BacktestResult ℤ ℕ ℕ
other_followed =
    let gains : List ℤ = negsuc 0 ∷ pos 0 ∷ pos 0 ∷ [] in
    ledger gains gains (pos 0 ∷ pos 0 ∷ pos 0 ∷ []) other_prices 3

run-follow : run sums engine prices follow 0 0 ≡ ok (followed, 3)
unfolding run accumulate view Guards.make ◌+ℤ◌ ◌-ℤ◌ ◌*ℤ◌ quotient
run-follow = refl

run-follow_other : run sums engine other_prices follow 0 0 ≡ ok (other_followed, 3)
unfolding run accumulate view Guards.make ◌+ℤ◌ ◌-ℤ◌ ◌*ℤ◌ quotient
run-follow_other = refl

prices-Agree : Agree 2 prices other_prices
prices-Agree = record { left = omega arith; right = omega arith; same = refl }

at_guarded_example :
    let v : GuardedView ℤ = record { series = prices; t = 1 } in
    (1 ≤ 1 → (x : ℤ) × (get_elem? prices 1 ≡ some x) × (Guards.at v (pos 1) ≡ ok x))
    × (1 < 1 → Guards.at v (pos 1) ≡ err look_ahead_error)
    × (Guards.at v (negsuc 1) ≡ err index_error)
unfolding Guards.make
at_guarded_example = at_guarded prices 1 1 refl

accumulate_lem_example :
    (returns : List ℤ) × (accumulate prices prices (pos 10_000) (pos 0)
      ≡ ok (returns, changes nought prices))
    × (length returns ≡ 3)
    × IsReturns prices (quotient (pos 10_000 +ℤ pos 0) bps) 0 nought prices returns
accumulate_lem_example = accumulate_lem prices prices (pos 10_000) (pos 0) refl

run_causal_example :
    (take 2 followed.ledger.positions ≡ take 2 other_followed.ledger.positions)
    × (take 2 followed.ledger.returns ≡ take 2 other_followed.ledger.returns)
    × (take 2 followed.ledger.pnl ≡ take 2 other_followed.ledger.pnl)
    × (take 2 followed.ledger.equity_curve ≡ take 2 other_followed.ledger.equity_curve)
run_causal_example =
    run_causal sums sums-IsCumsum engine prices other_prices follow 0 0 2 prices-Agree run-follow
      run-follow_other

run_total_example :
    (r : BacktestResult ℤ ℕ ℕ) × (s' : ℕ) × (run sums engine prices hold 0 0 ≡ ok (r, s'))
    × (length r.ledger.positions ≡ 3)
    × (length r.ledger.returns ≡ 3)
    × (length r.ledger.pnl ≡ 3)
    × (length r.ledger.equity_curve ≡ 3)
    × (r.ledger.n_trades ≡ changes nought r.ledger.positions)
run_total_example = run_total sums sums-IsCumsum engine prices hold 0 0 (λ s v. ((pos 1, s), refl))

cheat-raises : cheat 0 (view (record { series = prices; t = 0 })) ≡ err look_ahead_error
unfolding view
cheat-raises = refl
