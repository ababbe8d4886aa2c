-- ===== src/Backtest/Loop.antt =====
-- core/backtest/reference_loop.py, `accumulate`: the period-by-period profit and loss, and
-- core/backtest/costs.py, `BPS`.
pub mod Returns
use compute_quant_lab.Prelude.{
  ℕ, zero, suc, ◌+◌, ◌≡◌, Option, none, some, List, [], ◌∷◌, get_elem?, if◌then◌else◌,
}
use compute_quant_lab.Prelude.Float.{Float, nought, unit, feq, abs}
use compute_quant_lab.Prelude.Result.{Result, ok, err, ◌>>=◌, or_raise, index_error}

module _ {F : Type 0} ⦃float : Float F⦄ where
  open float use {of_nat, add, sub, mul, div}

  abbrev pub bps : F
  bps = of_nat 10_000

  -- `0.0 if t == 0 else prices[t] / prices[t - 1] - 1.0`
  abbrev pub market_return : List F → ℕ → Result F
  market_return prices zero = ok nought
  market_return prices (suc t) = do
    now ← or_raise (get_elem? prices (suc t)) index_error
    before ← or_raise (get_elem? prices t) index_error
    ok (sub (div now before) unit)

  -- The rounds from `t` on, for the positions that are left.
  unfoldable pub accumulate_from : List F → F → ℕ → F → ℕ → List F → Result (List F × ℕ)
  accumulate_from prices cost_rate t prev_pos n_trades [] = ok ([], n_trades)
  accumulate_from prices cost_rate t prev_pos n_trades (position ∷ positions) = do
    market_ret ← market_return prices t
    let delta = sub position prev_pos
    let n_trades' = if feq delta nought then n_trades else n_trades + 1
    let trade_cost = mul (abs delta) cost_rate
    (returns, total) ← accumulate_from prices cost_rate (t + 1) position n_trades' positions
    ok (sub (mul prev_pos market_ret) trade_cost ∷ returns, total)

  unfoldable pub accumulate : List F → List F → F → F → Result (List F × ℕ)
  unfolding accumulate_from
  accumulate positions prices fees_bps slippage_bps =
      accumulate_from prices (div (add fees_bps slippage_bps) bps) 0 nought 0 positions
