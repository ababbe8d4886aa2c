-- ===== src/Backtest/Loop/Returns.antt =====
-- core/backtest/reference_loop.py, `accumulate`: each entry of the series, and the trade count.
use compute_quant_lab.Prelude.{
  ℕ, zero, suc, ◌+◌, ◌≡◌, ◌≤◌, ◌<◌, refl, ap, ◌∙◌, some, List, [], ◌∷◌, get_elem?, get_elem?-lt,
  length, if◌then◌else◌, arith,
}
use mathlib.Core.Path.{subst}
use native.Mathlib.Nat.{add-zero}
use compute_quant_lab.Prelude.Float.{Float, nought, unit, feq, abs}
use compute_quant_lab.Prelude.Result.{ok}
use compute_quant_lab.Backtest.Loop.{bps, market_return, accumulate_from, accumulate}

module _ {F : Type 0} ⦃float : Float F⦄ where
  open float use {of_nat, add, sub, mul, div}

  -- The number of periods whose position differs from the one before, from `prev` on.
  abbrev pub changes : F → List F → ℕ
  changes prev [] = 0
  changes prev (p ∷ ps) = (if feq (sub p prev) nought then 0 else 1) + changes p ps

  -- The return of one period: what the position held so far makes of the market move, less the
  -- cost of the change to the new position.
  abbrev pub period_return : F → F → F → F → F
  period_return prev position move rate = sub (mul prev move) (mul (abs (sub position prev)) rate)

  pub market_return_total :
      (prices : List F) (t : ℕ) → t < length prices → (x : F) × (market_return prices t ≡ ok x)
  market_return_total prices zero h = (nought, refl)
  market_return_total prices (suc t) h =
      let (now, e) = get_elem?-lt prices (suc t) h in
      let (before, e') = get_elem?-lt prices t (omega arith) in
      (sub (div now before) unit, ground arith)

  -- Each return is that of its period: of the position before it (`prev`, at first), the position
  -- after it, and the market move of the period.
  abbrev pub IsReturns : List F → F → ℕ → F → List F → List F → Type 0
  IsReturns prices rate t prev positions returns =
      (i : ℕ) (before after : F)
      → get_elem? (prev ∷ positions) i ≡ some before
      → get_elem? positions i ≡ some after
      → (move : F) × (market_return prices (t + i) ≡ ok move)
        × (get_elem? returns i ≡ some (period_return before after move rate))

  IsReturns-cons :
      (prices : List F) (rate : F) (t : ℕ) (prev position move : F) (positions returns : List F)
      → market_return prices t ≡ ok move
      → IsReturns prices rate (t + 1) position positions returns
      → IsReturns prices rate t prev
          (position ∷ positions)
          (period_return prev position move rate ∷ returns)
  IsReturns-cons prices rate t prev position move positions returns e rest zero before after p q =
      (move, rw add-zero e, cc)
  IsReturns-cons prices rate t prev position move positions returns e rest (suc i) before after p
        q =
      let (next, e', entry) = rest i before after p q in
      (next, subst (λ n. market_return prices n ≡ ok next) (omega arith) e', entry)

  -- The rounds from `t` on, with `prev` held at their start.
  accumulate_from_lem :
      (prices : List F) (rate : F) (t : ℕ) (prev : F) (trades : ℕ) (positions : List F)
      → t + length positions ≤ length prices
      → (returns : List F) × (accumulate_from prices rate t prev trades positions
          ≡ ok (returns, trades + changes prev positions))
        × (length returns ≡ length positions)
        × IsReturns prices rate t prev positions returns
  unfolding accumulate_from
  accumulate_from_lem prices rate t prev trades [] h =
      ([], ground arith, refl, λ i b a p q. absurd (cc))
  accumulate_from_lem prices rate t prev trades (position ∷ positions) h =
      let (move, e) = market_return_total prices t (omega arith) in
      let trades' = if feq (sub position prev) nought then trades else trades + 1 in
      let (returns, run, size, entries) =
        accumulate_from_lem prices rate (t + 1) position trades' positions (omega arith) in
      (
        period_return prev position move rate ∷ returns,
        rw (e, run) (ground arith),
        ap suc size,
        IsReturns-cons prices rate t prev position move positions returns e entries,
      )

  -- With a price for each position, `accumulate` gives one return for each period: the position
  -- held before the period (flat at first) times the market move, less the cost of the change, at
  -- `(fees_bps + slippage_bps) / 10 000` of its size. It counts the periods that change position.
  pub accumulate_lem :
      (positions prices : List F) (fees_bps slippage_bps : F)
      → length positions ≡ length prices
      → (returns : List F) × (accumulate positions prices fees_bps slippage_bps
          ≡ ok (returns, changes nought positions))
        × (length returns ≡ length prices)
        × IsReturns prices (div (add fees_bps slippage_bps) bps) 0 nought positions returns
  unfolding accumulate
  accumulate_lem positions prices fees slippage h =
      let (returns, run, size, entries) =
        accumulate_from_lem prices (div (add fees slippage) bps) 0 nought 0 positions
          (omega arith) in
      (returns, rw run (ground arith), size ∙ h, entries)
