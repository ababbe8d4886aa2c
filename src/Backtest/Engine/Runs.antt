-- ===== src/Backtest/Engine/Runs.antt =====
-- core/backtest/engine.py, `BacktestEngine.run`: whole runs.
use compute_quant_lab.Prelude.{
  ℕ, zero, suc, ◌+◌, ◌-◌, ◌≡◌, ◌≤◌, ◌<◌, refl, ap, sym, ◌∙◌, List, [], ◌∷◌, length, arith, take,
  map, length-map,
}
use mathlib.Core.Path.{ap₂}
use native.Mathlib.Nat.{zero-add}
use compute_quant_lab.Prelude.Float.{Float, nought, abs}
use compute_quant_lab.Prelude.Result.{Result, Exception, ok, err, >>=-eq-ok}
use compute_quant_lab.Backtest.Guards.{PointInTimeView, view}
use compute_quant_lab.Backtest.Loop.{market_return, accumulate, accumulate_from}
use compute_quant_lab.Backtest.Loop.Returns.{changes, period_return, accumulate_lem}
use compute_quant_lab.Backtest.Engine.{
  Strategy, Ledger, BacktestEngine, BacktestResult, positions_from, generate_positions, run,
}
use compute_quant_lab.Backtest.Engine.Causality.{
  Agree, get_elem?_agree, make_agree, generate_positions-Agree, length-positions_from,
  positions_from-add,
}

ok-injective :
    {A B : Type 0} {a a' : A} {b b' : B}
    → ◌≡◌ {A = Result (A × B)} (ok (a, b)) (ok (a', b'))
    → a ≡ a'
ok-injective e = cc

take-map : {F : Type 0} (f : F → F) (xs : List F) (m : ℕ) → take m (map f xs) ≡ map f (take m xs)
take-map f xs zero = refl
take-map f [] (suc m) = refl
take-map f (x ∷ xs) (suc m) = ap (λ l. f x ∷ l) (take-map f xs m)

module _ {F : Type 0} ⦃float : Float F⦄ where
  open float use {sub, mul}

  market_return_agree :
      (p q : List F) (m t : ℕ) → take m p ≡ take m q → t < m → market_return p t ≡ market_return q t
  market_return_agree p q m zero e h = refl
  market_return_agree p q m (suc t) e h =
      rw (get_elem?_agree p q m (suc t) e h, get_elem?_agree p q m t e (omega arith))

  accumulate_from_agree :
      (p q : List F) (m k : ℕ) (rate : F) (t : ℕ) (prev prev' : F) (n n' : ℕ)
      (xs ys rs rs' : List F) {total total' : ℕ}
      → take m p ≡ take m q
      → t + k ≤ m
      → prev ≡ prev'
      → take k xs ≡ take k ys
      → accumulate_from p rate t prev n xs ≡ ok (rs, total)
      → accumulate_from q rate t prev' n' ys ≡ ok (rs', total')
      → take k rs ≡ take k rs'
  unfolding accumulate_from
  accumulate_from_agree p q m zero rate t prev prev' n n' xs ys rs rs' a h held same e e' = refl
  accumulate_from_agree p q m (suc k) rate t prev prev' n n' [] [] rs rs' a h held same e e' =
      ground arith
  accumulate_from_agree p q m (suc k) rate t prev prev' n n' [] (y ∷ ys) rs rs' a h held same e e' =
      absurd (cc)
  accumulate_from_agree p q m (suc k) rate t prev prev' n n' (x ∷ xs) [] rs rs' a h held same e e' =
      absurd (cc)
  accumulate_from_agree p q m (suc k) rate t prev prev' n n' (x ∷ xs) (y ∷ ys) rs rs' a h held same
        e e' =
      let (move, e₁, e₂) = >>=-eq-ok (market_return p t) _ e in
      let (move', e₁', e₂') = >>=-eq-ok (market_return q t) _ e' in
      let ((us, total₁), e₃, e₄) = >>=-eq-ok (accumulate_from p rate (t + 1) x _ xs) _ e₂ in
      let ((us', total₁'), e₃', e₄') = >>=-eq-ok (accumulate_from q rate (t + 1) y _ ys) _ e₂' in
      let move_eq = market_return_agree p q m t a (omega arith) in
      let x_eq : x ≡ y = cc in
      let same_move : move ≡ move' = cc in
      let first : period_return prev x move rate ≡ period_return prev' y move' rate =
        ap₂ (λ u v. sub (mul u move) (mul (abs (sub v u)) rate)) held x_eq
        ∙ ap (λ w. period_return prev' y w rate) same_move in
      let rest_eq : take k xs ≡ take k ys = cc in
      let later =
        accumulate_from_agree p q m k rate (t + 1) x y _ _ xs ys us us' a (omega arith) x_eq rest_eq
          e₃ e₃' in
      let out : rs ≡ period_return prev x move rate ∷ us = sym (ok-injective e₄) in
      let out' : rs' ≡ period_return prev' y move' rate ∷ us' = sym (ok-injective e₄') in
      ap (take (suc k)) out ∙ ap₂ ◌∷◌ first later ∙ sym (ap (take (suc k)) out')

-- What numpy documents of `cumsum`, as far as the engine relies on it: an entry for each entry
-- of the array, which depends only on that entry and those before it.
pub record IsCumsum {F : Type 0} (cumsum : List F → List F) : Type 0 where
  pub lengths : (xs : List F) → length (cumsum xs) ≡ length xs
  pub prefixes : (xs : List F) (m : ℕ) → take m (cumsum xs) ≡ cumsum (take m xs)

module _ {S F : Type 0} where
  positions_from_total :
      (p : List F) (strategy : Strategy S F) (t left : ℕ) (s : S)
      → ((s : S) (v : PointInTimeView F) → (r : F × S) × (strategy s v ≡ ok r))
      → t + left ≤ length p
      → (xs : List F) × (s' : S) × (positions_from p strategy t left s ≡ ok (xs, s'))
  unfolding positions_from
  positions_from_total p strategy t zero s total h = ([], s, refl)
  positions_from_total p strategy t (suc left) s total h =
      let ((x, s₁), e) = total s (view (record { series = p; t = t })) in
      let (xs, s₂, e') = positions_from_total p strategy (t + 1) left s₁ total (omega arith) in
      (x ∷ xs, s₂, rw (make_agree p t (omega arith), e, e'))

  positions_from_raises :
      (p : List F) (strategy : Strategy S F) (t k : ℕ) (s s' : S) (xs : List F) (x : Exception)
      → t < length p
      → positions_from p strategy 0 t s ≡ ok (xs, s')
      → strategy s' (view (record { series = p; t = t })) ≡ err x
      → positions_from p strategy 0 (t + suc k) s ≡ err x
  unfolding positions_from
  positions_from_raises p strategy t k s s' xs x h e raises =
      positions_from-add strategy p 0 t (suc k) s ∙ rw (e, zero-add, make_agree p t h, raises)

module _ {S F M P : Type 0} ⦃float : Float F⦄ (cumsum : List F → List F) where
  open float use {add, mul}

  -- What a successful run is made of.
  run-eq-ok :
      (engine : BacktestEngine F M) (p : List F) (strategy : Strategy S F) (params : P) (s : S)
      {r : BacktestResult F M P} {s' : S}
      → run cumsum engine p strategy params s ≡ ok (r, s')
      → (generate_positions p strategy s ≡ ok (r.ledger.positions, s'))
        × (accumulate r.ledger.positions p engine.fees_bps engine.slippage_bps
            ≡ ok (r.ledger.returns, r.ledger.n_trades))
        × (r.ledger.pnl ≡ map (λ x. mul x engine.capital) r.ledger.returns)
        × (r.ledger.equity_curve ≡ map (add engine.capital) (cumsum r.ledger.pnl))
  unfolding run
  run-eq-ok engine p strategy params s {r} {s'} e =
      let ((positions, s₁), e₁, e₂) = >>=-eq-ok (generate_positions p strategy s) _ e in
      let ((returns, n), e₃, e₄) =
        >>=-eq-ok (accumulate positions p engine.fees_bps engine.slippage_bps) _ e₂ in
      (ground arith, ground arith, ground arith, ground arith)

  -- If two price series agree up to period `m`, two successful runs of the same strategy over them
  -- have the same positions, returns, profits and equity up to `m`: nothing that a run books for a
  -- period depends on a later price.
  pub run_causal :
      (laws : IsCumsum cumsum) (engine : BacktestEngine F M) (p q : List F)
      (strategy : Strategy S F) (params : P) (s : S) (m : ℕ) {r r' : BacktestResult F M P}
      {s' s'' : S}
      → Agree m p q
      → run cumsum engine p strategy params s ≡ ok (r, s')
      → run cumsum engine q strategy params s ≡ ok (r', s'')
      → (take m r.ledger.positions ≡ take m r'.ledger.positions)
        × (take m r.ledger.returns ≡ take m r'.ledger.returns)
        × (take m r.ledger.pnl ≡ take m r'.ledger.pnl)
        × (take m r.ledger.equity_curve ≡ take m r'.ledger.equity_curve)
  run_causal laws engine p q strategy params s m {r} {r'} a e e' =
      let (g, h, pnl, equity) = run-eq-ok engine p strategy params s e in
      let (g', h', pnl', equity') = run-eq-ok engine q strategy params s e' in
      let same = generate_positions-Agree strategy p q m s a g g' in
      let returns : take m r.ledger.returns ≡ take m r'.ledger.returns =
        unfold accumulate in
        accumulate_from_agree p q m m _ 0 nought nought 0 0 r.ledger.positions r'.ledger.positions
          r.ledger.returns r'.ledger.returns a.same (omega arith) refl same h h' in
      let gain : F → F = λ x. mul x engine.capital in
      let pnls : take m r.ledger.pnl ≡ take m r'.ledger.pnl =
        rw (pnl, pnl')
          (take-map gain r.ledger.returns m
            ∙ ap (map gain) returns
            ∙ sym (take-map gain r'.ledger.returns m)) in
      let sums : take m (cumsum r.ledger.pnl) ≡ take m (cumsum r'.ledger.pnl) =
        laws.prefixes r.ledger.pnl m ∙ ap cumsum pnls ∙ sym (laws.prefixes r'.ledger.pnl m) in
      let grow : F → F = add engine.capital in
      (
        same,
        returns,
        pnls,
        rw (equity, equity')
            (take-map grow (cumsum r.ledger.pnl) m
              ∙ ap (map grow) sums
              ∙ sym (take-map grow (cumsum r'.ledger.pnl) m)),
      )

  -- A strategy that always answers gives a successful run. Its positions, returns, profits and
  -- equity have one entry for each price, and it counts the periods that change position.
  pub run_total :
      (laws : IsCumsum cumsum) (engine : BacktestEngine F M) (p : List F) (strategy : Strategy S F)
      (params : P) (s : S)
      → ((s : S) (v : PointInTimeView F) → (r : F × S) × (strategy s v ≡ ok r))
      → (r : BacktestResult F M P) × (s' : S) × (run cumsum engine p strategy params s ≡ ok (r, s'))
        × (length r.ledger.positions ≡ length p)
        × (length r.ledger.returns ≡ length p)
        × (length r.ledger.pnl ≡ length p)
        × (length r.ledger.equity_curve ≡ length p)
        × (r.ledger.n_trades ≡ changes nought r.ledger.positions)
  unfolding run
  run_total laws engine p strategy params s total =
      let (xs, s', e) = positions_from_total p strategy 0 (length p) s total (omega arith) in
      let size = length-positions_from strategy p 0 (length p) s e in
      let (returns, e', many, _) = accumulate_lem xs p engine.fees_bps engine.slippage_bps size in
      let pnl = map (λ x. mul x engine.capital) returns in
      let gains : length pnl ≡ length p = length-map _ returns ∙ many in
      let ledger : Ledger F = record {
        returns = returns;
        pnl = pnl;
        equity_curve = map (add engine.capital) (cumsum pnl);
        positions = xs;
        n_trades = changes nought xs;
      } in
      (
        record { ledger = ledger; metrics = engine.compute_metrics ledger; params = params },
        s',
        rw (e, e'),
        size,
        many,
        gains,
        length-map _ (cumsum pnl) ∙ laws.lengths pnl ∙ gains,
        refl,
      )

  -- If the strategy raises at some period, such as the `LookAheadError` of its view, the whole run
  -- raises that.
  pub run_propagates :
      (engine : BacktestEngine F M) (p : List F) (strategy : Strategy S F) (params : P) (s : S)
      (t : ℕ) (x : Exception) {xs : List F} {s' : S}
      → t < length p
      → positions_from p strategy 0 t s ≡ ok (xs, s')
      → strategy s' (view (record { series = p; t = t })) ≡ err x
      → run cumsum engine p strategy params s ≡ err x
  unfolding run
  run_propagates engine p strategy params s t x {xs} {s'} h e raises =
      let count : length p ≡ t + suc (length p - t - 1) = omega arith in
      let stop = positions_from_raises p strategy t (length p - t - 1) s s' xs x h e raises in
      let stopped : positions_from p strategy 0 (length p) s ≡ err x = rw (← count) at stop in
      rw stopped
