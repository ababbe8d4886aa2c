-- ===== src/Desk/Strategy/History.antt =====
-- projects/10_portfolio_execution/src/desk.py under core/backtest/engine.py: whole runs of a desk.
use compute_quant_lab.Prelude.{
  ℕ, zero, suc, ◌+◌, ◌≡◌, ◌≤◌, ◌∙◌, refl, sym, ap, Option, List, [], ◌∷◌, ◌++◌, All, length, arith,
}
use mathlib.Core.Path.{subst}
use native.Mathlib.Nat.{zero-add}
use mathlib.Core.List.{append_assoc, append-nil}
use compute_quant_lab.Prelude.Float.{Float, IsOrdered, nought, ◌≼◌}
use compute_quant_lab.Prelude.Int.{ℤ}
use compute_quant_lab.Prelude.Result.{ok}
use compute_quant_lab.Backtest.Guards.{make-ok}
use compute_quant_lab.Backtest.Loop.{market_return}
use compute_quant_lab.Backtest.Engine.{positions_from, generate_positions}
use compute_quant_lab.Desk.Portfolio
use compute_quant_lab.Desk.Portfolio.{
  Numpy, WeightScheme, PortfolioConstructor, IsSigned, IsWithin, IsAllocation, make-capped,
}
use compute_quant_lab.Desk.Strategy
use compute_quant_lab.Desk.Strategy.{
  SignalProducer, DeskStrategy, DeskState, reset, signal, history,
}
use compute_quant_lab.Desk.Strategy.Steps.{
  IsColumnStd, AllAnswer, AllNonzero, IsReady, reset-IsReady, begun, begun_later, IsStep, signal-ok,
}

-- The market returns of the periods from `t` on.
abbrev pub IsMoves : {F : Type 0} ⦃float : Float F⦄ → List F → ℕ → List F → Type 0
IsMoves prices t [] = Unit
IsMoves prices t (m ∷ ms) = (market_return prices t ≡ ok m) × IsMoves prices (t + 1) ms

module _ {S F : Type 0} ⦃float : Float F⦄ (numpy : Numpy F) (std : IsColumnStd numpy)
    (laws : IsOrdered F) (signed : IsSigned F) where
  -- What the rounds from `t` on add to the records.
  pub record IsRecorded (prices : List F) (t : ℕ) (self : DeskStrategy F) (old new : DeskState S F)
      (ps ms : List F) : Type 0 where
    pub within : All (IsWithin self.constructor) ps
    pub moves : IsMoves prices t ms
    pub positions : new.rec_positions ≡ old.rec_positions ++ ps
    pub mkt : new.rec_mkt ≡ old.rec_mkt ++ ms
    pub n_moves : length ms ≡ length ps
    pub n_signals : length new.rec_signals ≡ length old.rec_signals + length ps
    pub n_weights : length new.rec_weights ≡ length old.rec_weights + length ps
    pub n_components : length new.rec_components ≡ length old.rec_components + length ps

  IsRecorded-nothing :
      (prices : List F) (t : ℕ) (self : DeskStrategy F) (state : DeskState S F)
      → IsRecorded prices t self state state [] []
  IsRecorded-nothing prices t self state = record {
    within = tt;
    moves = tt;
    positions = sym (append-nil state.rec_positions);
    mkt = sym (append-nil state.rec_mkt);
    n_moves = refl;
    n_signals = omega arith;
    n_weights = omega arith;
    n_components = omega arith;
  }

  IsRecorded-step :
      (prices : List F) (t : ℕ) (self : DeskStrategy F) (state s₁ s₂ : DeskState S F) (p m : F)
      (ps ms : List F)
      → IsStep numpy std prices t self state p m s₁
      → IsRecorded prices (t + 1) self s₁ s₂ ps ms
      → IsRecorded prices t self (begun t state) s₂ (p ∷ ps) (m ∷ ms)
  IsRecorded-step prices t self state s₁ s₂ p m ps ms step rest = record {
    within = (step.limited, rest.within);
    moves = (step.moved, rest.moves);
    positions =
        rest.positions
        ∙ ap (λ l. l ++ ps) step.positions
        ∙ append_assoc (begun t state).rec_positions (p ∷ []) ps;
    mkt = rest.mkt ∙ ap (λ l. l ++ ms) step.mkt ∙ append_assoc (begun t state).rec_mkt (m ∷ []) ms;
    n_moves = ap suc rest.n_moves;
    n_signals = omega (arith, rest.n_signals, step.signals);
    n_weights = omega (arith, rest.n_weights, step.weighted);
    n_components = omega (arith, rest.n_components, step.components);
  }

  rounds-IsRecorded :
      (prices : List F) (left t : ℕ) (self : DeskStrategy F) (state : DeskState S F)
      → AllNonzero prices
      → nought {F = F} ≼ self.constructor.gross_cap
      → IsAllocation self.constructor.scheme
      → 2 ≤ self.vol_lookback
      → t + left ≤ length prices
      → 1 ≤ t + left
      → IsReady prices (begun t state)
      → (ps ms : List F) × (state' : DeskState S F) × (positions_from prices
            (signal numpy self)
            t
            left
            state
          ≡ ok (ps, state'))
        × (length ps ≡ left)
        × IsRecorded prices t self (begun t state) state' ps ms
  unfolding positions_from
  rounds-IsRecorded prices zero t self state h positive scheme lookback inside some_round ready = (
    [],
    [],
    state,
    refl,
    refl,
    subst (λ s. IsRecorded prices t self s state [] []) (sym (begun_later t state (omega arith)))
        (IsRecorded-nothing prices t self state),
  )
  rounds-IsRecorded prices (suc left) t self state h positive scheme lookback inside some_round
        ready =
      let (v, made, _, _) = make-ok prices t (omega arith) in
      let (p, m, s₁, e, step) =
        signal-ok numpy std laws signed prices t v self state h positive scheme lookback made
          ready in
      let later : begun (t + 1) s₁ ≡ s₁ = begun_later (t + 1) s₁ (omega arith) in
      let (ps, ms, s₂, e', n, rest) =
        rounds-IsRecorded prices left (t + 1) self s₁ h positive scheme lookback (omega arith)
          (omega arith) (subst (IsReady prices) (sym later) step.ready) in
      let rest' = subst (λ s. IsRecorded prices (t + 1) self s s₂ ps ms) later rest in
      (
        p ∷ ps,
        m ∷ ms,
        s₂,
        rw (made, e, e') refl,
        ap suc n,
        IsRecorded-step prices t self state s₁ s₂ p m ps ms step rest',
      )

  -- A desk is made of a constructor with its limits and of producers that answer at each instant
  -- of the series, by a scheme with a weight for each volatility. Whatever an earlier run left, it
  -- runs over a series of prices other than zero, of which there is at least one: the run
  -- succeeds with a position for each price, all between `-gross_cap` and `gross_cap`. The history
  -- is of this run alone: its positions are those of the run, its market returns those of the
  -- prices, and it has as many signals, weights and components.
  pub generate_positions-history :
      (prices : List F) (scheme : Option (WeightScheme F)) (vol_floor gross_cap : F)
      (vol_lookback : ℤ) (producers : List (SignalProducer S F × S)) (state : DeskState S F)
      {constructor : PortfolioConstructor F} {desk : DeskStrategy F} {fresh : DeskState S F}
      → Portfolio.make numpy scheme vol_floor gross_cap ≡ ok constructor
      → Strategy.make producers constructor vol_lookback ≡ ok (desk, fresh)
      → IsAllocation constructor.scheme
      → AllAnswer prices state.producers
      → AllNonzero prices
      → 1 ≤ length prices
      → (ps : List F) × (state' : DeskState S F) × (generate_positions prices
            (signal numpy desk)
            state
          ≡ ok (ps, state'))
        × (length ps ≡ length prices)
        × All (IsWithin constructor) ps
        × ((history state').positions ≡ ps)
        × IsMoves prices 0 (history state').mkt_returns
        × (length (history state').mkt_returns ≡ length prices)
        × (length (history state').signals ≡ length prices)
        × (length (history state').weights ≡ length prices)
        × (length (history state').components ≡ length prices)
  unfolding generate_positions Strategy.make
  generate_positions-history prices scheme vol_floor gross_cap vol_lookback producers state
        {constructor} {desk} c d allocation answer nonzero some_price =
      let positive = make-capped laws numpy scheme vol_floor gross_cap c in
      let same : desk.constructor ≡ constructor = ground (arith, d) in
      let lookback : 2 ≤ desk.vol_lookback = ground (arith, d) in
      let (ps, ms, s', run, n, r) =
        rounds-IsRecorded prices (length prices) 0 desk state nonzero (rw same positive)
          (rw same allocation) lookback (omega arith) (omega arith)
          (reset-IsReady prices state.producers answer) in
      (
        ps,
        s',
        run,
        n,
        subst (λ c. All (IsWithin c) ps) same r.within,
        r.positions,
        rw (r.mkt) (r.moves),
        rw (r.mkt) (r.n_moves ∙ n),
        rw (r.n_signals, zero-add) n,
        rw (r.n_weights, zero-add) n,
        rw (r.n_components, zero-add) n,
      )
