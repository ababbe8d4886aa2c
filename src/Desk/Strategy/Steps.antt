-- ===== src/Desk/Strategy/Steps.antt =====
-- projects/10_portfolio_execution/src/desk.py, `DeskStrategy.signal`: one call under the engine.
use compute_quant_lab.Prelude.{
  ℕ, zero, suc, ◌+◌, ◌-◌, ◌≡◌, ◌≢◌, ◌≤◌, ◌∙◌, refl, sym, ap, inl, inr, true, false, List, [], ◌∷◌,
  ◌++◌, All, All-append, All-drop, Bool-cases, eqb, ltb, length, length-map, length-replicate,
  length-drop, length-append, map, drop, All-get_elem?, if◌then◌else◌, arith,
}
use mathlib.Core.Path.{subst}
use compute_quant_lab.Prelude.Float.{Float, IsOrdered, feq, nought, unit, ◌≼◌}
use compute_quant_lab.Prelude.Int.{pos, ◌-ℤ◌}
use compute_quant_lab.Prelude.Result.{ok}
use compute_quant_lab.Backtest.Guards
use compute_quant_lab.Backtest.Guards.{
  GuardedView, PointInTimeView, view, make-ok, view-ok, at_guarded,
}
use compute_quant_lab.Backtest.Loop.{market_return}
use compute_quant_lab.Desk.Portfolio.{
  Numpy, IsSigned, IsWithin, IsAllocation, capped, capped-IsWithin, floored, weights, net_position,
  zip_with,
}
use compute_quant_lab.Desk.Strategy.{
  SignalProducer, DeskStrategy, DeskState, DeskHistory, ask, reset, observed_return, open_period,
  estimate_vols, scale_of, book, signal, history,
}

-- numpy's deviation of a window of rows has an entry for each column.
abbrev pub IsColumnStd : {F : Type 0} → Numpy F → Type 0
IsColumnStd {F} numpy =
    (k : ℕ) (rows : List (List F))
    → All (λ r. length r ≡ k) rows
    → 1 ≤ length rows
    → length (numpy.column_std rows) ≡ k

before_at : (n t : ℕ) → n ≡ suc t → pos n -ℤ pos 1 ≡ pos t
unfolding ◌-ℤ◌
before_at n t h = ground arith

module _ {S F : Type 0} where
  -- Whatever state it is in, the producer answers at each instant of the series.
  abbrev pub Answers : List F → SignalProducer S F → Type 0
  Answers prices p =
      (s : S) (t : ℕ) (v : GuardedView F)
      → Guards.make prices (pos t) ≡ ok v
      → (r : F × S) × (p.signal s (view v) ≡ ok r)

  abbrev pub AllAnswer : List F → List (SignalProducer S F × S) → Type 0
  AllAnswer prices producers = All (λ held. Answers prices held.0) producers

  ask-ok :
      (prices : List F) (producers : List (SignalProducer S F × S)) (t : ℕ) (v : GuardedView F)
      → AllAnswer prices producers
      → Guards.make prices (pos t) ≡ ok v
      → (xs : List F) × (producers' : List (SignalProducer S F × S)) × (ask (view v) producers
          ≡ ok (xs, producers'))
        × (length xs ≡ length producers)
        × (length producers' ≡ length producers)
        × AllAnswer prices producers'
  unfolding ask
  ask-ok prices [] t v h made = ([], [], refl, refl, refl, tt)
  ask-ok prices ((p, s) ∷ producers) t v (h, hs) made =
      let ((x, s'), e) = h s t v made in
      let (xs, producers', e', n, n', hs') = ask-ok prices producers t v hs made in
      (x ∷ xs, (p, s') ∷ producers', rw (e, e') refl, ap suc n, ap suc n', (h, hs'))

  -- The desk holds as many values as it has producers, and they answer.
  pub record IsReady (prices : List F) (state : DeskState S F) : Type 0 where
    pub answer : AllAnswer prices state.producers
    pub held : length state.prev_signals ≡ length state.producers
    pub rows : All (λ r. length r ≡ length state.producers) state.returns_buffer

module _ {S F : Type 0} ⦃float : Float F⦄ where
  -- The state that a call at `t` starts from.
  abbrev pub begun : ℕ → DeskState S F → DeskState S F
  begun t state = if eqb t 0 then reset state.producers else state

  pub begun_later : (t : ℕ) (state : DeskState S F) → t ≢ 0 → begun t state ≡ state
  begun_later t state h = ground arith

  pub reset-IsReady :
      (prices : List F) (producers : List (SignalProducer S F × S))
      → AllAnswer prices producers
      → IsReady prices (reset producers)
  reset-IsReady prices producers h = record {
    answer = h;
    held = length-replicate (length producers) nought;
    rows = tt;
  }

  pub open_first :
      (state : DeskState S F) (v : PointInTimeView F)
      → v.t ≡ 0
      → open_period v state ≡ ok (nought, reset state.producers)
  unfolding open_period
  open_first state v first = rw first refl

module _ {F : Type 0} ⦃float : Float F⦄ where
  abbrev pub AllNonzero : List F → Type 0
  AllNonzero prices = All (λ x. feq x nought ≡ false) prices

  observed_return-ok :
      (prices : List F) (t : ℕ) (v : GuardedView F)
      → AllNonzero prices
      → Guards.make prices (pos (suc t)) ≡ ok v
      → (m : F) × (observed_return (view v) ≡ ok m) × (market_return prices (suc t) ≡ ok m)
  unfolding view observed_return
  observed_return-ok prices t v h made =
      let (x, e, now, _, last) = view-ok prices (suc t) made in
      let (y, e', before) = (at_guarded prices (suc t) t made).0 (omega arith) in
      let index : Guards.at v (pos v.t -ℤ pos 1) ≡ ok y = rw (before_at v.t t now) before in
      let nonzero : feq y nought ≡ false =
        All-get_elem? (λ x. feq x nought ≡ false) prices t y h e' in
      (float.sub (float.div x y) unit, rw (last, index, nonzero) refl, rw (e, e') refl)

module _ {S F : Type 0} ⦃float : Float F⦄ where
  -- The opening of a period books nothing, and gives the market return of the period.
  open_period-ok :
      (prices : List F) (t : ℕ) (v : GuardedView F) (state : DeskState S F)
      → AllNonzero prices
      → Guards.make prices (pos t) ≡ ok v
      → IsReady prices (begun t state)
      → (m : F) × (opened : DeskState S F) × (open_period (view v) state ≡ ok (m, opened))
        × (market_return prices t ≡ ok m)
        × IsReady prices opened
        × (history opened ≡ history (begun t state))
  unfolding open_period
  open_period-ok prices zero v state h made ready =
      let (_, _, now, _, _) = view-ok prices 0 made in
      (nought, reset state.producers, rw now refl, refl, ready, refl)
  open_period-ok prices (suc t) v state h made ready =
      let (_, _, now, _, _) = view-ok prices (suc t) made in
      let (m, e, e') = observed_return-ok prices t v h made in
      let later : begun (suc t) state ≡ state = begun_later (suc t) state (ground arith) in
      let first : eqb (view v).t 0 ≡ false = ground (arith, now) in
      let held : IsReady prices state = subst (IsReady prices) later ready in
      let row = map (λ s. float.mul s m) state.prev_signals in
      (
        m,
        record state { returns_buffer = state.returns_buffer ++ (row ∷ []) },
        rw (first, e) refl,
        e',
        record {
          answer = held.answer;
          held = held.held;
          rows =
              All-append (λ r. length r ≡ length state.producers) state.returns_buffer (row ∷ [])
                held.rows (length-map (λ s. float.mul s m) state.prev_signals ∙ held.held, tt);
        },
        ap history (sym later),
      )

module _ {S F : Type 0} ⦃float : Float F⦄ (numpy : Numpy F) (std : IsColumnStd numpy) where
  length-estimate_vols :
      (prices : List F) (self : DeskStrategy F) (state : DeskState S F)
      → 2 ≤ self.vol_lookback
      → IsReady prices state
      → length (estimate_vols numpy self state) ≡ length state.producers
  unfolding estimate_vols
  length-estimate_vols prices self state h ready =
      let rows = state.returns_buffer in
      elim (Bool-cases (ltb (length rows) 2)) [
        | inl few ↦ rw few (length-replicate (length state.producers) unit)
        | inr many ↦
            let kept = length rows - self.vol_lookback in
            rw many (
              std (length state.producers) (drop kept rows)
                (All-drop (λ r. length r ≡ length state.producers) kept rows ready.rows)
                (ground (arith, length-drop kept rows)))
      ]

  -- What a call at `t` gives, from a state that is ready.
  pub record IsStep (prices : List F) (t : ℕ) (self : DeskStrategy F) (state : DeskState S F)
      (position move : F) (state' : DeskState S F) : Type 0 where
    pub ready : IsReady prices state'
    pub limited : IsWithin self.constructor position
    pub moved : market_return prices t ≡ ok move
    pub positions : state'.rec_positions ≡ (begun t state).rec_positions ++ (position ∷ [])
    pub mkt : state'.rec_mkt ≡ (begun t state).rec_mkt ++ (move ∷ [])
    pub signals : length state'.rec_signals ≡ length (begun t state).rec_signals + 1
    pub weighted : length state'.rec_weights ≡ length (begun t state).rec_weights + 1
    pub components : length state'.rec_components ≡ length (begun t state).rec_components + 1

  module _ (laws : IsOrdered F) (signed : IsSigned F) where
    pub signal-ok :
        (prices : List F) (t : ℕ) (v : GuardedView F) (self : DeskStrategy F)
        (state : DeskState S F)
        → AllNonzero prices
        → nought {F = F} ≼ self.constructor.gross_cap
        → IsAllocation self.constructor.scheme
        → 2 ≤ self.vol_lookback
        → Guards.make prices (pos t) ≡ ok v
        → IsReady prices (begun t state)
        → (position move : F) × (state' : DeskState S F) × (signal numpy self state (view v)
            ≡ ok (position, state'))
          × IsStep prices t self state position move state'
    unfolding signal weights net_position
    signal-ok prices t v self state h positive scheme lookback made ready =
        let (m, opened, e, moved, r, same) = open_period-ok prices t v state h made ready in
        let (xs, producers', e', n, n', answer) =
          ask-ok prices opened.producers t v r.answer made in
        let vols = estimate_vols numpy self opened in
        let (ws, e'', size) = scheme (floored self.constructor vols) in
        let raw = numpy.dot ws xs in
        let position = capped self.constructor raw in
        let counted : length ws ≡ length xs =
          size ∙ length-map _ vols ∙ length-estimate_vols prices self opened lookback r ∙ sym n in
        let matched : eqb (length ws) (length xs) ≡ true = ground (arith, counted) in
        let components =
          map (λ c. float.mul c (scale_of position raw)) (zip_with float.mul ws xs) in
        (
          position,
          m,
          book m xs ws components position (record opened { producers = producers' }),
          rw (e, e', e'', matched) refl,
          record {
            ready = record {
              answer = answer;
              held = n ∙ sym n';
              rows = subst (λ k. All (λ row. length row ≡ k) opened.returns_buffer) (sym n') r.rows;
            };
            limited = capped-IsWithin laws signed self.constructor raw positive;
            moved = moved;
            positions = ap (λ (d : DeskHistory F). d.positions ++ (position ∷ [])) same;
            mkt = ap (λ (d : DeskHistory F). d.mkt_returns ++ (m ∷ [])) same;
            signals =
                length-append opened.rec_signals (xs ∷ [])
                ∙ ap (λ (d : DeskHistory F). length d.signals + 1) same;
            weighted =
                length-append opened.rec_weights (ws ∷ [])
                ∙ ap (λ (d : DeskHistory F). length d.weights + 1) same;
            components =
                length-append opened.rec_components (components ∷ [])
                ∙ ap (λ (d : DeskHistory F). length d.components + 1) same;
          },
        )
