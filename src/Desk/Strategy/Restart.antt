-- ===== src/Desk/Strategy/Restart.antt =====
-- projects/10_portfolio_execution/src/desk.py: "state is reset at `t == 0`".
use compute_quant_lab.Prelude.{◌≡◌, refl, ap, suc, List, [], ◌∷◌, length, arith}
use compute_quant_lab.Prelude.Float.{Float}
use compute_quant_lab.Backtest.Guards.{PointInTimeView, view, make-ok, view-ok}
use compute_quant_lab.Backtest.Engine.{positions_from, generate_positions}
use compute_quant_lab.Desk.Portfolio.{Numpy}
use compute_quant_lab.Desk.Strategy.{
  SignalProducer, DeskStrategy, DeskState, ask, estimate_vols, signal,
}
use compute_quant_lab.Desk.Strategy.Steps.{open_first}

module _ {S F : Type 0} where
  -- The same producers, each in a state from which its first answer of a run is the same.
  abbrev pub Restart : List (SignalProducer S F × S) → List (SignalProducer S F × S) → Type 0
  Restart [] [] = Unit
  Restart [] (q ∷ qs) = ⊥
  Restart (p ∷ ps) [] = ⊥
  Restart ((p, s) ∷ ps) ((q, s') ∷ qs) =
      (p ≡ q) × ((v : PointInTimeView F) → v.t ≡ 0 → p.signal s v ≡ p.signal s' v) × Restart ps qs

  Restart-length : (ps qs : List (SignalProducer S F × S)) → Restart ps qs → length ps ≡ length qs
  Restart-length [] [] h = refl
  Restart-length [] (q ∷ qs) h = absurd h
  Restart-length (p ∷ ps) [] h = absurd h
  Restart-length ((p, s) ∷ ps) ((q, s') ∷ qs) (_, _, h) = ap suc (Restart-length ps qs h)

  ask-Restart :
      (ps qs : List (SignalProducer S F × S)) (v : PointInTimeView F)
      → v.t ≡ 0
      → Restart ps qs
      → ask v ps ≡ ask v qs
  unfolding ask
  ask-Restart [] [] v first h = refl
  ask-Restart [] (q ∷ qs) v first h = absurd h
  ask-Restart (p ∷ ps) [] v first h = absurd h
  ask-Restart ((p, s) ∷ ps) ((q, s') ∷ qs) v first (same, h, hs) =
      rw⁻¹ same (rw (h v first, ask-Restart ps qs v first hs) refl)

module _ {S F : Type 0} ⦃float : Float F⦄ (numpy : Numpy F) where
  signal-Restart :
      (self : DeskStrategy F) (state state' : DeskState S F) (v : PointInTimeView F)
      → v.t ≡ 0
      → Restart state.producers state'.producers
      → signal numpy self state v ≡ signal numpy self state' v
  unfolding signal estimate_vols
  signal-Restart self state state' v first h =
      rw
        (
          open_first state v first,
          open_first state' v first,
          ask-Restart state.producers state'.producers v first h,
          Restart-length state.producers state'.producers h,
        )
        refl

  -- Two runs of a desk over one series with at least one price give the same positions and leave
  -- the same state, errors included, whatever the desk recorded before, if its producers too
  -- begin a run with an answer that does not depend on an earlier one.
  pub generate_positions-Restart :
      (self : DeskStrategy F) (x : F) (xs : List F) (state state' : DeskState S F)
      → Restart state.producers state'.producers
      → generate_positions (x ∷ xs) (signal numpy self) state
        ≡ generate_positions (x ∷ xs) (signal numpy self) state'
  unfolding generate_positions positions_from
  generate_positions-Restart self x xs state state' h =
      let (v, made, whole, first) = make-ok (x ∷ xs) 0 (omega arith) in
      let (y, e, now, seen, last) = view-ok (x ∷ xs) 0 made in
      rw (made, signal-Restart self state state' (view v) now h) refl
