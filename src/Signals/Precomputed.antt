-- ===== src/Signals/Precomputed.antt =====
-- core/models/strategy.py, `PrecomputedSignalStrategy`, and core/signals/ml.py, `MLEnsembleSignal`,
-- which delegates to it. A NaN in the probabilities is `none`.
use Prim.Native.String.{String}
use compute_quant_lab.Prelude.{
  ℕ, zero, suc, ◌+◌, ◌≡◌, ◌≤◌, refl, Bool, not, ◌&&◌, Option, none, some, List, map, take, drop,
  length, get_elem?, get_elem?-lt, drop-get_elem?, arith, if◌then◌else◌,
}
use compute_quant_lab.Prelude.Float.{Float, nought, unit, neg, lt}
use compute_quant_lab.Prelude.Result.{
  Result, ok, ◌>>=◌, ◌>>◌, raise_if, or_raise, value_error, index_error,
}
use compute_quant_lab.Signals.{SignalProvenance}
use compute_quant_lab.Backtest.Guards.{PointInTimeView, make-ok, view}
use compute_quant_lab.Backtest.Engine.{positions_from, generate_positions}

pub record PrecomputedSignalStrategy (F : Type 0) : Type 0 where
  pub proba : List (Option F)
  pub neutral_band : F

pub record MlEnsembleSignal (F : Type 0) : Type 0 where
  pub strategy : PrecomputedSignalStrategy F
  pub name : String
  pub provenance : SignalProvenance

module _ {F : Type 0} ⦃float : Float F⦄ where
  -- 0.5
  abbrev pub indifference : F
  indifference = float.div unit (float.of_nat 2)

  unfoldable pub make : List (Option F) → F → Result (PrecomputedSignalStrategy F)
  make proba neutral_band = do
    raise_if (not (float.le nought neutral_band && lt neutral_band indifference)) value_error
    ok (record { proba = proba; neutral_band = neutral_band })

  unfoldable pub to_position : PrecomputedSignalStrategy F → F → F
  to_position self p =
      if lt (float.add indifference self.neutral_band) p
      then unit
      else if lt p (float.sub indifference self.neutral_band)
      then neg unit
      else nought

  -- The position for what stands in the array: flat for a NaN.
  abbrev pub position_of : PrecomputedSignalStrategy F → Option F → F
  position_of self none = nought
  position_of self (some p) = to_position self p

  -- The call changes no state `S`.
  unfoldable pub signal :
      {S : Type 0} → PrecomputedSignalStrategy F → S → PointInTimeView F → Result (F × S)
  signal self s view = do
    p ← or_raise (get_elem? self.proba view.t) index_error
    ok (position_of self p, s)

  -- `MLEnsembleSignal.__init__` and `signal`
  unfoldable pub make_ml : List (Option F) → F → String → Bool → Result (MlEnsembleSignal F)
  unfolding make
  make_ml proba neutral_band name simulated = do
    strategy ← make proba neutral_band
    ok (record {
      strategy = strategy;
      name = name;
      provenance = record { name = name; simulated = simulated };
    })

  unfoldable pub ml_signal :
      {S : Type 0} → MlEnsembleSignal F → S → PointInTimeView F → Result (F × S)
  unfolding signal
  ml_signal self = signal self.strategy

  module _ {S : Type 0} (self : PrecomputedSignalStrategy F) where
    positions_from_lem :
        (prices : List F) (left t : ℕ) (s : S)
        → t + left ≤ length prices
        → length prices ≤ length self.proba
        → positions_from prices (signal self) t left s
          ≡ ok (map (position_of self) (take left (drop t self.proba)), s)
    unfolding positions_from signal view
    positions_from_lem prices zero t s h enough = refl
    positions_from_lem prices (suc left) t s h enough =
        let (v, made, whole, now) = make-ok prices t (omega arith) in
        let (p, e) = get_elem?-lt self.proba t (omega arith) in
        let rest = positions_from_lem prices left (t + 1) s (omega arith) enough in
        rw (made, now, e, drop-get_elem? self.proba t p e, rest) refl

    -- A backtest of a precomputed signal with at least as many probabilities as there are
    -- prices never fails, keeps the state, and its positions are those of the probabilities, in
    -- order: they do not depend on the prices.
    pub generate_positions-precomputed :
        (prices : List F) (s : S)
        → length prices ≤ length self.proba
        → generate_positions prices (signal self) s
          ≡ ok (map (position_of self) (take (length prices) self.proba), s)
    unfolding generate_positions
    generate_positions-precomputed prices s h =
        positions_from_lem prices (length prices) 0 s (omega arith) h
