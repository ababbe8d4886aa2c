-- ===== src/Desk/Strategy.antt =====
-- projects/10_portfolio_execution/src/desk.py, `DeskStrategy`. The producers are objects with a state
-- of their own, so the desk holds each with its state; a run resets what the desk itself keeps.
pub mod Steps
pub mod History
pub mod Restart
use Prim.Native.String.{String}
use compute_quant_lab.Prelude.{
  ℕ, ◌-◌, Bool, none, some, List, [], ◌∷◌, ◌++◌, length, map, replicate, drop, eqb, ltb,
  if◌then◌else◌,
}
use compute_quant_lab.Prelude.Float.{Float, nought, unit, feq}
use compute_quant_lab.Prelude.Int.{ℤ, pos, ◌-ℤ◌, ltb_ℤ, pos_part}
use compute_quant_lab.Prelude.Result.{
  Result, ok, err, ◌>>=◌, ◌>>◌, raise_if, value_error, zero_division_error,
}
use compute_quant_lab.Backtest.Guards.{PointInTimeView}
use compute_quant_lab.Backtest.Engine.{Strategy}
use compute_quant_lab.Signals.{SignalProvenance}
use compute_quant_lab.Desk.Portfolio.{Numpy, PortfolioConstructor, weights, net_position, zip_with}

pub record SignalProducer (S F : Type 0) : Type 0 where
  pub name : String
  pub provenance : SignalProvenance
  pub signal : Strategy S F

pub record DeskStrategy (F : Type 0) : Type 0 where
  pub constructor : PortfolioConstructor F
  pub vol_lookback : ℕ

pub record DeskState (S F : Type 0) : Type 0 where
  pub producers : List (SignalProducer S F × S)
  pub prev_signals : List F
  pub returns_buffer : List (List F)
  pub rec_mkt : List F
  pub rec_signals : List (List F)
  pub rec_weights : List (List F)
  pub rec_components : List (List F)
  pub rec_positions : List F

pub record DeskHistory (F : Type 0) : Type 0 where
  pub mkt_returns : List F
  pub signals : List (List F)
  pub weights : List (List F)
  pub components : List (List F)
  pub positions : List F

-- `history`
abbrev pub history : {S F : Type 0} → DeskState S F → DeskHistory F
history state = record {
  mkt_returns = state.rec_mkt;
  signals = state.rec_signals;
  weights = state.rec_weights;
  components = state.rec_components;
  positions = state.rec_positions;
}

module _ {S F : Type 0} where
  -- `_record`, and the signals that are kept for the next call.
  abbrev pub book : F → List F → List F → List F → F → DeskState S F → DeskState S F
  book mkt_ret signals ws components position state = record state {
    prev_signals = signals;
    rec_mkt = state.rec_mkt ++ (mkt_ret ∷ []);
    rec_signals = state.rec_signals ++ (signals ∷ []);
    rec_weights = state.rec_weights ++ (ws ∷ []);
    rec_components = state.rec_components ++ (components ∷ []);
    rec_positions = state.rec_positions ++ (position ∷ []);
  }

  -- `[p.signal(view) for p in producers]`
  unfoldable pub ask :
      PointInTimeView F
      → List (SignalProducer S F × S)
      → Result (List F × List (SignalProducer S F × S))
  ask v [] = ok ([], [])
  ask v ((p, s) ∷ producers) = do
    (x, s') ← p.signal s v
    (xs, producers') ← ask v producers
    ok (x ∷ xs, (p, s') ∷ producers')

module _ {S F : Type 0} ⦃float : Float F⦄ where
  abbrev pub reset : List (SignalProducer S F × S) → DeskState S F
  reset producers = record {
    producers = producers;
    prev_signals = replicate (length producers) nought;
    returns_buffer = [];
    rec_mkt = [];
    rec_signals = [];
    rec_weights = [];
    rec_components = [];
    rec_positions = [];
  }

  -- `DeskStrategy.__init__`
  unfoldable pub make :
      List (SignalProducer S F × S)
      → PortfolioConstructor F
      → ℤ
      → Result (DeskStrategy F × DeskState S F)
  make producers constructor vol_lookback = do
    raise_if (eqb (length producers) 0) value_error
    raise_if (ltb_ℤ vol_lookback (pos 2)) value_error
    ok (record { constructor = constructor; vol_lookback = pos_part vol_lookback }, reset producers)

module _ {F : Type 0} ⦃float : Float F⦄ where
  -- The market return since the last instant, where a price of zero is a `ZeroDivisionError`.
  unfoldable pub observed_return : PointInTimeView F → Result F
  observed_return v = do
    now ← v.latest
    before ← v.at (pos v.t -ℤ pos 1)
    raise_if (feq before nought) zero_division_error
    ok (float.sub (float.div now before) unit)

  -- `position / raw if raw != 0.0 else 0.0`
  abbrev pub scale_of : F → F → F
  scale_of position raw = if feq raw nought then nought else float.div position raw

module _ {S F : Type 0} ⦃float : Float F⦄ where
  -- What a call does first: the market return, and the state with it.
  unfoldable pub open_period : PointInTimeView F → DeskState S F → Result (F × DeskState S F)
  open_period v state = if eqb v.t 0 then ok (nought, reset state.producers) else do
    mkt_ret ← observed_return v
    ok (
      mkt_ret,
      record state {
        returns_buffer =
            state.returns_buffer ++ (map (λ s. float.mul s mkt_ret) state.prev_signals ∷ []);
      },
    )

module _ {S F : Type 0} ⦃float : Float F⦄ (numpy : Numpy F) where
  unfoldable pub estimate_vols : DeskStrategy F → DeskState S F → List F
  estimate_vols self state =
      let rows = state.returns_buffer in
      if ltb (length rows) 2
      then replicate (length state.producers) unit
      else numpy.column_std (drop (length rows - self.vol_lookback) rows)

  unfoldable pub signal : DeskStrategy F → Strategy (DeskState S F) F
  signal self state v = do
    (mkt_ret, opened) ← open_period v state
    (current, producers') ← ask v opened.producers
    ws ← weights numpy self.constructor (estimate_vols self opened) none
    position ← net_position numpy self.constructor ws current
    let scale = scale_of position (numpy.dot ws current)
    let components = map (λ c. float.mul c scale) (zip_with float.mul ws current)
    ok (
      position,
      book mkt_ret current ws components position (record opened { producers = producers' }),
    )
