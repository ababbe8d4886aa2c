-- ===== src/Desk/Mocks.antt =====
-- projects/10_portfolio_execution/src/signals.py: the stateless producers. The mean and the sample
-- deviation of a numpy array are parameters; `_clip_unit` is `clip_unit` of core/signals.
use Prim.Native.String.{String}
use compute_quant_lab.Prelude.{
  ℕ, ◌≡◌, refl, true, Option, none, some, List, length, ltb, arith, Bool-cases, inl, inr,
  if◌then◌else◌,
}
use compute_quant_lab.Prelude.Float.{Float, nought, neg, feq}
use compute_quant_lab.Prelude.Int.{ℤ, pos, ltb_ℤ, pos_part}
use compute_quant_lab.Prelude.Result.{Result, ok, ◌>>=◌, ◌>>◌, raise_if, value_error}
use compute_quant_lab.Backtest.Guards.{PointInTimeView, view, view-ok}
use compute_quant_lab.Backtest.Engine.{Strategy}
use compute_quant_lab.Signals.{clip_unit}
use compute_quant_lab.Signals.MeanReversion.{latest_values}
use compute_quant_lab.Desk.Strategy.{SignalProducer}
use compute_quant_lab.Desk.Strategy.Steps.{Answers}

module _ {F : Type 0} ⦃float : Float F⦄ where
  -- A view of the score; no score is neutral.
  abbrev pub view_of : (F → F) → Option F → F
  view_of direction none = nought
  view_of direction (some z) = clip_unit (direction z)

module _ {F : Type 0} ⦃float : Float F⦄ (mean std : List F → F) where
  unfoldable pub zscore : PointInTimeView F → ℕ → Result (Option F)
  zscore v lookback =
      let recent = latest_values lookback v.history in
      let deviation = std recent in
      if ltb (length v.history) lookback
      then ok none
      else if feq deviation nought
      then ok none
      else do now ← v.latest; ok (some (float.div (float.sub now (mean recent)) deviation))

module _ {S F : Type 0} ⦃float : Float F⦄ where
  abbrev pub constant_mock : F → String → SignalProducer S F
  constant_mock value name = record {
    name = name;
    provenance = record { name = name; simulated = true };
    signal = λ s v. ok (clip_unit value, s);
  }

module _ {S F : Type 0} ⦃float : Float F⦄ (mean std : List F → F) where
  -- `signal` of the two mocks that follow, or fade, the score.
  unfoldable pub score_signal : (F → F) → ℕ → Strategy S F
  score_signal direction lookback s v = do
    z ← zscore mean std v lookback
    ok (view_of direction z, s)

  abbrev score_mock : (F → F) → ℤ → String → Result (SignalProducer S F)
  score_mock direction lookback name = do
    raise_if (ltb_ℤ lookback (pos 2)) value_error
    ok (record {
      name = name;
      provenance = record { name = name; simulated = true };
      signal = score_signal direction (pos_part lookback);
    })

  unfoldable pub mean_reversion_mock : ℤ → String → Result (SignalProducer S F)
  mean_reversion_mock = score_mock neg

  unfoldable pub momentum_mock : ℤ → String → Result (SignalProducer S F)
  momentum_mock = score_mock (λ z. z)

  score_signal-answers :
      (direction : F → F) (lookback : ℕ) (s : S) (v : PointInTimeView F) (x : F)
      → v.latest ≡ ok x
      → (r : F × S) × (score_signal direction lookback s v ≡ ok r)
  unfolding score_signal zscore
  score_signal-answers direction lookback s v x now =
      let recent = latest_values lookback v.history in
      elim (Bool-cases (ltb (length v.history) lookback)) [
        | inl short ↦ ((nought, s), rw short refl)
        | inr long ↦ elim (Bool-cases (feq (std recent) nought)) [
          | inl flat ↦ ((nought, s), rw (long, flat) refl)
          | inr varies ↦ (
            (clip_unit (direction (float.div (float.sub x (mean recent)) (std recent))), s),
            rw (long, varies, now) refl,
          )
        ]
      ]

  pub momentum_mock-Answers :
      (lookback : ℤ) (name : String) (prices : List F) {p : SignalProducer S F}
      → momentum_mock lookback name ≡ ok p
      → Answers prices p
  unfolding momentum_mock
  momentum_mock-Answers lookback name prices {p} made s t v m =
      let (x, _, _, _, last) = view-ok prices t m in
      let same : p.signal ≡ score_signal (λ z. z) (pos_part lookback) = ground (arith, made) in
      rw same (score_signal-answers (λ z. z) (pos_part lookback) s (view v) x last)
