-- ===== src/Signals/MeanReversion.antt =====
-- core/signals/mean_reversion.py, `MeanReversionSignal`. The state is `self._position`; the mean and
-- the sample deviation of a numpy array are parameters.
use Prim.Native.String.{String}
use compute_quant_lab.Prelude.{
  ℕ, ◌-◌, ◌≡◌, ◌⊎◌, inl, inr, refl, Bool, true, false, not, List, drop, length, ltb, eqb,
  if◌then◌else◌, Bool-cases,
}
use compute_quant_lab.Prelude.Float.{Float, nought, unit, neg, abs, feq, lt, IsOrdered, eq_of_feq}
use compute_quant_lab.Prelude.Int.{ℤ, pos, ltb_ℤ, pos_part}
use compute_quant_lab.Prelude.Result.{Result, ok, ◌>>=◌, ◌>>◌, raise_if, value_error}
use compute_quant_lab.Backtest.Guards.{PointInTimeView}

pub record MeanReversionSignal (F : Type 0) : Type 0 where
  pub z_entry : F
  pub z_exit : F
  pub lookback : ℕ
  pub name : String
  pub simulated : Bool

module _ {F : Type 0} ⦃float : Float F⦄ where
  unfoldable pub make : F → F → ℤ → String → Bool → Result (MeanReversionSignal F × F)
  make z_entry z_exit lookback name simulated = do
    raise_if (not (lt z_exit z_entry)) value_error
    raise_if (ltb_ℤ lookback (pos 2)) value_error
    ok (
      record {
        z_entry = z_entry;
        z_exit = z_exit;
        lookback = pos_part lookback;
        name = name;
        simulated = simulated;
      },
      nought,
    )

  unfoldable pub decide : MeanReversionSignal F → F → F → F
  decide self z current_position =
      if feq current_position nought
      then (if float.le self.z_entry z
          then neg unit
          else if float.le z (neg self.z_entry)
          then unit
          else nought)
      else if float.le (abs z) self.z_exit
      then nought
      else current_position

  -- `history[-lookback:]`, with at least that many values.
  abbrev pub latest_values : ℕ → List F → List F
  latest_values lookback history = drop (length history - lookback) history

module _ {F : Type 0} ⦃float : Float F⦄ (mean std : List F → F) where
  unfoldable pub signal : MeanReversionSignal F → F → PointInTimeView F → Result (F × F)
  unfolding decide
  signal self kept view =
      let position = if eqb view.t 0 then nought else kept in
      let recent = latest_values self.lookback view.history in
      let deviation = std recent in
      if ltb (length view.history) self.lookback
      then ok (position, position)
      else if feq deviation nought
      then ok (position, position)
      else do
        now ← view.latest
        let z = float.div (float.sub now (mean recent)) deviation
        let target = decide self z position
        ok (target, target)

-- The three positions of the band.
abbrev pub IsPosition : {F : Type 0} ⦃float : Float F⦄ → F → Type 0
IsPosition p = (p ≡ neg unit) ⊎ ((p ≡ nought) ⊎ (p ≡ unit))

-- No step leads from one side to the other.
abbrev pub IsMove : {F : Type 0} ⦃float : Float F⦄ → F → F → Type 0
IsMove p q = (p ≡ nought) ⊎ ((q ≡ nought) ⊎ (q ≡ p))

module _ {F : Type 0} ⦃float : Float F⦄ (laws : IsOrdered F) where
  entered :
      (self : MeanReversionSignal F) (z : F)
      → IsPosition {F = F} (
          if float.le self.z_entry z
          then neg unit
          else if float.le z (neg self.z_entry)
          then unit
          else nought)
  entered self z = elim (Bool-cases (float.le self.z_entry z)) [
    | inl e ↦ rw e (inl refl)
    | inr e ↦ elim (Bool-cases (float.le z (neg self.z_entry))) [
      | inl e' ↦ rw (e, e') (inr (inr refl))
      | inr e' ↦ rw (e, e') (inr (inl refl))
    ]
  ]

  held :
      (out : Bool) (p : F)
      → IsPosition p
      → IsPosition {F = F} (if out then nought else p) × IsMove p (if out then nought else p)
  held true p h = (inr (inl refl), inr (inl refl))
  held false p h = (h, inr (inr refl))

  pub decide_lem :
      (self : MeanReversionSignal F) (z p : F)
      → IsPosition p
      → IsPosition (decide self z p) × IsMove p (decide self z p)
  unfolding decide
  decide_lem self z p h = elim (Bool-cases (feq p nought)) [
    | inl flat ↦ rw flat (entered self z, inl (eq_of_feq laws p nought flat))
    | inr in_position ↦ rw in_position (held (float.le (abs z) self.z_exit) p h)
  ]
