-- ===== src/Signals.antt =====
-- core/signals: the reusable signal producers. This file is core/signals/protocols.py.
pub mod MeanReversion
pub mod Runs
pub mod Precomputed
pub mod FuturesBasis
use Prim.Native.String.{String}
use compute_quant_lab.Prelude.{◌≡◌, true, Bool, arith, ◌⊎◌, if◌then◌else◌}
use compute_quant_lab.Prelude.Float.{Float, unit, neg, lt, ◌≼◌, IsOrdered, le_refl, le_of_not_le}

pub record SignalProvenance : Type 0 where
  pub name : String
  pub simulated : Bool

module _ {F : Type 0} ⦃float : Float F⦄ where
  -- Python's `min(1.0, value)` and then `max(-1.0, …)`.
  unfoldable pub clip_unit : F → F
  clip_unit value =
      let top = if lt value unit then value else unit in if lt (neg unit) top then top else neg unit

  -- In an ordered arithmetic with -1 ≤ 1, a clipped view lies in [-1, 1], and a view that lies
  -- strictly inside is not changed.
  pub clip_unit-within :
      IsOrdered F
      → float.le (neg unit) unit ≡ true
      → (x : F)
      → (neg unit ≼ clip_unit x)
        × (clip_unit x ≼ unit)
        × (lt (neg unit) x ≡ true → lt x unit ≡ true → clip_unit x ≡ x)
  unfolding clip_unit
  clip_unit-within laws h x = ground (
    arith,
    le_refl laws unit,
    le_refl laws (neg unit),
    le_of_not_le laws x unit,
    le_of_not_le laws unit x,
    le_of_not_le laws x (neg unit),
    le_of_not_le laws unit (neg unit),
  )
