-- ===== src/Tests/Signals.antt =====
-- core/signals: the band and the precomputed signal, with whole numbers.
use compute_quant_lab.Prelude.{◌≡◌, refl, true, none, some, List, [], ◌∷◌}
use compute_quant_lab.Prelude.Float.{int_float, int-IsOrdered, nought}
use compute_quant_lab.Prelude.Int.{ℤ, pos, negsuc, ◌+ℤ◌, ◌-ℤ◌, quotient}
use compute_quant_lab.Prelude.Result.{ok}
use compute_quant_lab.Backtest.Guards
use compute_quant_lab.Backtest.Engine.{generate_positions}
use compute_quant_lab.Signals.MeanReversion.{MeanReversionSignal, signal}
use compute_quant_lab.Signals.Runs.{IsPath, generate_positions-reset, generate_positions-IsPath}
use compute_quant_lab.Signals.Precomputed.{PrecomputedSignalStrategy}

-- A centre and a spread of two values.
abbrev centre : List ℤ → ℤ
centre [] = pos 0
centre (x ∷ []) = x
centre (x ∷ y ∷ zs) = quotient (x +ℤ y) (pos 2)

abbrev spread : List ℤ → ℤ
spread xs = pos 1

abbrev band : MeanReversionSignal ℤ
band = record { z_entry = pos 2; z_exit = pos 1; lookback = 2; name = "band"; simulated = true }

abbrev prices : List ℤ
prices = pos 10 ∷ pos 20 ∷ pos 26 ∷ pos 26 ∷ pos 6 ∷ []

band_run :
    generate_positions prices (signal centre spread band) (pos 1)
    ≡ ok (pos 0 ∷ negsuc 0 ∷ negsuc 0 ∷ pos 0 ∷ pos 1 ∷ [], pos 1)
unfolding generate_positions signal Guards.make Guards.view quotient ◌-ℤ◌ ◌+ℤ◌
band_run = refl

generate_positions-reset_example :
    generate_positions prices (signal centre spread band) (pos 1)
    ≡ generate_positions prices (signal centre spread band) (negsuc 0)
generate_positions-reset_example =
    generate_positions-reset centre spread band (pos 10) (pos 20 ∷ pos 26 ∷ pos 26 ∷ pos 6 ∷ [])
      (pos 1) (negsuc 0)

generate_positions-IsPath_example :
    (ps : List ℤ) × (s' : ℤ) × (generate_positions prices (signal centre spread band) (pos 1)
      ≡ ok (ps, s'))
    × IsPath nought ps
generate_positions-IsPath_example =
    generate_positions-IsPath centre spread band int-IsOrdered prices (pos 1)

-- The band of 0.5, in whole numbers, is 0.
abbrev model : PrecomputedSignalStrategy ℤ
model = record {
  proba = none ∷ some (pos 1) ∷ some (negsuc 0) ∷ some (pos 0) ∷ none ∷ some (pos 1) ∷ [];
  neutral_band = pos 0;
}
