-- ===== src/Tests/Basis.antt =====
-- core/signals/futures_basis.py: a basis that widens, in whole numbers and with a growth of 2.
use compute_quant_lab.Prelude.{ℕ, ◌≡◌, refl, true, List, [], ◌∷◌}
use compute_quant_lab.Prelude.Float.{int_float}
use compute_quant_lab.Prelude.Int.{ℤ, pos, ◌-ℤ◌, ◌+ℤ◌, ◌*ℤ◌, quotient}
use compute_quant_lab.Prelude.Result.{ok, err, index_error}
use compute_quant_lab.Backtest.Guards.{PointInTimeView}
use compute_quant_lab.Pricing.Futures.{Math, cost_of_carry}
use compute_quant_lab.Signals.{clip_unit}
use compute_quant_lab.Signals.FuturesBasis.{FuturesBasisSignal, signal}

abbrev doubling : Math ℤ
doubling = record { exp = λ x. ok (pos 2); log = λ x. x }

abbrev carry : FuturesBasisSignal ℤ
carry = record {
  model = cost_of_carry doubling (pos 1) (pos 0);
  rate = pos 1;
  tau = pos 1;
  lookback = 2;
  provenance = record { name = "futures_basis"; simulated = true };
}

-- The differences of three values.
abbrev steps : List ℤ → List ℤ
steps (x ∷ y ∷ z ∷ rest) = (y -ℤ x) ∷ (z -ℤ y) ∷ []
steps _ = []

abbrev centre : List ℤ → ℤ
centre [] = pos 0
centre (x ∷ xs) = x

abbrev spread : List ℤ → ℤ
spread xs = pos 1

abbrev kept : ℕ
kept = 7

abbrev now : PointInTimeView ℤ
now = record {
  t = 2;
  history = pos 3 ∷ pos 4 ∷ pos 9 ∷ [];
  latest = ok (pos 9);
  at = λ i. err index_error;
}

widening : signal doubling steps centre spread carry kept now ≡ ok (pos 1, kept)
unfolding signal cost_of_carry ◌-ℤ◌ ◌*ℤ◌ ◌+ℤ◌ quotient clip_unit
widening = refl
