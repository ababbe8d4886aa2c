-- ===== src/Tests/Spread.antt =====
-- Runs of the spread between compute and energy, and the witness of its theorem.
use compute_quant_lab.Prelude.{◌≡◌, refl, arith, none, some, [], ◌∷◌, get_elem?}
use compute_quant_lab.Prelude.Float.{int_float}
use compute_quant_lab.Prelude.Int.{ℤ, pos, ◌-ℤ◌, ◌*ℤ◌, quotient}
use compute_quant_lab.Prelude.Result.{err, value_error}
use compute_quant_lab.Pricing.SparkSpread.{
  Series, Fx, series_fx, to_eur, reindex, oracle_spread, spread_on, make_constant, make_power_model,
  prior,
}
use compute_quant_lab.Pricing.SparkSpread.Causal.{up_to, fx_up_to, spread_on-causal}

-- Prices at 2 and 6, and a rate that changes at 5.
abbrev compute : Series ℤ
compute = (2, some (pos 10)) ∷ (6, some (pos 20)) ∷ []

abbrev rates : Fx ℤ
rates = series_fx ((1, some (pos 2)) ∷ (5, some (pos 3)) ∷ [])

abbrev energy : Series ℤ
energy = (1, some (pos 500)) ∷ (4, some (pos 500)) ∷ (7, some (pos 1000)) ∷ []

spread_run :
    spread_on rates (pos 2) (pos 1) compute energy ≡ none ∷ some (pos 19) ∷ some (pos 58) ∷ []
unfolding spread_on to_eur reindex oracle_spread ◌-ℤ◌ ◌*ℤ◌ quotient
spread_run = refl

rate_refused : make_constant (pos 0) ≡ err value_error
unfolding make_constant
rate_refused = refl

model_refused :
    make_power_model
      (pos 700)
      (prior (record { mu = pos 1; sigma = pos 1; low = pos 1; high = pos 2 }))
      0
    ≡ err value_error
unfolding make_power_model
model_refused = refl

spread_on-causal_example :
    get_elem? (spread_on rates (pos 2) (pos 1) compute energy) 1
    ≡ get_elem? (spread_on (fx_up_to 4 rates) (pos 2) (pos 1) (up_to 4 compute) energy) 1
spread_on-causal_example =
    spread_on-causal rates (pos 2) (pos 1) compute energy 4 1 4 (some (pos 500)) refl (omega arith)
