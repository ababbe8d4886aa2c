-- ===== src/Pricing/SparkSpread/Causal.antt =====
-- core/pricing/pricer.py and fx.py: no future price and no future rate enters the spread.
use compute_quant_lab.Prelude.{
  ◌≡◌, refl, ap, ◌∙◌, sym, ℕ, zero, suc, ◌≤◌, Option, some, [], ◌∷◌, map, keep, leb, arith,
  get_elem?,
}
use compute_quant_lab.Prelude.Float.{Float}
use compute_quant_lab.Pricing.SparkSpread.{
  Series, last_value, or_nan, reindex, Fx, constant_fx, series_fx, rate_at, both, to_eur,
  energy_cost, oracle_spread, spread_on,
}

module _ {F : Type 0} where
  -- The part of a series up to an instant.
  abbrev pub up_to : ℕ → Series F → Series F
  up_to now s = keep (λ p. leb p.0 now) s

  last_value-up_to :
      (t now : ℕ) (s : Series F) → t ≤ now → last_value t (up_to now s) ≡ last_value t s
  unfolding last_value
  last_value-up_to t now [] h = refl
  last_value-up_to t now ((u, v) ∷ s) h = ground (arith, last_value-up_to t now s h)

  -- A rate as it was known by an instant.
  abbrev pub fx_up_to : ℕ → Fx F → Fx F
  fx_up_to now (constant_fx rate) = constant_fx rate
  fx_up_to now (series_fx rates) = series_fx (up_to now rates)

module _ {F : Type 0} ⦃numbers : Float F⦄ where
  rate_at-up_to : (t now : ℕ) (fx : Fx F) → t ≤ now → rate_at (fx_up_to now fx) t ≡ rate_at fx t
  rate_at-up_to t now (constant_fx rate) h = refl
  rate_at-up_to t now (series_fx rates) h = ap or_nan (last_value-up_to t now rates h)

  to_eur-up_to :
      (now : ℕ) (fx : Fx F) (s : Series F)
      → to_eur (fx_up_to now fx) (up_to now s) ≡ up_to now (to_eur fx s)
  unfolding to_eur
  to_eur-up_to now fx [] = refl
  to_eur-up_to now fx ((t, v) ∷ s) = ground (arith, to_eur-up_to now fx s, rate_at-up_to t now fx)

  spread_elem :
      (power_kw pue : F) (compute : Series F) (energy : Series F) (i t : ℕ) (e : Option F)
      → get_elem? energy i ≡ some (t, e)
      → get_elem?
          (oracle_spread power_kw pue
            (reindex (map (λ p. p.0) energy) compute)
            (map (λ p. p.1) energy))
          i
        ≡ some (both numbers.sub (or_nan (last_value t compute)) (energy_cost power_kw pue e))
  unfolding oracle_spread reindex
  spread_elem power_kw pue compute [] i t e h = absurd (cc)
  spread_elem power_kw pue compute ((u, f) ∷ energy) zero t e h = ground arith
  spread_elem power_kw pue compute ((u, f) ∷ energy) (suc i) t e h =
      spread_elem power_kw pue compute energy i t e h

  -- At a point of the grid up to `now`, the spread is what it is over the compute prices and the rates
  -- up to `now` alone.
  pub spread_on-causal :
      (fx : Fx F) (power_kw pue : F) (compute energy : Series F) (now i t : ℕ) (e : Option F)
      → get_elem? energy i ≡ some (t, e)
      → t ≤ now
      → get_elem? (spread_on fx power_kw pue compute energy) i
        ≡ get_elem? (spread_on (fx_up_to now fx) power_kw pue (up_to now compute) energy) i
  unfolding spread_on
  spread_on-causal fx power_kw pue compute energy now i t e at h =
      spread_elem power_kw pue (to_eur fx compute) energy i t e at
      ∙ ap (λ v. some (both numbers.sub (or_nan v) (energy_cost power_kw pue e)))
          (sym (
            ap (last_value t) (to_eur-up_to now fx compute)
            ∙ last_value-up_to t now (to_eur fx compute) h))
      ∙ sym
          (spread_elem power_kw pue (to_eur (fx_up_to now fx) (up_to now compute)) energy i t e at)
