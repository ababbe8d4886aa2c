-- ===== src/Pricing/SparkSpread.antt =====
-- core/pricing: pricer.py, fx.py, power_model.py, pue_prior.py and the kernel of oracle.py. A series is its
-- index, in order and without repetition, with the values, where `none` is NaN; the sources of prices
-- are parameters, as they are injected in the source. The text that shows the rate (`repr`) is left out.
pub mod Causal
use Prim.Native.String.{String}
use compute_quant_lab.Prelude.{
  ℕ, Bool, not, ◌&&◌, Option, none, some, List, [], ◌∷◌, map, leb, if◌then◌else◌,
}
use compute_quant_lab.Prelude.Float.{Float, nought, lt, unit}
use compute_quant_lab.Prelude.Result.{
  Result, ok, err, ◌>>=◌, ◌>>◌, raise_if, value_error, index_error,
}

abbrev pub Series : Type 0 → Type 0
Series F = List (ℕ × Option F)

module _ {F : Type 0} where
  abbrev pub later_or : Option (Option F) → Option (Option F) → Option (Option F)
  later_or none earlier = earlier
  later_or (some v) earlier = some v

  -- The value at the last index up to `t`, if there is one.
  unfoldable pub last_value : ℕ → Series F → Option (Option F)
  last_value t [] = none
  last_value t ((u, v) ∷ s) =
      let later = last_value t s in if leb u t then later_or later (some v) else later

  abbrev pub or_nan : Option (Option F) → Option F
  or_nan none = none
  or_nan (some v) = v

  -- `s.reindex(grid, method="ffill")`
  unfoldable pub reindex : List ℕ → Series F → List (Option F)
  unfolding last_value
  reindex [] s = []
  reindex (t ∷ grid) s = or_nan (last_value t s) ∷ reindex grid s

-- A rate that is the same throughout, or the last known one.
pub data Fx (F : Type 0) : Type 0 where
  constant_fx : F → Fx F
  series_fx : Series F → Fx F

module _ {F : Type 0} ⦃numbers : Float F⦄ where
  abbrev pub both : (F → F → F) → Option F → Option F → Option F
  both op (some x) (some y) = some (op x y)
  both op _ _ = none

  -- `ConstantFx.__init__`
  unfoldable pub make_constant : F → Result (Fx F)
  make_constant rate = do _ ← raise_if (numbers.le rate nought) value_error; ok (constant_fx rate)

  abbrev pub rate_at : Fx F → ℕ → Option F
  rate_at (constant_fx rate) t = some rate
  rate_at (series_fx rates) t = or_nan (last_value t rates)

  -- `to_eur`
  unfoldable pub to_eur : Fx F → Series F → Series F
  to_eur fx [] = []
  to_eur fx ((t, v) ∷ amount) = (t, both numbers.mul v (rate_at fx t)) ∷ to_eur fx amount

  -- `PythonOracle.compute`, at one point
  abbrev pub energy_cost : F → F → Option F → Option F
  energy_cost power_kw pue energy =
      both numbers.div (both numbers.mul (some (numbers.mul power_kw pue)) energy)
        (some (numbers.of_nat 1000))

  abbrev pub oracle_cost : F → F → List (Option F) → List (Option F)
  oracle_cost power_kw pue = map (energy_cost power_kw pue)

  unfoldable pub oracle_spread : F → F → List (Option F) → List (Option F) → List (Option F)
  oracle_spread power_kw pue [] energy = []
  oracle_spread power_kw pue (r ∷ revenue) [] = []
  oracle_spread power_kw pue (r ∷ revenue) (e ∷ energy) =
      both numbers.sub r (energy_cost power_kw pue e) ∷ oracle_spread power_kw pue revenue energy

-- `PuePrior`
pub record PuePrior (F : Type 0) : Type 0 where
  pub mu : F
  pub sigma : F
  pub low : F
  pub high : F

-- The PUE as a number or as a prior.
pub data Pue (F : Type 0) : Type 0 where
  scalar : F → Pue F
  prior : PuePrior F → Pue F

pub record ServerPowerModel (F : Type 0) : Type 0 where
  pub tdp_w : F
  pub pue_value : F
  pub pue_prior : Option (PuePrior F)
  pub n_gpus : ℕ

pub record PriceSource (F : Type 0) : Type 0 where
  pub energy_price : String → Result (Series F)
  pub compute_price : String → Result (Series F)

pub record SpreadResult (F : Type 0) : Type 0 where
  pub grid : List ℕ
  pub spread : List (Option F)
  pub revenue : List (Option F)
  pub cost : List (Option F)
  pub gpu : String
  pub region : String
  pub pue : F
  pub power_kw_per_gpu : F
  pub window : ℕ × ℕ

-- `(grid[0], grid[-1])`
abbrev pub last_of : ℕ → List ℕ → ℕ
last_of t [] = t
last_of t (u ∷ grid) = last_of u grid

abbrev pub window_of : List ℕ → Result (ℕ × ℕ)
window_of [] = err index_error
window_of (t ∷ grid) = ok (t, last_of t grid)

module _ {F : Type 0} ⦃numbers : Float F⦄ where
  -- `PuePrior.__post_init__`
  unfoldable pub make_prior : PuePrior F → Result (PuePrior F)
  make_prior p = do
    _ ← raise_if (numbers.le p.sigma nought) value_error
    _ ← raise_if (lt p.low unit) value_error
    _ ← raise_if (not (numbers.le p.low p.mu && numbers.le p.mu p.high)) value_error
    ok p

  unfoldable pub make_power_model : F → Pue F → ℕ → Result (ServerPowerModel F)
  make_power_model tdp_w (prior p) n_gpus = do
    _ ← raise_if (numbers.le tdp_w nought) value_error
    _ ← raise_if (leb n_gpus 0) value_error
    ok (record { tdp_w = tdp_w; pue_value = p.mu; pue_prior = some p; n_gpus = n_gpus })
  make_power_model tdp_w (scalar pue) n_gpus = do
    _ ← raise_if (numbers.le tdp_w nought) value_error
    _ ← raise_if (leb n_gpus 0) value_error
    _ ← raise_if (lt pue unit) value_error
    ok (record { tdp_w = tdp_w; pue_value = pue; pue_prior = none; n_gpus = n_gpus })

  abbrev pub power_kw_per_gpu : ServerPowerModel F → F
  power_kw_per_gpu model = numbers.div model.tdp_w (numbers.of_nat 1000)

  abbrev pub pue_bounds : ServerPowerModel F → Option (F × F)
  pue_bounds model = elim (model.pue_prior) [ none ↦ none | some p ↦ some (p.low, p.high) ]

  -- The two legs on the index of the energy leg.
  unfoldable pub spread_on : Fx F → F → F → Series F → Series F → List (Option F)
  spread_on fx power_kw pue compute_usd energy =
      oracle_spread power_kw pue (reindex (map (λ p. p.0) energy) (to_eur fx compute_usd))
        (map (λ p. p.1) energy)

  unfoldable pub price_at_pue :
      ServerPowerModel F → Fx F → PriceSource F → String → String → F → Result (SpreadResult F)
  unfolding spread_on
  price_at_pue model fx source gpu region pue = do
    energy ← source.energy_price region
    compute_usd ← source.compute_price gpu
    window ← window_of (map (λ p. p.0) energy)
    ok (record {
      grid = map (λ p. p.0) energy;
      spread = spread_on fx (power_kw_per_gpu model) pue compute_usd energy;
      revenue = reindex (map (λ p. p.0) energy) (to_eur fx compute_usd);
      cost = oracle_cost (power_kw_per_gpu model) pue (map (λ p. p.1) energy);
      gpu = gpu;
      region = region;
      pue = pue;
      power_kw_per_gpu = power_kw_per_gpu model;
      window = window;
    })

  -- `SparkSpreadPricer.price`
  unfoldable pub price_spread :
      ServerPowerModel F → Fx F → PriceSource F → String → String → Result (SpreadResult F)
  unfolding price_at_pue
  price_spread model fx source gpu region = price_at_pue model fx source gpu region model.pue_value

  unfoldable pub pue_sensitivity :
      ServerPowerModel F
      → Fx F
      → PriceSource F
      → String
      → String
      → Result (SpreadResult F × SpreadResult F)
  unfolding price_at_pue
  pue_sensitivity model fx source gpu region = elim (pue_bounds model) [
    | none ↦ err value_error
    | some (low, high) ↦ do
      at_low ← price_at_pue model fx source gpu region low
      at_high ← price_at_pue model fx source gpu region high
      ok (at_low, at_high)
  ]
