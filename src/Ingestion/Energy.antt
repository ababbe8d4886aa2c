-- ===== src/Ingestion/Energy.antt =====
-- core/ingestion/energy/base.py: the key-gated registry of energy markets, a dictionary in insertion
-- order. A market is known by its environment keys and by what it is.
pub mod Ercot
pub mod Transport
use Prim.Native.String.{String}
use text.Mathlib.Text.{◌==◌ as str_eq}
use text.Mathlib.TextEquality.{eq_iff}
use compute_quant_lab.Prelude.{◌≡◌, refl, List, [], ◌∷◌, arith, if◌then◌else◌, every}
use compute_quant_lab.Prelude.Result.{Result, ok, err, key_error}
use compute_quant_lab.Ingestion.Providers.{Environ, has_key}

-- A registered market: its environment keys, and the connector.
pub record EnergyMarket (M : Type 0) : Type 0 where
  pub required_env : List String
  pub connector : M

module _ {M : Type 0} where
  -- `_REGISTRY[key] = cls()`
  unfoldable pub register_market :
      String → EnergyMarket M → List (String × EnergyMarket M) → List (String × EnergyMarket M)
  register_market key market [] = (key, market) ∷ []
  register_market key market ((k, m) ∷ rest) =
      if str_eq k key then (k, market) ∷ rest else (k, m) ∷ register_market key market rest

  unfoldable pub get_market : String → List (String × EnergyMarket M) → Result (EnergyMarket M)
  get_market key [] = err key_error
  get_market key ((k, m) ∷ rest) = if str_eq k key then ok m else get_market key rest

  unfoldable pub available_markets : Environ → List (String × EnergyMarket M) → List String
  available_markets env [] = []
  available_markets env ((k, m) ∷ rest) =
      if every (has_key env) m.required_env
      then k ∷ available_markets env rest
      else available_markets env rest

  -- After a registration the key gives the registered market, and every other key what it gave.
  pub get_market-register_market :
      (key j : String) (market : EnergyMarket M) (registry : List (String × EnergyMarket M))
      → get_market j (register_market key market registry)
        ≡ (if str_eq key j then ok market else get_market j registry)
  unfolding get_market register_market
  get_market-register_market key j market [] = refl
  get_market-register_market key j market ((k, m) ∷ rest) =
      ground (
        arith,
        eq_iff key j,
        eq_iff k key,
        eq_iff k j,
        get_market-register_market key j market rest,
      )
