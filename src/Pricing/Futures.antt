-- ===== src/Pricing/Futures.antt =====
-- core/pricing/derivatives/carry.py and futures.py: the cost of carry and the quotes made with it.
-- `math.exp`, which raises on an overflow, and `math.log` are parameters.
use Prim.Native.String.{String}
use compute_quant_lab.Prelude.{Bool, true, ◌||◌}
use compute_quant_lab.Prelude.Float.{Float, nought, neg}
use compute_quant_lab.Prelude.Result.{Result, ok, ◌>>=◌, ◌>>◌, raise_if, value_error}

pub record Math (F : Type 0) : Type 0 where
  pub exp : F → Result F
  pub log : F → F

pub record CarrySensitivities (F : Type 0) : Type 0 where
  pub d_forward_d_rate : F
  pub d_forward_d_yield : F
  pub d_forward_d_tau : F

-- The interface of a forward source.
pub record CarryModel (F : Type 0) : Type 0 where
  pub name : String
  pub simulated : Bool
  pub forward : F → F → Result F

pub record FuturesQuote (F : Type 0) : Type 0 where
  pub spot : F
  pub forward : F
  pub maturity_years : F
  pub basis : F
  pub rate : F
  pub convenience_yield : F
  pub model_name : String
  pub sensitivities : CarrySensitivities F
  pub simulated : Bool

module _ {F : Type 0} ⦃float : Float F⦄ (math : Math F) where
  open float use {mul, sub, div, le}

  unfoldable pub carry_forward : F → F → F → F → Result F
  carry_forward spot rate convenience_yield tau_years = do
    growth ← math.exp (mul (sub rate convenience_yield) tau_years)
    ok (mul spot growth)

  unfoldable pub implied_convenience_yield : F → F → F → F → Result F
  implied_convenience_yield spot forward rate tau_years = do
    raise_if (le tau_years nought) value_error
    raise_if (le spot nought || le forward nought) value_error
    ok (sub rate (div (math.log (div forward spot)) tau_years))

  unfoldable pub carry_sensitivities : F → F → F → F → Result (CarrySensitivities F)
  unfolding carry_forward
  carry_sensitivities spot rate convenience_yield tau_years = do
    forward ← carry_forward spot rate convenience_yield tau_years
    ok (record {
      d_forward_d_rate = mul forward tau_years;
      d_forward_d_yield = mul (neg forward) tau_years;
      d_forward_d_tau = mul forward (sub rate convenience_yield);
    })

  -- `CostOfCarryModel`
  unfoldable pub cost_of_carry : F → F → CarryModel F
  unfolding carry_forward
  cost_of_carry rate convenience_yield = record {
    name = "cost_of_carry";
    simulated = true;
    forward = λ spot tau_years. carry_forward spot rate convenience_yield tau_years;
  }

  -- `CarryFuturesPricer.price`
  unfoldable pub price : CarryModel F → F → F → F → Result (FuturesQuote F)
  unfolding implied_convenience_yield carry_sensitivities
  price model rate spot tau_years = do
    forward ← model.forward spot tau_years
    convenience_yield ← implied_convenience_yield spot forward rate tau_years
    sensitivities ← carry_sensitivities spot rate convenience_yield tau_years
    ok (record {
      spot = spot;
      forward = forward;
      maturity_years = tau_years;
      basis = sub forward spot;
      rate = rate;
      convenience_yield = convenience_yield;
      model_name = model.name;
      sensitivities = sensitivities;
      simulated = model.simulated;
    })
