-- ===== src/Service/Recommendation.antt =====
-- projects/14_service/src/signal_iface.py: the recommendation, and the public source of it. The
-- rationale, a text for readers, is left out.
pub mod Procurement
use Prim.Native.String.{String}
use compute_quant_lab.Prelude.{Bool, true, if◌then◌else◌}
use compute_quant_lab.Prelude.Float.{Float, lt}
use compute_quant_lab.Prelude.Result.{Result, ok, ◌>>=◌}
use compute_quant_lab.Service.Views.{MarketView, median_rate}

pub data Action : Type 0 where
  wait : Action
  rent_now : Action

pub record Provenance : Type 0 where
  pub name : String
  pub simulated : Bool

pub record ProcurementSignal (F : Type 0) : Type 0 where
  pub action : Action
  pub gpu_model : String
  pub venue : String
  pub reference_price : F
  pub provenance : Provenance

-- The injection point.
pub record SignalSource (F : Type 0) : Type 0 where
  pub name : String
  pub assess : MarketView F → Result (ProcurementSignal F)

module _ {F : Type 0} ⦃float : Float F⦄ where
  -- `NaiveSignalSource.assess`
  unfoldable pub naive_assess : String → MarketView F → Result (ProcurementSignal F)
  unfolding median_rate
  naive_assess name market = do
    middle ← median_rate market
    let has_spread = lt market.cheapest.rate middle
    ok (record {
      action = if has_spread then rent_now else wait;
      gpu_model = market.gpu_model;
      venue = market.cheapest.source;
      reference_price = market.cheapest.rate;
      provenance = record { name = name; simulated = true };
    })
