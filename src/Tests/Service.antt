-- ===== src/Tests/Service.antt =====
-- projects/14_service: two venues, read and recommended.
use Prim.Native.String.{String}
use mathlib.Core.List.{Permᴰ}
use compute_quant_lab.Prelude.{ℕ, ◌≡◌, ◌↔◌, some, get_elem?, refl, true, List, [], ◌∷◌, All}
use compute_quant_lab.Prelude.Float.{int_float, int-IsOrdered, ◌≼◌, lt}
use compute_quant_lab.Prelude.Int.{ℤ, pos, ◌+ℤ◌, quotient}
use compute_quant_lab.Prelude.Result.{ok}
use compute_quant_lab.Ingestion.Protocols.{aware, VenueRate}
use compute_quant_lab.Ingestion.Median.{median}
use compute_quant_lab.Ingestion.ComputeIndex.{prefer_direct_venues}
use compute_quant_lab.Service.Views.{MarketView, venues, service_rates, read_market, median_rate}
use compute_quant_lab.Service.Recommendation.{
  rent_now, ProcurementSignal, SignalSource, naive_assess,
}
use compute_quant_lab.Service.Recommendation.Procurement.{IsAscending, read_market-naive_assess}
use compute_quant_lab.Service.Alerts.{Rule, price_below, action_is}
use compute_quant_lab.Tests.Ingestion.{config, offers}

abbrev rate : ℕ → String → ℤ → ℤ → VenueRate ℤ
rate t source price availability = record {
  source = source;
  rate = price;
  availability = availability;
  snapshotted_at = t;
}

abbrev market : MarketView ℤ
market = record {
  as_of = 100;
  gpu_model = "H100";
  cheapest = rate 95 "cudo" (pos 3) (pos 2);
  others = rate 90 "primeintellect:cudo" (pos 9) (pos 1) ∷ [];
  index_price = pos 3;
  method = "first+nofilter";
}

market_run : read_market offers (aware 100 (pos 60)) "H100" config ≡ ok market
unfolding read_market prefer_direct_venues median ◌+ℤ◌ quotient
market_run = refl

read_market-naive_assess_example :
    (rates : List (VenueRate ℤ)) × (signal : ProcurementSignal ℤ) × (middle : ℤ) × (service_rates
        offers
        (aware 100 (pos 60))
        "H100"
        config
      ≡ ok rates)
    × Permᴰ (venues market) (config.outlier_filter.filter rates)
    × IsAscending (venues market)
    × (naive_assess "naive_public" market ≡ ok signal)
    × (median_rate market ≡ ok middle)
    × ((i : ℕ) × (r : VenueRate ℤ) × (get_elem? (config.outlier_filter.filter rates) i ≡ some r)
        × (signal.venue ≡ r.source)
        × (signal.reference_price ≡ r.rate))
    × All (λ r. signal.reference_price ≼ r.rate) (config.outlier_filter.filter rates)
    × ((signal.action ≡ rent_now) ↔ (lt signal.reference_price middle ≡ true))
read_market-naive_assess_example =
    read_market-naive_assess int-IsOrdered offers (aware 100 (pos 60)) "H100" "naive_public" config
      market_run

abbrev public : SignalSource ℤ
public = record { name = "naive_public"; assess = naive_assess "naive_public" }

abbrev rent : ProcurementSignal ℤ
rent = record {
  action = rent_now;
  gpu_model = "H100";
  venue = "cudo";
  reference_price = pos 3;
  provenance = record { name = "naive_public"; simulated = true };
}

assessed : public.assess market ≡ ok rent
unfolding naive_assess median ◌+ℤ◌ quotient
assessed = refl

abbrev rules : List (Rule ℤ)
rules = price_below "price<=2" (pos 2) ∷ action_is "action=rent_now" rent_now ∷ []
