-- ===== src/Service/Views.antt =====
-- projects/14_service/src/views.py. A store is what its `load` gives.
use Prim.Native.String.{String}
use compute_quant_lab.Prelude.{
  ℕ, ◌-◌, Option, none, some, List, [], ◌∷◌, map, keep, ltb, if◌then◌else◌,
}
use compute_quant_lab.Prelude.Float.{Float}
use compute_quant_lab.Prelude.Result.{
  Result, ok, err, ◌>>=◌, ◌>>◌, raise_if, overflow_error, value_error,
}
use compute_quant_lab.Ingestion.Protocols.{
  DateTime, ensure_utc, Snapshot, VenueRate, SpotIndexPoint,
}
use compute_quant_lab.Ingestion.Median.{median}
use compute_quant_lab.Ingestion.ComputeIndex.{IndexConfig, venue_rates, build_spot_index}
use compute_quant_lab.Benchmark.Dispersion.{enters_at}
use compute_quant_lab.Benchmark.Series.{is_insufficient}

-- The venues are a cheapest one and the others: a view with no venue cannot be made.
pub record MarketView (F : Type 0) : Type 0 where
  pub as_of : ℕ
  pub gpu_model : String
  pub cheapest : VenueRate F
  pub others : List (VenueRate F)
  pub index_price : F
  pub method : String

abbrev pub venues : {F : Type 0} → MarketView F → List (VenueRate F)
venues view = view.cheapest ∷ view.others

-- One row of the curve; a price that is not there is a NaN.
pub record CurvePoint (F : Type 0) : Type 0 where
  pub as_of : ℕ
  pub index_price : Option F
  pub n_sources : ℕ

module _ {F : Type 0} where
  -- `MarketView(…)`, with the check of `__post_init__`.
  abbrev pub market_view : ℕ → String → List (VenueRate F) → F → String → Result (MarketView F)
  market_view now gpu_model [] index_price method = err value_error
  market_view now gpu_model (v ∷ vs) index_price method = ok (record {
    as_of = now;
    gpu_model = gpu_model;
    cheapest = v;
    others = vs;
    index_price = index_price;
    method = method;
  })

module _ {F : Type 0} ⦃float : Float F⦄ where
  unfoldable pub service_rates :
      List (Snapshot F) → DateTime → String → IndexConfig F → Result (List (VenueRate F))
  unfolding ensure_utc venue_rates
  service_rates snapshots as_of gpu_model config = do
    now ← ensure_utc as_of
    raise_if (ltb now config.staleness) overflow_error
    venue_rates (keep (enters_at config (now - config.staleness) now gpu_model) snapshots)

  -- `sorted(kept, key=lambda v: v.rate)`, where equal rates keep their order.
  unfoldable pub insert_rate : VenueRate F → List (VenueRate F) → List (VenueRate F)
  insert_rate v [] = v ∷ []
  insert_rate v (w ∷ vs) = if float.le v.rate w.rate then v ∷ w ∷ vs else w ∷ insert_rate v vs

  unfoldable pub sorted_rates : List (VenueRate F) → List (VenueRate F)
  unfolding insert_rate
  sorted_rates [] = []
  sorted_rates (v ∷ vs) = insert_rate v (sorted_rates vs)

  unfoldable pub read_market :
      List (Snapshot F) → DateTime → String → IndexConfig F → Result (MarketView F)
  unfolding ensure_utc service_rates sorted_rates build_spot_index
  read_market snapshots as_of gpu_model config = do
    now ← ensure_utc as_of
    point ← build_spot_index snapshots as_of gpu_model config
    rates ← service_rates snapshots as_of gpu_model config
    market_view now gpu_model (sorted_rates (config.outlier_filter.filter rates))
        point.price_usd_per_hour point.method

  -- `MarketView.median_rate`
  unfoldable pub median_rate : MarketView F → Result F
  unfolding median
  median_rate view = median (map (λ v. v.rate) (venues view))

  -- One record of the curve: an `InsufficientDataError` gives a gap.
  abbrev pub curve_point : ℕ → Result (SpotIndexPoint F) → Result (CurvePoint F)
  curve_point t (ok point) = ok (record {
    as_of = t;
    index_price = some point.price_usd_per_hour;
    n_sources = point.n_sources;
  })
  curve_point t (err raised) =
      if is_insufficient raised
      then ok (record { as_of = t; index_price = none; n_sources = 0 })
      else err raised

  unfoldable pub price_curve :
      List (Snapshot F) → String → List DateTime → IndexConfig F → Result (List (CurvePoint F))
  unfolding ensure_utc build_spot_index
  price_curve snapshots gpu_model [] config = ok []
  price_curve snapshots gpu_model (raw ∷ timestamps) config = do
    t ← ensure_utc raw
    point ← curve_point t (build_spot_index snapshots raw gpu_model config)
    rest ← price_curve snapshots gpu_model timestamps config
    ok (point ∷ rest)
