-- ===== src/Tests/Benchmark.antt =====
-- projects/13_compute_benchmark: the offers of the index, described and sampled.
use Prim.Native.String.{String}
use compute_quant_lab.Prelude.{
  ℕ, ◌+◌, ◌*◌, ◌≡◌, ◌≢◌, ◌⊎◌, refl, true, false, some, List, [], ◌∷◌, ◌++◌, All, any, eqb, arith,
  length, ◌≤◌, ◌<◌, if◌then◌else◌,
}
use compute_quant_lab.Prelude.Float.{int_float, int-IsOrdered}
use compute_quant_lab.Prelude.Int.{ℤ, pos, ◌+ℤ◌, ◌-ℤ◌, quotient}
use compute_quant_lab.Prelude.Result.{ok}
use compute_quant_lab.Ingestion.Protocols.{DateTime, aware, VenueRate}
use compute_quant_lab.Ingestion.Median.{median}
use compute_quant_lab.Ingestion.ComputeIndex.{is_direct, prefer_direct_venues, build_spot_index}
use compute_quant_lab.Benchmark.Dispersion.{
  Statistics, DispersionPoint, is_defined, venue_rates_at, dispersion_of,
}
use compute_quant_lab.Benchmark.Dispersion.Spread.{IsDispersion, IsUndefined, dispersion_of_lem}
use compute_quant_lab.Benchmark.Dispersion.Drift.{venue_rates_at-price}
use compute_quant_lab.Benchmark.Series.{IndexSeries, day_length, daily_fix_grid, build_index_series}
use compute_quant_lab.Benchmark.Levels.{VenueLevel, venue_levels, observed_fix_grid}
use compute_quant_lab.Benchmark.Series.Grid.{IsIncreasing, IsFix, daily_fix_grid_lem}
use compute_quant_lab.Benchmark.Series.Sampling.{
  Sampled, build_index_series-Sampled, build_index_series-later,
}
use compute_quant_lab.Tests.Ingestion.{offer, config, offers, point, quote, build-offers}

abbrev stats : Statistics ℤ
stats = record { pstdev = λ xs. pos 1; mean = λ xs. pos 2 }

abbrev kept : List (VenueRate ℤ)
kept = quote "cudo" (pos 3) ∷ quote "vastai" (pos 2) ∷ quote "runpod" (pos 6) ∷ []

abbrev described : DispersionPoint ℤ
described = record {
  as_of = 100;
  gpu_model = "H100";
  n_venues = 3;
  index_price = pos 2;
  spread_abs = some (pos 4);
  spread_pct = some (pos 2);
  cv = some (pos 0);
  cheapest_venue = some "vastai";
  dearest_venue = some "runpod";
}

describe : dispersion_of stats 100 "H100" (pos 2) kept ≡ ok described
unfolding dispersion_of ◌-ℤ◌ quotient
describe = refl

dispersion_of_lem_example :
    (described.n_venues ≡ length kept)
    × (((2 ≤ length kept)
          × (is_defined described ≡ true)
          × IsDispersion int-IsOrdered stats (pos 2) kept described)
        ⊎ ((length kept < 2)
            × (is_defined described ≡ false)
            × IsUndefined int-IsOrdered described))
dispersion_of_lem_example = dispersion_of_lem int-IsOrdered stats 100 "H100" (pos 2) kept describe

venue_rates_at-price_example :
    (rates : List (VenueRate ℤ)) × (venue_rates_at offers (aware 100 (pos 60)) "H100" config
      ≡ ok rates)
    × (pos 3
        ≡ config.estimator.estimate (
            config.outlier_filter.filter
              (if config.prefer_direct then prefer_direct_venues rates else rates)))
    × ((config.prefer_direct ≡ false) ⊎ All (λ r. is_direct r.source ≡ true) rates
        → config.estimator.estimate (config.outlier_filter.filter rates) ≡ pos 3)
venue_rates_at-price_example =
    venue_rates_at-price int-IsOrdered offers (aware 100 (pos 60)) "H100" config build-offers

abbrev with_relayed : List (VenueRate ℤ)
with_relayed =
    record {
      source = "primeintellect:cudo";
      rate = pos 9;
      availability = pos 1;
      snapshotted_at = 90;
    }
    ∷ record { source = "cudo"; rate = pos 3; availability = pos 2; snapshotted_at = 95 }
    ∷ []

-- The rates that the dispersion describes hold the relayed quote of a venue that is quoted directly.
rates_run : venue_rates_at offers (aware 100 (pos 60)) "H100" config ≡ ok with_relayed
unfolding venue_rates_at median ◌+ℤ◌ quotient
rates_run = refl

-- Their estimate is not the price of the index.
estimates_differ :
    config.estimator.estimate (config.outlier_filter.filter with_relayed) ≢ point.price_usd_per_hour
estimates_differ = λ e. ground arith

grid_run :
    daily_fix_grid (aware 5 (pos 0)) (aware (2 * day_length) (pos 0)) 5
    ≡ ok (5 ∷ (day_length + 5) ∷ [])
unfolding daily_fix_grid
grid_run = refl

daily_fix_grid_lem_example :
    (grid : List ℕ) × (daily_fix_grid (aware 5 (pos 0)) (aware (2 * day_length) (pos 0)) 5
      ≡ ok grid)
    × IsIncreasing 0 grid
    × All (IsFix 5 (2 * day_length) 5) grid
    × ((t : ℕ) → IsFix 5 (2 * day_length) 5 t → any (eqb t) grid ≡ true)
daily_fix_grid_lem_example = daily_fix_grid_lem 5 (2 * day_length) 5 (pos 0) (pos 0) (omega arith)

abbrev grid : List DateTime
grid = aware 100 (pos 60) ∷ aware 200 (pos 60) ∷ []

abbrev series : IndexSeries ℤ
series = record { gpu_model = "H100"; points = point ∷ []; skipped = 200 ∷ [] }

series_run : build_index_series offers grid "H100" config ≡ ok series
unfolding build_index_series prefer_direct_venues median ◌+ℤ◌ quotient
series_run = refl

build_index_series-Sampled_example :
    Sampled (λ as_of. build_spot_index offers as_of "H100" config) grid (point ∷ []) (200 ∷ [])
    × (1 + 1 ≡ 2)
build_index_series-Sampled_example = build_index_series-Sampled offers grid "H100" config series_run

build_index_series-later_example :
    build_index_series (offers ++ ((offer 201 "cudo" (pos 1) ∷ []) ++ [])) grid "H100" config
    ≡ build_index_series (offers ++ []) grid "H100" config
build_index_series-later_example =
    build_index_series-later config "H100" offers (offer 201 "cudo" (pos 1) ∷ []) [] grid
      ((omega arith, tt), ((omega arith, tt), tt))

abbrev level_of : String → VenueLevel ℤ
level_of source = record {
  source = source;
  mean_rate = pos 2;
  mean_discount_vs_index = pos 2;
  n_fixes = 1;
}

-- The relayed quote has a level of its own, and the second instant none.
levels_run :
    venue_levels stats offers grid "H100" config
    ≡ ok (level_of "cudo" ∷ level_of "primeintellect:cudo" ∷ [])
unfolding venue_levels prefer_direct_venues median ◌+ℤ◌ ◌-ℤ◌ quotient
levels_run = refl

observed : observed_fix_grid offers (some "H100") ≡ 80 ∷ 90 ∷ 95 ∷ []
unfolding observed_fix_grid
observed = refl
