-- ===== src/Tests/Ingestion.antt =====
-- core/ingestion: runs and instances, with whole numbers for prices.
use Prim.Native.String.{String}
use compute_quant_lab.Prelude.{
  ℕ, ◌+◌, ◌≡◌, ◌<◌, ◌≤◌, ◌⊎◌, inl, inr, refl, true, false, none, some, List, [], ◌∷◌, ◌++◌, arith,
  All, keep,
}
use compute_quant_lab.Prelude.Float.{int_float, int-IsOrdered, ◌≼◌}
use compute_quant_lab.Prelude.Int.{ℤ, pos, ◌+ℤ◌, quotient}
use compute_quant_lab.Prelude.Result.{ok}
use compute_quant_lab.Ingestion.Protocols.{aware, Snapshot, VenueRate, SpotIndexPoint}
use compute_quant_lab.Ingestion.Median.{median, HasMidpoints}
use compute_quant_lab.Ingestion.ComputeIndex.{
  split_source, is_direct, mem, sources, prefer_direct_venues, IndexConfig, venue_rates,
  build_spot_index,
}
use compute_quant_lab.Ingestion.ComputeIndex.Selection.{
  IsForeign, prefer_direct_venues_lem, build_spot_index-noise,
}
use compute_quant_lab.Ingestion.ComputeIndex.Grouping.{IsDistinct}
use compute_quant_lab.Ingestion.ComputeIndex.Venues.{IsVenueRate, venue_rates_lem}
use compute_quant_lab.Ingestion.ComputeIndex.Fixes.{
  IsRejection, IsBetween, build_spot_index-within, build_spot_index-priced,
}

int-HasMidpoints : HasMidpoints ℤ
unfolding ◌+ℤ◌ quotient
int-HasMidpoints = record { above = λ x y h. ground arith; below = λ x y h. ground arith }

abbrev pub offer : ℕ → String → ℤ → Snapshot ℤ
offer t source price = record {
  snapshotted_at = t;
  source = source;
  gpu_model = "H100";
  price_usd_per_hour = price;
  lease_type = "on_demand";
  availability = pos 1;
  region = none;
  gpu_memory_gb = none;
  vcpu = none;
  ram_gb = none;
  disk_gb = none;
  provider_detail = none;
  simulated = false;
}

-- The first rate, which lies within any bounds on the rates.
abbrev first_rate : List (VenueRate ℤ) → ℤ
first_rate [] = pos 0
first_rate (r ∷ rs) = r.rate

first_rate-IsBetween : IsBetween int-IsOrdered first_rate
first_rate-IsBetween [] low high n h = absurd (omega arith)
first_rate-IsBetween (r ∷ rs) low high n h = h.0

abbrev all_rates : List (VenueRate ℤ) → List (VenueRate ℤ)
all_rates rates = rates

all_rates-IsRejection : IsRejection all_rates
all_rates-IsRejection = record { rejects = λ P rates h. h }

abbrev pub config : IndexConfig ℤ
config = record {
  estimator = record { name = "first"; estimate = first_rate };
  outlier_filter = record { name = "nofilter"; filter = all_rates };
  staleness = 24;
  lease_type = "on_demand";
  excluded_sources = "aws" ∷ [];
  min_sources = 1;
  prefer_direct = true;
}

-- A relayed quote of a venue that is also quoted directly, an old offer and two fresh ones of
-- "cudo", a list price of a hyperscaler, one from the future and one too old.
abbrev pub offers : List (Snapshot ℤ)
offers =
    offer 90 "primeintellect:cudo" (pos 9)
    ∷ offer 80 "cudo" (pos 7)
    ∷ offer 95 "cudo" (pos 2)
    ∷ offer 95 "cudo" (pos 4)
    ∷ []

abbrev pub noise : List (Snapshot ℤ)
noise = offer 95 "aws" (pos 50) ∷ offer 101 "cudo" (pos 1) ∷ offer 70 "vastai" (pos 1) ∷ []

split-relayed : split_source "primeintellect:cudo" ≡ (some "primeintellect", "cudo")
unfolding split_source
split-relayed = refl

abbrev pub point : SpotIndexPoint ℤ
point = record {
  as_of = 100;
  gpu_model = "H100";
  lease_type = "on_demand";
  price_usd_per_hour = pos 3;
  n_sources = 1;
  method = "first+nofilter";
  oldest_obs_at = 95;
}

pub build-offers : build_spot_index offers (aware 100 (pos 60)) "H100" config ≡ ok point
unfolding build_spot_index prefer_direct_venues median ◌+ℤ◌ quotient
build-offers = refl

abbrev three : List ℤ
three = pos 4 ∷ pos 9 ∷ []

abbrev pub quote : String → ℤ → VenueRate ℤ
quote source rate = record {
  source = source;
  rate = rate;
  availability = pos 1;
  snapshotted_at = 95;
}

venue_rates_lem_example :
    (rates : List (VenueRate ℤ)) × (venue_rates offers ≡ ok rates)
    × IsDistinct (sources rates)
    × All (λ s. mem s.source (sources rates) ≡ true) offers
    × All (IsVenueRate offers) rates
venue_rates_lem_example = venue_rates_lem int-IsOrdered offers

prefer_direct_venues_lem_example :
    let kept =
      prefer_direct_venues (quote "primeintellect:cudo" (pos 9) ∷ quote "cudo" (pos 3) ∷ []) in
    All
      (λ r.
        (is_direct r.source ≡ true)
        ⊎ (mem (split_source r.source).1 (keep is_direct (sources kept)) ≡ false))
      kept
    × (keep (λ r. is_direct r.source) kept
        ≡ keep
            (λ r. is_direct r.source)
            (quote "primeintellect:cudo" (pos 9) ∷ quote "cudo" (pos 3) ∷ []))
prefer_direct_venues_lem_example =
    prefer_direct_venues_lem (quote "primeintellect:cudo" (pos 9) ∷ quote "cudo" (pos 3) ∷ [])

noise-IsForeign : All (IsForeign config 100 "H100") noise
noise-IsForeign = (inr (inr (inl refl)), (inl (omega arith), (inr (inl (omega arith)), tt)))

build_spot_index-noise_example :
    build_spot_index (offers ++ (noise ++ [])) (aware 100 (pos 60)) "H100" config
    ≡ build_spot_index (offers ++ []) (aware 100 (pos 60)) "H100" config
build_spot_index-noise_example =
    build_spot_index-noise config 100 (pos 60) "H100" offers noise [] noise-IsForeign

build_spot_index-within_example :
    (0 < 1) × (1 ≤ 1) × (100 ≤ 95 + 24) × (95 ≤ 100) × (point.as_of ≡ 100)
build_spot_index-within_example =
    build_spot_index-within int-IsOrdered config 100 (pos 60) "H100" offers all_rates-IsRejection
      build-offers

build_spot_index-priced_example : (pos 2 ≼ pos 3) × (pos 3 ≼ pos 9)
build_spot_index-priced_example =
    build_spot_index-priced int-IsOrdered int-HasMidpoints config 100 (pos 60) "H100" offers (pos 2)
      (pos 9) all_rates-IsRejection first_rate-IsBetween (ground arith) build-offers
