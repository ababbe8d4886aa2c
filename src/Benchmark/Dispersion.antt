-- ===== src/Benchmark/Dispersion.antt =====
-- projects/13_compute_benchmark/src/benchmark/dispersion.py. `venue_rates_at` filters by itself and
-- then reduces each venue as the index does; `statistics.pstdev` and `statistics.mean` are parameters.
pub mod Spread
pub mod Drift
use Prim.Native.String.{String}
use text.Mathlib.Text.{◌==◌ as str_eq}
use compute_quant_lab.Prelude.{
  ℕ, ◌-◌, Bool, true, false, not, ◌&&◌, Option, none, some, List, [], ◌∷◌, leb, ltb, length, map,
  keep, if◌then◌else◌,
}
use compute_quant_lab.Prelude.Float.{Float, lt, feq, nought}
use compute_quant_lab.Prelude.Result.{
  Result, ok, err, ◌>>=◌, ◌>>◌, raise_if, overflow_error, zero_division_error,
}
use compute_quant_lab.Ingestion.Protocols.{
  DateTime, ensure_utc, Snapshot, VenueRate, SpotIndexPoint,
}
use compute_quant_lab.Ingestion.ComputeIndex.{IndexConfig, mem, venue_rates, build_spot_index}

pub record Statistics (F : Type 0) : Type 0 where
  pub pstdev : List F → F
  pub mean : List F → F

pub record DispersionPoint (F : Type 0) : Type 0 where
  pub as_of : ℕ
  pub gpu_model : String
  pub n_venues : ℕ
  pub index_price : F
  pub spread_abs : Option F
  pub spread_pct : Option F
  pub cv : Option F
  pub cheapest_venue : Option String
  pub dearest_venue : Option String

unfoldable pub is_defined : {F : Type 0} → DispersionPoint F → Bool
is_defined d = leb 2 d.n_venues

module _ {F : Type 0} where
  -- The one condition of the list comprehension.
  abbrev pub enters_at : IndexConfig F → ℕ → ℕ → String → Snapshot F → Bool
  enters_at config cutoff now gpu_model s =
      str_eq s.gpu_model gpu_model
      && str_eq s.lease_type config.lease_type
      && not (mem s.source config.excluded_sources)
      && leb cutoff s.snapshotted_at
      && leb s.snapshotted_at now

module _ {F : Type 0} ⦃float : Float F⦄ where
  unfoldable pub venue_rates_at :
      List (Snapshot F) → DateTime → String → IndexConfig F → Result (List (VenueRate F))
  unfolding ensure_utc venue_rates
  venue_rates_at snapshots as_of gpu_model config = do
    now ← ensure_utc as_of
    raise_if (ltb now config.staleness) overflow_error
    venue_rates (keep (enters_at config (now - config.staleness) now gpu_model) snapshots)

  -- The first of the smaller, and of the larger, of two rates.
  abbrev pub lower : VenueRate F → VenueRate F → VenueRate F
  lower r s = if lt s.rate r.rate then s else r

  abbrev pub higher : VenueRate F → VenueRate F → VenueRate F
  higher r s = if lt r.rate s.rate then s else r

  -- `min(kept, key=…)` of the rates `r ∷ rs`: the first of the smallest.
  unfoldable pub cheapest : VenueRate F → List (VenueRate F) → VenueRate F
  cheapest r [] = r
  cheapest r (s ∷ rs) = cheapest (lower r s) rs

  unfoldable pub dearest : VenueRate F → List (VenueRate F) → VenueRate F
  dearest r [] = r
  dearest r (s ∷ rs) = dearest (higher r s) rs

  -- `min(prices)` and `max(prices)`
  unfoldable pub min_price : F → List F → F
  min_price p [] = p
  min_price p (q ∷ ps) = min_price (if lt q p then q else p) ps

  unfoldable pub max_price : F → List F → F
  max_price p [] = p
  max_price p (q ∷ ps) = max_price (if lt p q then q else p) ps

  -- Python's `x / y`
  abbrev pub divide : F → F → Result F
  divide x y = do raise_if (feq y nought) zero_division_error; ok (float.div x y)

  -- From the rates that are kept and the price of the index on.
  unfoldable pub dispersion_of :
      Statistics F → ℕ → String → F → List (VenueRate F) → Result (DispersionPoint F)
  unfolding cheapest dearest min_price max_price
  dispersion_of stats now gpu_model index_price (r ∷ r' ∷ rs) = do
    let prices = map (λ r. r.rate) (r ∷ r' ∷ rs)
    let spread_abs =
        float.sub (max_price r.rate (map (λ r. r.rate) (r' ∷ rs)))
          (min_price r.rate (map (λ r. r.rate) (r' ∷ rs)))
    spread_pct ← divide spread_abs index_price
    cv ← divide (stats.pstdev prices) (stats.mean prices)
    ok (record {
      as_of = now;
      gpu_model = gpu_model;
      n_venues = length (r ∷ r' ∷ rs);
      index_price = index_price;
      spread_abs = some spread_abs;
      spread_pct = some spread_pct;
      cv = some cv;
      cheapest_venue = some ((cheapest r (r' ∷ rs)).source);
      dearest_venue = some ((dearest r (r' ∷ rs)).source);
    })
  dispersion_of stats now gpu_model index_price kept = ok (record {
    as_of = now;
    gpu_model = gpu_model;
    n_venues = length kept;
    index_price = index_price;
    spread_abs = none;
    spread_pct = none;
    cv = none;
    cheapest_venue = none;
    dearest_venue = none;
  })

  unfoldable pub dispersion_at :
      Statistics F
      → List (Snapshot F)
      → DateTime
      → String
      → IndexConfig F
      → Result (DispersionPoint F)
  unfolding ensure_utc venue_rates_at build_spot_index dispersion_of
  dispersion_at stats snapshots as_of gpu_model config = do
    now ← ensure_utc as_of
    rates ← venue_rates_at snapshots as_of gpu_model config
    point ← build_spot_index snapshots as_of gpu_model config
    dispersion_of stats now gpu_model point.price_usd_per_hour (config.outlier_filter.filter rates)
