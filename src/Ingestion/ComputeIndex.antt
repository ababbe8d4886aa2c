-- ===== src/Ingestion/ComputeIndex.antt =====
-- core/ingestion/compute_index.py: the spot index. The estimator and the outlier filter are
-- injected, as in the source.
pub mod Selection
pub mod Grouping
pub mod Venues
pub mod Fixes
use Prim.Native.Nat.{max, min}
use Prim.Native.Char.{code}
use Prim.Native.String.{String, ◌++◌ as append}
use text.Mathlib.Text.{◌==◌ as str_eq}
use compute_quant_lab.Prelude.{
  ℕ, ◌-◌, Bool, true, false, not, ◌&&◌, Option, none, some, List, [], ◌∷◌, ◌++◌, eqb, leb, ltb,
  length, if◌then◌else◌, keep, any, map,
}
use compute_quant_lab.Prelude.Float.{Float}
use compute_quant_lab.Prelude.Int.{ℤ, pos, ◌+ℤ◌}
use compute_quant_lab.Prelude.Result.{
  Result, ok, err, ◌>>=◌, ◌>>◌, raise_if, traverse, value_error, overflow_error,
  insufficient_data_error,
}
use compute_quant_lab.Ingestion.Protocols.{
  DateTime, ensure_utc, Snapshot, VenueRate, SpotIndexPoint, OutlierFilter, IndexEstimator,
}
use compute_quant_lab.Ingestion.Median.{median}

-- `source.partition(":")`: what stands before the first colon, whether there is one, and the rest.
unfoldable pub partition : String → String × Bool × String
partition String.[] = (String.[], false, String.[])
partition (String.◌∷◌ c s) =
    let (head, found, tail) = partition s in
    if eqb (code c) b':' then (String.[], true, s) else (String.◌∷◌ c head, found, tail)

unfoldable pub split_source : String → Option String × String
unfolding partition
split_source source =
    let (aggregator, separator, venue) = partition source in
    if separator then (some aggregator, venue) else (none, source)

-- `x in xs`
abbrev pub mem : String → List String → Bool
mem x xs = any (str_eq x) xs

-- `split_source(source)[0] is None`
abbrev pub is_direct : String → Bool
is_direct source = elim ((split_source source).0) [ none ↦ true | some _ ↦ false ]

abbrev pub sources : {F : Type 0} → List (VenueRate F) → List String
sources = map (λ r. r.source)

unfoldable pub prefer_direct_venues : {F : Type 0} → List (VenueRate F) → List (VenueRate F)
unfolding split_source
prefer_direct_venues rates =
    let direct = keep is_direct (map (λ r. r.source) rates) in
    keep (λ r. if is_direct r.source then true else not (mem (split_source r.source).1 direct))
      rates

pub record IndexConfig (F : Type 0) : Type 0 where
  pub estimator : IndexEstimator F
  pub outlier_filter : OutlierFilter F
  pub staleness : ℕ
  pub lease_type : String
  pub excluded_sources : List String
  pub min_sources : ℕ
  pub prefer_direct : Bool

-- `IndexConfig.method`
abbrev pub method : {F : Type 0} → IndexConfig F → String
method config = append config.estimator.name (append "+" config.outlier_filter.name)

module _ {F : Type 0} where
  abbrev pub is_candidate : IndexConfig F → String → Snapshot F → Bool
  is_candidate config gpu_model s =
      str_eq s.gpu_model gpu_model && str_eq s.lease_type config.lease_type

  abbrev pub is_relevant : IndexConfig F → ℕ → ℕ → Snapshot F → Bool
  is_relevant config cutoff as_of s =
      not (mem s.source config.excluded_sources)
      && leb cutoff s.snapshotted_at
      && leb s.snapshotted_at as_of

  -- The snapshots that may enter a fix: of the model and the lease type, from no excluded source,
  -- not older than the window and not later than `as_of`.
  abbrev pub relevant_snapshots : IndexConfig F → ℕ → String → List (Snapshot F) → List (Snapshot F)
  relevant_snapshots config as_of gpu_model snapshots =
      keep (is_relevant config (as_of - config.staleness) as_of)
        (keep (is_candidate config gpu_model) snapshots)

  -- `offers_by_source[s.source].append(s)`, in a dictionary in insertion order.
  unfoldable pub add_offer :
      Snapshot F → List (String × List (Snapshot F)) → List (String × List (Snapshot F))
  add_offer s [] = (s.source, s ∷ []) ∷ []
  add_offer s ((source, offers) ∷ rest) =
      if str_eq s.source source
      then (source, offers ++ (s ∷ [])) ∷ rest
      else (source, offers) ∷ add_offer s rest

  unfoldable pub group_offers :
      List (String × List (Snapshot F)) → List (Snapshot F) → List (String × List (Snapshot F))
  unfolding add_offer
  group_offers groups [] = groups
  group_offers groups (s ∷ rest) = group_offers (add_offer s groups) rest

  -- `max(o.snapshotted_at for o in offers)`, of a group, which is never empty.
  unfoldable pub latest_at : List (Snapshot F) → ℕ
  latest_at [] = 0
  latest_at (o ∷ os) = max o.snapshotted_at (latest_at os)

  -- `sum(o.availability for o in cohort)`
  unfoldable pub total_availability : List (Snapshot F) → ℤ
  total_availability [] = pos 0
  total_availability (o ∷ os) = o.availability +ℤ total_availability os

  -- `min(r.snapshotted_at for r in kept)`
  unfoldable pub oldest_at : List (VenueRate F) → Result ℕ
  oldest_at [] = err value_error
  oldest_at (r ∷ []) = ok r.snapshotted_at
  oldest_at (r ∷ r' ∷ rs) = do t ← oldest_at (r' ∷ rs); ok (min r.snapshotted_at t)

module _ {F : Type 0} ⦃float : Float F⦄ where
  -- The freshest cohort of a venue, reduced to its median price.
  unfoldable pub venue_rate : String × List (Snapshot F) → Result (VenueRate F)
  unfolding latest_at total_availability
  venue_rate (source, offers) = do
    let latest = latest_at offers
    let cohort = keep (λ o. eqb o.snapshotted_at latest) offers
    rate ← median (map (λ o. o.price_usd_per_hour) cohort)
    ok (record {
      source = source;
      rate = rate;
      availability = total_availability cohort;
      snapshotted_at = latest;
    })

  -- The rates of the venues among the relevant snapshots.
  unfoldable pub venue_rates : List (Snapshot F) → Result (List (VenueRate F))
  unfolding group_offers venue_rate
  venue_rates relevant = traverse venue_rate (group_offers [] relevant)

  abbrev pub is_empty : List (VenueRate F) → Bool
  is_empty [] = true
  is_empty (_ ∷ _) = false

  -- What follows the reduction to venues: preference, rejection and estimation.
  unfoldable pub fix : IndexConfig F → ℕ → String → List (VenueRate F) → Result (SpotIndexPoint F)
  unfolding oldest_at
  fix config as_of gpu_model rates = do
    raise_if (is_empty rates) insufficient_data_error
    let preferred = if config.prefer_direct then prefer_direct_venues rates else rates
    let kept = config.outlier_filter.filter preferred
    raise_if (ltb (length kept) config.min_sources) insufficient_data_error
    let price = config.estimator.estimate kept
    oldest ← oldest_at kept
    ok (record {
      as_of = as_of;
      gpu_model = gpu_model;
      lease_type = config.lease_type;
      price_usd_per_hour = price;
      n_sources = length kept;
      method = method config;
      oldest_obs_at = oldest;
    })

  -- `as_of - config.staleness` before the first `datetime` is an `OverflowError`.
  unfoldable pub build_spot_index :
      List (Snapshot F) → DateTime → String → IndexConfig F → Result (SpotIndexPoint F)
  unfolding fix venue_rates ensure_utc
  build_spot_index snapshots as_of gpu_model config = do
    now ← ensure_utc as_of
    raise_if (ltb now config.staleness) overflow_error
    rates ← venue_rates (relevant_snapshots config now gpu_model snapshots)
    fix config now gpu_model rates
