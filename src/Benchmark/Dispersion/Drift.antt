-- ===== src/Benchmark/Dispersion/Drift.antt =====
-- projects/13_compute_benchmark/src/benchmark/dispersion.py against core/ingestion/compute_index.py:
-- the rates that the dispersion describes, and those that the index is made of.
use Prim.Native.String.{String}
use compute_quant_lab.Prelude.{
  ℕ, ◌-◌, ◌≡◌, ◌⊎◌, inl, inr, refl, sym, ap, ◌∙◌, Bool, true, false, List, All, All-imp, keep,
  keep_twice, keep_whole, ltb, arith, if◌then◌else◌,
}
use compute_quant_lab.Prelude.Float.{Float, IsOrdered}
use compute_quant_lab.Prelude.Result.{ok, >>=-eq-ok, raise_if, overflow_error}
use compute_quant_lab.Ingestion.Protocols.{
  DateTime, naive, aware, Snapshot, VenueRate, SpotIndexPoint,
}
use compute_quant_lab.Ingestion.ComputeIndex.{
  IndexConfig, is_direct, is_candidate, is_relevant, relevant_snapshots, venue_rates,
  prefer_direct_venues, build_spot_index,
}
use compute_quant_lab.Ingestion.ComputeIndex.Fixes.{fix-eq-ok}
use compute_quant_lab.Benchmark.Dispersion.{enters_at, venue_rates_at}

module _ {F : Type 0} where
  -- One condition here, two there: the same snapshots.
  pub entering_snapshots :
      (config : IndexConfig F) (now : ℕ) (gpu_model : String) (snapshots : List (Snapshot F))
      → keep (enters_at config (now - config.staleness) now gpu_model) snapshots
        ≡ relevant_snapshots config now gpu_model snapshots
  entering_snapshots config now gpu_model snapshots = sym (
      keep_twice (is_candidate config gpu_model) (is_relevant config (now - config.staleness) now)
        (enters_at config (now - config.staleness) now gpu_model) (λ s. ground arith) snapshots)

  prefer_direct_venues-direct :
      (rates : List (VenueRate F))
      → All (λ r. is_direct r.source ≡ true) rates
      → prefer_direct_venues rates ≡ rates
  unfolding prefer_direct_venues
  prefer_direct_venues-direct rates h =
      keep_whole _ rates (All-imp (λ r. is_direct r.source ≡ true) _ (λ r e. rw e refl) rates h)

module _ {F : Type 0} ⦃float : Float F⦄ (laws : IsOrdered F) where
  -- Whenever there is a fix, the dispersion finds the rates that the index is made of: the price is
  -- the estimate over those that the preference and the filter leave. The price is the estimate over
  -- the filtered rates themselves, as the module promises, if the preference is off or if each rate
  -- is quoted by its venue directly.
  pub venue_rates_at-price :
      (snapshots : List (Snapshot F)) (as_of : DateTime) (gpu_model : String)
      (config : IndexConfig F) {point : SpotIndexPoint F}
      → build_spot_index snapshots as_of gpu_model config ≡ ok point
      → (rates : List (VenueRate F)) × (venue_rates_at snapshots as_of gpu_model config ≡ ok rates)
        × (point.price_usd_per_hour
            ≡ config.estimator.estimate (
                config.outlier_filter.filter
                  (if config.prefer_direct then prefer_direct_venues rates else rates)))
        × ((config.prefer_direct ≡ false) ⊎ All (λ r. is_direct r.source ≡ true) rates
            → config.estimator.estimate (config.outlier_filter.filter rates)
              ≡ point.price_usd_per_hour)
  unfolding build_spot_index venue_rates_at
  venue_rates_at-price snapshots (naive clock) gpu_model config e = cc
  venue_rates_at-price snapshots (aware now offset) gpu_model config {point} e =
      let relevant = relevant_snapshots config now gpu_model snapshots in
      let (_, in_range, e₁) = >>=-eq-ok (raise_if (ltb now config.staleness) overflow_error) _ e in
      let (rates, made, e₂) = >>=-eq-ok (venue_rates relevant) _ e₁ in
      let (_, _, price, _, _) = fix-eq-ok laws config now gpu_model rates e₂ in
      (
        rates,
        rw (in_range, entering_snapshots config now gpu_model snapshots) made,
        price,
        λ same.
            ap (λ l. config.estimator.estimate (config.outlier_filter.filter l))
              (sym (unpreferred config.prefer_direct rates same))
            ∙ sym price,
      )
    where
      unpreferred :
          (on : Bool) (rates : List (VenueRate F))
          → (on ≡ false) ⊎ All (λ r. is_direct r.source ≡ true) rates
          → (if on then prefer_direct_venues rates else rates) ≡ rates
      unpreferred false rates h = refl
      unpreferred true rates (inl h) = cc
      unpreferred true rates (inr h) = prefer_direct_venues-direct rates h
