-- ===== src/Ingestion/ComputeIndex/Fixes.antt =====
-- core/ingestion/compute_index.py, `build_spot_index`: what a fix says, and when there is none.
use Prim.Native.String.{String}
use compute_quant_lab.Prelude.{
  ℕ, ◌+◌, ◌-◌, ◌≡◌, ◌≤◌, ◌<◌, true, false, List, [], ◌∷◌, arith, inl, inr, length, length-map,
  if◌then◌else◌, keep, All, All-imp, keep-All, keep_passes, Bool-cases, ltb,
}
use compute_quant_lab.Prelude.Float.{Float, ◌≼◌, IsOrdered}
use compute_quant_lab.Prelude.Int.{ℤ}
use compute_quant_lab.Prelude.Result.{
  ok, err, >>=-eq-ok, raise_if, insufficient_data_error, overflow_error,
}
use compute_quant_lab.Ingestion.Protocols.{Snapshot, VenueRate, SpotIndexPoint, aware}
use compute_quant_lab.Ingestion.Median.{median, HasMidpoints, median_between}
use compute_quant_lab.Ingestion.ComputeIndex.{
  IndexConfig, is_empty, prefer_direct_venues, is_relevant, relevant_snapshots, oldest_at, fix,
  build_spot_index,
}
use compute_quant_lab.Ingestion.ComputeIndex.Grouping.{from}
use compute_quant_lab.Ingestion.ComputeIndex.Venues.{prices, at_time, IsVenueRate, venue_rates_lem}

-- A filter that only leaves rates out.
pub record IsRejection {F : Type 0} (filter : List (VenueRate F) → List (VenueRate F))
    : Type 1 where
  pub rejects :
      (P : VenueRate F → Type 0) (rates : List (VenueRate F)) → All P rates → All P (filter rates)

module _ {F : Type 0} where
  oldest_at-within :
      (kept : List (VenueRate F)) (low high : ℕ) {t : ℕ}
      → All (λ r. (low ≤ r.snapshotted_at) × (r.snapshotted_at ≤ high)) kept
      → oldest_at kept ≡ ok t
      → (low ≤ t) × (t ≤ high) × (0 < length kept)
  unfolding oldest_at
  oldest_at-within [] low high h e = absurd (cc)
  oldest_at-within (r ∷ []) low high h e = ground arith
  oldest_at-within (r ∷ r' ∷ rs) low high (h, hs) e =
      let (t', e₁, e₂) = >>=-eq-ok (oldest_at (r' ∷ rs)) _ e in
      let (a, b, _) = oldest_at-within (r' ∷ rs) low high hs e₁ in ground arith

  prefer-All :
      (P : VenueRate F → Type 0) (rates : List (VenueRate F))
      → All P rates
      → All P (prefer_direct_venues rates)
  unfolding prefer_direct_venues
  prefer-All P rates h = keep-All P _ rates h

module _ {F : Type 0} ⦃float : Float F⦄ (laws : IsOrdered F) where
  -- What holds of every snapshot holds of one that has the time of the rate.
  witness_of_rate :
      (P : Snapshot F → Type 0) (snapshots : List (Snapshot F)) (r : VenueRate F)
      → All P snapshots
      → IsVenueRate snapshots r
      → (s : Snapshot F) × P s × (s.snapshotted_at ≡ r.snapshotted_at)
  witness_of_rate P snapshots r h (some_, _, _, _) =
      go (keep (at_time r.snapshotted_at) (keep (from r.source) snapshots)) some_
        (keep-All P _ _ (keep-All P _ snapshots h))
        (keep_passes (at_time r.snapshotted_at) (keep (from r.source) snapshots))
    where
      go :
          (os : List (Snapshot F))
          → 0 < length os
          → All P os
          → All (λ o. at_time r.snapshotted_at o ≡ true) os
          → (s : Snapshot F) × P s × (s.snapshotted_at ≡ r.snapshotted_at)
      go [] n p q = absurd (omega arith)
      go (o ∷ os) n p q = (o, p.0, ground arith)

  -- The parts of a successful fix.
  pub fix-eq-ok :
      (config : IndexConfig F) (now : ℕ) (gpu_model : String) (rates : List (VenueRate F))
      {point : SpotIndexPoint F}
      → fix config now gpu_model rates ≡ ok point
      → let kept =
          config.outlier_filter.filter
            (if config.prefer_direct then prefer_direct_venues rates else rates) in
        (config.min_sources ≤ length kept)
        × (oldest_at kept ≡ ok point.oldest_obs_at)
        × (point.price_usd_per_hour ≡ config.estimator.estimate kept)
        × (point.n_sources ≡ length kept)
        × (point.as_of ≡ now)
  unfolding fix
  fix-eq-ok config now gpu_model rates e =
      let kept =
        config.outlier_filter.filter
          (if config.prefer_direct then prefer_direct_venues rates else rates) in
      let (_, _, e₁) = >>=-eq-ok (raise_if (is_empty rates) insufficient_data_error) _ e in
      let (_, floor, e₂) =
        >>=-eq-ok (raise_if (ltb (length kept) config.min_sources) insufficient_data_error) _ e₁ in
      let (t, e₃, e₄) = >>=-eq-ok (oldest_at kept) _ e₂ in
      (ground arith, ground arith, ground arith, ground arith, ground arith)

  kept-All :
      (config : IndexConfig F) (P : VenueRate F → Type 0) (rates : List (VenueRate F))
      → IsRejection config.outlier_filter.filter
      → All P rates
      → All P (
          config.outlier_filter.filter
            (if config.prefer_direct then prefer_direct_venues rates else rates))
  kept-All config P rates rejection h = elim (Bool-cases config.prefer_direct) [
    | inl e ↦ rw e (rejection.rejects P _ (prefer-All P rates h))
    | inr e ↦ rw e (rejection.rejects P _ h)
  ]

  rate-time :
      (config : IndexConfig F) (now : ℕ) (gpu_model : String) (snapshots : List (Snapshot F))
      (r : VenueRate F)
      → IsVenueRate (relevant_snapshots config now gpu_model snapshots) r
      → (now - config.staleness ≤ r.snapshotted_at) × (r.snapshotted_at ≤ now)
  rate-time config now gpu_model snapshots r v =
      let (s, passes, same) =
        witness_of_rate _ (relevant_snapshots config now gpu_model snapshots) r
          (keep_passes (is_relevant config (now - config.staleness) now) _) v in
      ground arith

  -- With an outlier filter that only rejects, a successful fix is made of at least one venue,
  -- and of no fewer than `min_sources`. Its oldest observation is neither later than the
  -- instant of the fix nor older than the staleness window.
  pub build_spot_index-within :
      (config : IndexConfig F) (now : ℕ) (offset : ℤ) (gpu_model : String)
      (snapshots : List (Snapshot F)) {point : SpotIndexPoint F}
      → IsRejection config.outlier_filter.filter
      → build_spot_index snapshots (aware now offset) gpu_model config ≡ ok point
      → (0 < point.n_sources)
        × (config.min_sources ≤ point.n_sources)
        × (now ≤ point.oldest_obs_at + config.staleness)
        × (point.oldest_obs_at ≤ now)
        × (point.as_of ≡ now)
  unfolding build_spot_index
  build_spot_index-within config now offset gpu_model snapshots rejection e =
      let relevant = relevant_snapshots config now gpu_model snapshots in
      let (_, _, e₁) = >>=-eq-ok (raise_if (ltb now config.staleness) overflow_error) _ e in
      let (rates, made, _, _, good) = venue_rates_lem laws relevant in
      let e₂ : fix config now gpu_model rates ≡ ok _ = rw made at e₁ in
      let (floor, oldest, _, count, now_) = fix-eq-ok config now gpu_model rates e₂ in
      let times =
        kept-All config _ rates rejection
          (All-imp _ _ (rate-time config now gpu_model snapshots) rates good) in
      let (low, high, some_) = oldest_at-within _ (now - config.staleness) now times oldest in
      (omega arith, omega arith, omega arith, omega arith, now_)

  -- Without a relevant snapshot there is no fix: nothing is carried forward.
  pub build_spot_index-none :
      (config : IndexConfig F) (now : ℕ) (offset : ℤ) (gpu_model : String)
      (snapshots : List (Snapshot F))
      → config.staleness ≤ now
      → relevant_snapshots config now gpu_model snapshots ≡ []
      → build_spot_index snapshots (aware now offset) gpu_model config ≡ err insufficient_data_error
  unfolding build_spot_index
  build_spot_index-none config now offset gpu_model snapshots h none_ =
      let fits : ltb now config.staleness ≡ false = ground arith in rw (fits, none_)

  prices-All :
      (P : F → Type 0) (os : List (Snapshot F))
      → All (λ s. P s.price_usd_per_hour) os
      → All P (prices os)
  prices-All P [] h = tt
  prices-All P (o ∷ os) (h, hs) = (h, prices-All P os hs)

  rate-between :
      (mid : HasMidpoints F) (low high : F) (snapshots : List (Snapshot F)) (r : VenueRate F)
      → All (λ s. (low ≼ s.price_usd_per_hour) × (s.price_usd_per_hour ≼ high)) snapshots
      → IsVenueRate snapshots r
      → (low ≼ r.rate) × (r.rate ≼ high)
  rate-between mid low high snapshots r h (some_, _, e, _) =
      let cohort = keep (at_time r.snapshotted_at) (keep (from r.source) snapshots) in
      go (prices cohort) (rw (length-map _ cohort) some_)
        (prices-All (λ x. (low ≼ x) × (x ≼ high)) cohort
          (keep-All _ _ _ (keep-All _ _ snapshots h)))
        e
    where
      go :
          (xs : List F)
          → 0 < length xs
          → All (λ x. (low ≼ x) × (x ≼ high)) xs
          → median xs ≡ ok r.rate
          → (low ≼ r.rate) × (r.rate ≼ high)
      go [] n b m = absurd (omega arith)
      go (x ∷ xs) n b m =
          let (y, e', low_y, y_high) = median_between laws mid x xs low high b in
          let same : y ≡ r.rate = cc in (rw same at low_y, rw same at y_high)

  -- An estimator whose value lies within any bounds on the rates that it is given.
  abbrev pub IsBetween : (List (VenueRate F) → F) → Type 0
  IsBetween estimate =
      (rates : List (VenueRate F)) (low high : F)
      → 0 < length rates
      → All (λ r. (low ≼ r.rate) × (r.rate ≼ high)) rates
      → (low ≼ estimate rates) × (estimate rates ≼ high)

  -- With an outlier filter that only rejects, an estimator that stays within the rates it is
  -- given, and averages of two that lie between them, the price of a fix lies within any bounds
  -- on the prices of the relevant snapshots.
  pub build_spot_index-priced :
      (mid : HasMidpoints F) (config : IndexConfig F) (now : ℕ) (offset : ℤ) (gpu_model : String)
      (snapshots : List (Snapshot F)) (low high : F) {point : SpotIndexPoint F}
      → IsRejection config.outlier_filter.filter
      → IsBetween config.estimator.estimate
      → All
          (λ s. (low ≼ s.price_usd_per_hour) × (s.price_usd_per_hour ≼ high))
          (relevant_snapshots config now gpu_model snapshots)
      → build_spot_index snapshots (aware now offset) gpu_model config ≡ ok point
      → (low ≼ point.price_usd_per_hour) × (point.price_usd_per_hour ≼ high)
  unfolding build_spot_index
  build_spot_index-priced mid config now offset gpu_model snapshots low high rejection between h e =
      let relevant = relevant_snapshots config now gpu_model snapshots in
      let (_, _, e₁) = >>=-eq-ok (raise_if (ltb now config.staleness) overflow_error) _ e in
      let (rates, made, _, _, good) = venue_rates_lem laws relevant in
      let e₂ : fix config now gpu_model rates ≡ ok _ = rw made at e₁ in
      let (_, oldest, price, _, _) = fix-eq-ok config now gpu_model rates e₂ in
      let times =
        kept-All config _ rates rejection
          (All-imp _ _ (rate-time config now gpu_model snapshots) rates good) in
      let (_, _, some_) = oldest_at-within _ (now - config.staleness) now times oldest in
      let bounds =
        kept-All config _ rates rejection
          (All-imp _ _ (λ r. rate-between mid low high relevant r h) rates good) in
      rw price (between _ low high some_ bounds)
