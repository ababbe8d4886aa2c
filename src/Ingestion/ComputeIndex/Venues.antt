-- ===== src/Ingestion/ComputeIndex/Venues.antt =====
-- core/ingestion/compute_index.py, `build_spot_index`: the rate of each venue.
use Prim.Native.Nat.{max}
use Prim.Native.String.{String}
use mathlib.Core.Path.{subst}
use compute_quant_lab.Prelude.{
  ℕ, ◌≡◌, ◌≤◌, ◌<◌, refl, Bool, true, List, [], ◌∷◌, arith, inl, inr, length, length-map, keep, map,
  All, All-imp, Bool-cases, eqb, leb, leb-false→lt,
}
use compute_quant_lab.Prelude.Float.{Float, IsOrdered}
use compute_quant_lab.Prelude.Result.{ok, traverse}
use compute_quant_lab.Ingestion.Protocols.{Snapshot, VenueRate}
use compute_quant_lab.Ingestion.Median.{median, median_total}
use compute_quant_lab.Ingestion.ComputeIndex.{
  mem, group_offers, latest_at, total_availability, venue_rate, venue_rates, sources,
}
use compute_quant_lab.Ingestion.ComputeIndex.Grouping.{
  IsDistinct, keys, from, IsGroup, group_offers_lem,
}

module _ {F : Type 0} where
  abbrev pub prices : List (Snapshot F) → List F
  prices = map (λ o. o.price_usd_per_hour)

  abbrev pub at_time : ℕ → Snapshot F → Bool
  at_time t o = eqb o.snapshotted_at t

  latest_at-le :
      (offers : List (Snapshot F)) → All (λ o. o.snapshotted_at ≤ latest_at offers) offers
  unfolding latest_at
  latest_at-le [] = tt
  latest_at-le (o ∷ os) = (
    omega arith,
    All-imp _ _ (λ s (h : s.snapshotted_at ≤ latest_at os). omega arith) os (latest_at-le os),
  )

  keep_head :
      (p : Snapshot F → Bool) (o : Snapshot F) (os : List (Snapshot F))
      → p o ≡ true
      → 0 < length (keep p (o ∷ os))
  keep_head p o os h = ground arith

  keep_tail :
      (p : Snapshot F → Bool) (o : Snapshot F) (os : List (Snapshot F))
      → 0 < length (keep p os)
      → 0 < length (keep p (o ∷ os))
  keep_tail p o os h = ground arith

  -- Some offer has the latest time.
  keep_latest :
      (offers : List (Snapshot F))
      → 0 < length offers
      → 0 < length (keep (at_time (latest_at offers)) offers)
  unfolding latest_at
  keep_latest [] h = absurd (omega arith)
  keep_latest (o ∷ []) h = keep_head (at_time (max o.snapshotted_at 0)) o [] (ground arith)
  keep_latest (o ∷ o' ∷ os) h =
      let later = latest_at (o' ∷ os) in
      elim (Bool-cases (leb later o.snapshotted_at)) [
        | inl e ↦ keep_head (at_time (max o.snapshotted_at later)) o (o' ∷ os) (ground arith)
        | inr e ↦
            let below = leb-false→lt _ _ e in
            let same : later ≡ max o.snapshotted_at later = omega arith in
            keep_tail (at_time (max o.snapshotted_at later)) o (o' ∷ os) (
              subst (λ t. 0 < length (keep (at_time t) (o' ∷ os))) same
                (keep_latest (o' ∷ os) (omega arith)))
      ]

module _ {F : Type 0} ⦃float : Float F⦄ where
  -- The rate of a source: the median price of its latest snapshots.
  abbrev pub IsVenueRate : List (Snapshot F) → VenueRate F → Type 0
  IsVenueRate snapshots r =
      let offers = keep (from r.source) snapshots in
      let cohort = keep (at_time r.snapshotted_at) offers in
      (0 < length cohort)
      × All (λ o. o.snapshotted_at ≤ r.snapshotted_at) offers
      × (median (prices cohort) ≡ ok r.rate)
      × (r.availability ≡ total_availability cohort)

  module _ (laws : IsOrdered F) where
    venue_rate_total :
        (snapshots : List (Snapshot F)) (g : String × List (Snapshot F))
        → IsGroup snapshots g
        → (r : VenueRate F) × (venue_rate g ≡ ok r) × (r.source ≡ g.0) × IsVenueRate snapshots r
    unfolding venue_rate
    venue_rate_total snapshots (source, offers) (same, some_) =
        let latest = latest_at offers in
        let cohort = keep (at_time latest) offers in
        let full = keep_latest offers some_ in
        let (m, e) = median_total laws (prices cohort) (rw (length-map _ cohort) full) in
        let r : VenueRate F = record {
          source = source;
          rate = m;
          availability = total_availability cohort;
          snapshotted_at = latest;
        } in
        (r, rw e, refl, rw (← same) (full, latest_at-le offers, e, refl))

    traverse_venues :
        (snapshots : List (Snapshot F)) (groups : List (String × List (Snapshot F)))
        → All (IsGroup snapshots) groups
        → (rates : List (VenueRate F)) × (traverse venue_rate groups ≡ ok rates)
          × (sources rates ≡ keys groups)
          × All (IsVenueRate snapshots) rates
    traverse_venues snapshots [] h = ([], refl, refl, tt)
    traverse_venues snapshots (g ∷ groups) (h, hs) =
        let (r, e, name, good) = venue_rate_total snapshots g h in
        let (rates, e', names, all) = traverse_venues snapshots groups hs in
        (r ∷ rates, rw (e, e'), cc, (good, all))

    -- The reduction to venues never fails. It gives one rate to each source among the snapshots,
    -- and none to another: the median price of that source's latest snapshots, of which there is
    -- at least one, with their availabilities added up.
    pub venue_rates_lem :
        (snapshots : List (Snapshot F))
        → (rates : List (VenueRate F)) × (venue_rates snapshots ≡ ok rates)
          × IsDistinct (sources rates)
          × All (λ s. mem s.source (sources rates) ≡ true) snapshots
          × All (IsVenueRate snapshots) rates
    unfolding venue_rates
    venue_rates_lem snapshots =
        let grouping = group_offers_lem snapshots in
        let (rates, e, names, good) =
          traverse_venues snapshots (group_offers [] snapshots) grouping.exact in
        (rates, e, rw names grouping.distinct, rw names grouping.covered, good)
