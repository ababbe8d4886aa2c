-- ===== src/Service/Recommendation/Procurement.antt =====
-- projects/14_service/src: from the snapshots to the recommendation.
use Prim.Native.String.{String}
use mathlib.Core.List.{Permᴰ}
use mathlib.Core.List.Permᴰ
use mathlib.Core.Path.{subst}
use compute_quant_lab.Prelude.{
  ℕ, suc, ◌≡◌, ◌↔◌, some, get_elem?, inl, inr, refl, sym, true, List, [], ◌∷◌, All, map, arith,
  if◌then◌else◌, Bool-cases,
}
use compute_quant_lab.Prelude.Float.{Float, lt, ◌≼◌, IsOrdered, le_refl, le_of_not_le}
use compute_quant_lab.Prelude.Result.{ok, >>=-eq-ok}
use compute_quant_lab.Ingestion.Protocols.{DateTime, ensure_utc, Snapshot, VenueRate}
use compute_quant_lab.Ingestion.Median.{median_total}
use compute_quant_lab.Ingestion.ComputeIndex.{IndexConfig, build_spot_index}
use compute_quant_lab.Service.Views.{
  MarketView, venues, market_view, service_rates, insert_rate, sorted_rates, read_market,
  median_rate,
}
use compute_quant_lab.Service.Recommendation.{rent_now, wait, ProcurementSignal, naive_assess}

module _ {F : Type 0} ⦃float : Float F⦄ where
  insert_rate-All :
      (P : VenueRate F → Type 0) (v : VenueRate F) (vs : List (VenueRate F))
      → P v
      → All P vs
      → All P (insert_rate v vs)
  unfolding insert_rate
  insert_rate-All P v [] p ps = (p, tt)
  insert_rate-All P v (w ∷ vs) p (q, qs) = elim (Bool-cases (float.le v.rate w.rate)) [
    | inl e ↦ rw e (p, (q, qs))
    | inr e ↦ rw e (q, insert_rate-All P v vs p qs)
  ]

  sorted_rates-All :
      (P : VenueRate F → Type 0) (vs : List (VenueRate F)) → All P vs → All P (sorted_rates vs)
  unfolding sorted_rates
  sorted_rates-All P [] h = tt
  sorted_rates-All P (v ∷ vs) (p, ps) =
      insert_rate-All P v (sorted_rates vs) p (sorted_rates-All P vs ps)

  -- Each entry stands at some index.
  All-indexed :
      (vs whole : List (VenueRate F))
      → ((i : ℕ) (v : VenueRate F)
          → get_elem? vs i ≡ some v
          → (j : ℕ) × (get_elem? whole j ≡ some v))
      → All (λ v. (j : ℕ) × (get_elem? whole j ≡ some v)) vs
  All-indexed [] whole h = tt
  All-indexed (v ∷ vs) whole h = (h 0 v refl, All-indexed vs whole (λ i w e. h (suc i) w e))

  -- The venues of a market that can be made are those it is made of, in their order.
  market_view-venues :
      (now : ℕ) (gpu_model : String) (vs : List (VenueRate F)) (price : F) (method : String)
      {market : MarketView F}
      → market_view now gpu_model vs price method ≡ ok market
      → venues market ≡ vs
  market_view-venues now gpu_model [] price method e = cc
  market_view-venues now gpu_model (v ∷ vs) price method e = ground arith

  -- The cheapest venue of a market is one of those that are sorted into it.
  cheapest-get_elem? :
      (kept : List (VenueRate F)) (market : MarketView F)
      → venues market ≡ sorted_rates kept
      → (i : ℕ) × (get_elem? kept i ≡ some market.cheapest)
  cheapest-get_elem? kept market e =
      let each =
        sorted_rates-All (λ v. (i : ℕ) × (get_elem? kept i ≡ some v)) kept
          (All-indexed kept kept (λ i v at. (i, at))) in
      let found =
        subst (λ (vs : List (VenueRate F)). All (λ v. (i : ℕ) × (get_elem? kept i ≡ some v)) vs)
          (sym e) each in
      found.0

  All-insert_rate :
      (P : VenueRate F → Type 0) (v : VenueRate F) (vs : List (VenueRate F))
      → All P (insert_rate v vs)
      → P v × All P vs
  unfolding insert_rate
  All-insert_rate P v [] h = h
  All-insert_rate P v (w ∷ vs) h = elim (Bool-cases (float.le v.rate w.rate)) [
    | inl e ↦ rw e at h
    | inr e ↦
        let (q, rest) : All P (w ∷ insert_rate v vs) = rw e at h in
        let (p, qs) = All-insert_rate P v vs rest in (p, (q, qs))
  ]

  All-sorted_rates :
      (P : VenueRate F → Type 0) (vs : List (VenueRate F)) → All P (sorted_rates vs) → All P vs
  unfolding sorted_rates
  All-sorted_rates P [] h = tt
  All-sorted_rates P (v ∷ vs) h =
      let (p, rest) = All-insert_rate P v (sorted_rates vs) h in (p, All-sorted_rates P vs rest)

  insert_rate-Permᴰ :
      (v : VenueRate F) (vs : List (VenueRate F)) → Permᴰ (insert_rate v vs) (v ∷ vs)
  unfolding insert_rate
  insert_rate-Permᴰ v [] = Permᴰ.refl (v ∷ [])
  insert_rate-Permᴰ v (w ∷ vs) = elim (Bool-cases (float.le v.rate w.rate)) [
    | inl e ↦ rw e (Permᴰ.refl (v ∷ w ∷ vs))
    | inr e ↦ rw e (Permᴰ.trans (Permᴰ.cons refl (insert_rate-Permᴰ v vs)) (Permᴰ.swap refl refl))
  ]

  sorted_rates-Permᴰ : (vs : List (VenueRate F)) → Permᴰ (sorted_rates vs) vs
  unfolding sorted_rates
  sorted_rates-Permᴰ [] = Permᴰ.refl []
  sorted_rates-Permᴰ (v ∷ vs) =
      Permᴰ.trans (insert_rate-Permᴰ v (sorted_rates vs)) (Permᴰ.cons refl (sorted_rates-Permᴰ vs))

  -- Each rate is at most the later ones.
  abbrev pub IsAscending : List (VenueRate F) → Type 0
  IsAscending [] = Unit
  IsAscending (v ∷ vs) = All (λ w. v.rate ≼ w.rate) vs × IsAscending vs

module _ {F : Type 0} ⦃float : Float F⦄ (laws : IsOrdered F) where
  open laws use {le_trans}

  below_each :
      (v w : VenueRate F) (vs : List (VenueRate F))
      → v.rate ≼ w.rate
      → All (λ x. w.rate ≼ x.rate) vs
      → All (λ x. v.rate ≼ x.rate) vs
  below_each v w [] h hs = tt
  below_each v w (x ∷ vs) h (g, gs) = (le_trans _ _ _ h g, below_each v w vs h gs)

  insert_rate-IsAscending :
      (v : VenueRate F) (vs : List (VenueRate F)) → IsAscending vs → IsAscending (insert_rate v vs)
  unfolding insert_rate
  insert_rate-IsAscending v [] h = (tt, tt)
  insert_rate-IsAscending v (w ∷ vs) (h, hs) = elim (Bool-cases (float.le v.rate w.rate)) [
    | inl e ↦ rw e ((e, below_each v w vs e h), (h, hs))
    | inr e ↦ rw e (
      insert_rate-All (λ x. w.rate ≼ x.rate) v vs (le_of_not_le laws v.rate w.rate e) h,
      insert_rate-IsAscending v vs hs,
    )
  ]

  sorted_rates-IsAscending : (vs : List (VenueRate F)) → IsAscending (sorted_rates vs)
  unfolding sorted_rates
  sorted_rates-IsAscending [] = tt
  sorted_rates-IsAscending (v ∷ vs) =
      insert_rate-IsAscending v (sorted_rates vs) (sorted_rates-IsAscending vs)

  cheapest_of :
      (now : ℕ) (gpu_model : String) (kept : List (VenueRate F)) (price : F) (method : String)
      {market : MarketView F}
      → market_view now gpu_model (sorted_rates kept) price method ≡ ok market
      → All (λ r. market.cheapest.rate ≼ r.rate) kept
  cheapest_of now gpu_model kept price method {market} e =
      All-sorted_rates (λ r. market.cheapest.rate ≼ r.rate) kept
        (first (sorted_rates kept) (sorted_rates-IsAscending kept) e)
    where
      first :
          (vs : List (VenueRate F))
          → IsAscending vs
          → market_view now gpu_model vs price method ≡ ok market
          → All (λ r. market.cheapest.rate ≼ r.rate) vs
      first [] h e = cc
      first (v ∷ vs) h e =
          let same : v ≡ market.cheapest = ground arith in
          subst (λ (w : VenueRate F). All (λ r. w.rate ≼ r.rate) (v ∷ vs)) same
            (le_refl laws v.rate, h.0)

  naive_assess_lem :
      (name : String) (market : MarketView F)
      → (middle : F) × (signal : ProcurementSignal F) × (median_rate market ≡ ok middle)
        × (naive_assess name market ≡ ok signal)
        × (signal.venue ≡ market.cheapest.source)
        × (signal.reference_price ≡ market.cheapest.rate)
        × ((signal.action ≡ rent_now) ↔ (lt signal.reference_price middle ≡ true))
  unfolding naive_assess median_rate
  naive_assess_lem name market =
      let (middle, e) = median_total laws (map (λ v. v.rate) (venues market)) (omega arith) in
      (
        middle,
        record {
          action = if lt market.cheapest.rate middle then rent_now else wait;
          gpu_model = market.gpu_model;
          venue = market.cheapest.source;
          reference_price = market.cheapest.rate;
          provenance = record { name = name; simulated = true };
        },
        e,
        rw e refl,
        refl,
        refl,
        (λ h. ground arith, λ h. ground arith),
      )

  -- Whenever the market can be read, its venues are those that the filter keeps of the rates, each
  -- once, by ascending rate, and the public source gives a recommendation for it. The recommendation names a kept venue and
  -- that venue's rate as the reference price, below which no kept venue lies, and it is to rent now
  -- exactly if that price is below the median of the market's venues.
  pub read_market-naive_assess :
      (snapshots : List (Snapshot F)) (as_of : DateTime) (gpu_model name : String)
      (config : IndexConfig F) {market : MarketView F}
      → read_market snapshots as_of gpu_model config ≡ ok market
      → (rates : List (VenueRate F)) × (signal : ProcurementSignal F) × (middle : F)
        × (service_rates snapshots as_of gpu_model config ≡ ok rates)
        × Permᴰ (venues market) (config.outlier_filter.filter rates)
        × IsAscending (venues market)
        × (naive_assess name market ≡ ok signal)
        × (median_rate market ≡ ok middle)
        × ((i : ℕ) × (r : VenueRate F) × (get_elem? (config.outlier_filter.filter rates) i ≡ some r)
            × (signal.venue ≡ r.source)
            × (signal.reference_price ≡ r.rate))
        × All (λ r. signal.reference_price ≼ r.rate) (config.outlier_filter.filter rates)
        × ((signal.action ≡ rent_now) ↔ (lt signal.reference_price middle ≡ true))
  unfolding read_market
  read_market-naive_assess snapshots as_of gpu_model name config {market} e =
      let (now, _, e₁) = >>=-eq-ok (ensure_utc as_of) _ e in
      let (point, _, e₂) = >>=-eq-ok (build_spot_index snapshots as_of gpu_model config) _ e₁ in
      let (rates, made, e₃) = >>=-eq-ok (service_rates snapshots as_of gpu_model config) _ e₂ in
      let (middle, signal, half, given, named, priced, to_rent) = naive_assess_lem name market in
      let kept = config.outlier_filter.filter rates in
      let same =
        market_view-venues now gpu_model (sorted_rates kept) point.price_usd_per_hour point.method
          e₃ in
      let (i, at) = cheapest-get_elem? kept market same in
      (
        rates,
        signal,
        middle,
        made,
        subst (λ vs. Permᴰ vs kept) (sym same) (sorted_rates-Permᴰ kept),
        subst IsAscending (sym same) (sorted_rates-IsAscending kept),
        given,
        half,
        (i, market.cheapest, at, named, priced),
        subst (λ (price : F). All (λ r. price ≼ r.rate) kept) (sym priced)
            (cheapest_of now gpu_model kept point.price_usd_per_hour point.method e₃),
        to_rent,
      )
