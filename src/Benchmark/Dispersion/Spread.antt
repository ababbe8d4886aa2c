-- ===== src/Benchmark/Dispersion/Spread.antt =====
-- projects/13_compute_benchmark/src/benchmark/dispersion.py: the venues that a dispersion names.
use compute_quant_lab.Prelude.{
  ℕ, zero, ◌≡◌, ◌⊎◌, inl, inr, refl, ap, ◌∙◌, true, false, none, some, List, [], ◌∷◌, All, map,
  arith, suc, ◌≤◌, ◌<◌, length, get_elem?, Bool-cases,
}
use Prim.Native.String.{String}
use compute_quant_lab.Prelude.Float.{Float, lt, ◌≼◌, IsOrdered, le_refl, le_of_not_le}
use compute_quant_lab.Prelude.Result.{ok, >>=-eq-ok}
use compute_quant_lab.Ingestion.Protocols.{VenueRate}
use compute_quant_lab.Benchmark.Dispersion.{
  Statistics, DispersionPoint, is_defined, cheapest, dearest, lower, higher, min_price, max_price,
  divide, dispersion_of,
}

module _ {F : Type 0} ⦃float : Float F⦄ where
  min_price-cheapest :
      (r : VenueRate F) (rs : List (VenueRate F))
      → min_price r.rate (map (λ r. r.rate) rs) ≡ (cheapest r rs).rate
  unfolding min_price cheapest
  min_price-cheapest r [] = refl
  min_price-cheapest r (s ∷ rs) =
      ap (λ p. min_price p (map (λ r. r.rate) rs)) (ground arith)
      ∙ min_price-cheapest (lower r s) rs

  max_price-dearest :
      (r : VenueRate F) (rs : List (VenueRate F))
      → max_price r.rate (map (λ r. r.rate) rs) ≡ (dearest r rs).rate
  unfolding max_price dearest
  max_price-dearest r [] = refl
  max_price-dearest r (s ∷ rs) =
      ap (λ p. max_price p (map (λ r. r.rate) rs)) (ground arith)
      ∙ max_price-dearest (higher r s) rs

  get_elem?-without_second :
      (r s : VenueRate F) (rs : List (VenueRate F)) (i : ℕ) (found : VenueRate F)
      → get_elem? (r ∷ rs) i ≡ some found
      → (j : ℕ) × (get_elem? (r ∷ s ∷ rs) j ≡ some found)
  get_elem?-without_second r s rs zero found at = (0, at)
  get_elem?-without_second r s rs (suc i) found at = (suc (suc i), at)

  -- The cheapest rate is one of the rates.
  get_elem?-cheapest :
      (r : VenueRate F) (rs : List (VenueRate F))
      → (i : ℕ) × (get_elem? (r ∷ rs) i ≡ some (cheapest r rs))
  unfolding cheapest
  get_elem?-cheapest r [] = (0, refl)
  get_elem?-cheapest r (s ∷ rs) = elim (Bool-cases (lt s.rate r.rate)) [
    | inl e ↦ let (i, at) = get_elem?-cheapest s rs in (suc i, rw e at)
    | inr e ↦
        let (i, at) = get_elem?-cheapest r rs in
        let (j, found) = get_elem?-without_second r s rs i _ at in (j, rw e found)
  ]

  get_elem?-dearest :
      (r : VenueRate F) (rs : List (VenueRate F))
      → (i : ℕ) × (get_elem? (r ∷ rs) i ≡ some (dearest r rs))
  unfolding dearest
  get_elem?-dearest r [] = (0, refl)
  get_elem?-dearest r (s ∷ rs) = elim (Bool-cases (lt r.rate s.rate)) [
    | inl e ↦ let (i, at) = get_elem?-dearest s rs in (suc i, rw e at)
    | inr e ↦
        let (i, at) = get_elem?-dearest r rs in
        let (j, found) = get_elem?-without_second r s rs i _ at in (j, rw e found)
  ]

  divide-eq-ok : (x y : F) {q : F} → divide x y ≡ ok q → q ≡ float.div x y
  divide-eq-ok x y h = ground arith

module _ {F : Type 0} ⦃float : Float F⦄ (laws : IsOrdered F) where
  open laws use {le_trans}

  cheapest-le :
      (r : VenueRate F) (rs : List (VenueRate F))
      → ((cheapest r rs).rate ≼ r.rate) × All (λ s. (cheapest r rs).rate ≼ s.rate) rs
  unfolding cheapest
  cheapest-le r [] = (le_refl laws r.rate, tt)
  cheapest-le r (s ∷ rs) =
      let (first, rest) = cheapest-le (lower r s) rs in
      (
        le_trans _ _ _ first (ground (arith, le_refl laws r.rate, le_of_not_le laws r.rate s.rate)),
        (le_trans _ _ _ first (ground (arith, le_refl laws s.rate)), rest),
      )

  le-dearest :
      (r : VenueRate F) (rs : List (VenueRate F))
      → (r.rate ≼ (dearest r rs).rate) × All (λ s. s.rate ≼ (dearest r rs).rate) rs
  unfolding dearest
  le-dearest r [] = (le_refl laws r.rate, tt)
  le-dearest r (s ∷ rs) =
      let (first, rest) = le-dearest (higher r s) rs in
      (
        le_trans _ _ _ (ground (arith, le_refl laws r.rate, le_of_not_le laws s.rate r.rate)) first,
        (le_trans _ _ _ (ground (arith, le_refl laws s.rate)) first, rest),
      )

  -- What a dispersion says of the rates that are kept, when there are two or more: its cheapest and
  -- its dearest venue are kept ones.
  abbrev pub IsDispersion : Statistics F → F → List (VenueRate F) → DispersionPoint F → Type 0
  IsDispersion stats index_price kept d =
      (i : ℕ) × (low : VenueRate F) × (j : ℕ) × (high : VenueRate F) × (get_elem? kept i ≡ some low)
      × (get_elem? kept j ≡ some high)
      × All (λ r. low.rate ≼ r.rate) kept
      × All (λ r. r.rate ≼ high.rate) kept
      × (d.cheapest_venue ≡ some low.source)
      × (d.dearest_venue ≡ some high.source)
      × (d.spread_abs ≡ some (float.sub high.rate low.rate))
      × (d.spread_pct ≡ some (float.div (float.sub high.rate low.rate) index_price))
      × (d.cv
          ≡ some (
              float.div (stats.pstdev (map (λ r. r.rate) kept))
                (stats.mean (map (λ r. r.rate) kept))))

  -- What it leaves open otherwise.
  abbrev pub IsUndefined : DispersionPoint F → Type 0
  IsUndefined d =
      (d.cheapest_venue ≡ none)
      × (d.dearest_venue ≡ none)
      × (d.spread_abs ≡ none)
      × (d.spread_pct ≡ none)
      × (d.cv ≡ none)

  -- A dispersion counts the kept venues. Of two or more it is defined: it names a kept venue that none
  -- is below and a kept venue that none is above, its spread is the distance of their rates, also in
  -- proportion to the index price, and `cv` is the deviation of the kept rates over their mean. Of
  -- fewer it is not defined and names none.
  pub dispersion_of_lem :
      (stats : Statistics F) (now : ℕ) (gpu_model : String) (index_price : F)
      (kept : List (VenueRate F)) {d : DispersionPoint F}
      → dispersion_of stats now gpu_model index_price kept ≡ ok d
      → (d.n_venues ≡ length kept)
        × (((2 ≤ length kept) × (is_defined d ≡ true) × IsDispersion stats index_price kept d)
            ⊎ ((length kept < 2) × (is_defined d ≡ false) × IsUndefined d))
  unfolding dispersion_of is_defined
  dispersion_of_lem stats now gpu_model index_price [] e =
      (ground arith, inr (omega arith, ground arith, ground arith))
  dispersion_of_lem stats now gpu_model index_price (r ∷ []) e =
      (ground arith, inr (omega arith, ground arith, ground arith))
  dispersion_of_lem stats now gpu_model index_price (r ∷ r' ∷ rs) e =
      let prices = map (λ r. r.rate) (r' ∷ rs) in
      let (pct, e₁, e₂) =
        >>=-eq-ok
          (divide (float.sub (max_price r.rate prices) (min_price r.rate prices)) index_price) _
          e in
      let (cv, e₃, e₄) =
        >>=-eq-ok (divide (stats.pstdev (r.rate ∷ prices)) (stats.mean (r.rate ∷ prices))) _ e₂ in
      let (i, low_at) = get_elem?-cheapest r (r' ∷ rs) in
      let (j, high_at) = get_elem?-dearest r (r' ∷ rs) in
      let least = min_price-cheapest r (r' ∷ rs) in
      let most = max_price-dearest r (r' ∷ rs) in
      (
        ground arith,
        inl (
          omega arith,
          ground arith,
          (
            i,
            cheapest r (r' ∷ rs),
            j,
            dearest r (r' ∷ rs),
            low_at,
            high_at,
            cheapest-le r (r' ∷ rs),
            le-dearest r (r' ∷ rs),
            ground arith,
            ground arith,
            ground (arith, least, most),
            ground (arith, least, most, divide-eq-ok _ _ e₁),
            ground (arith, divide-eq-ok _ _ e₃),
          ),
        ),
      )
