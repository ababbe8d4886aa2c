-- ===== src/Ingestion/Estimators.antt =====
-- core/ingestion/estimators.py: the outlier filters and the estimators of the spot index. numpy's
-- median, sort, mean and weighted average are parameters, and so is its `floor`; the labels that
-- the classes derive from their parameters are left out.
pub mod Bounds
use compute_quant_lab.Prelude.{
  ℕ, zero, suc, ◌+◌, ◌-◌, ◌*◌, ◌≡◌, ◌≤◌, ◌<◌, ◌⊎◌, inl, inr, refl, ap, Bool, true, false, List, [],
  ◌∷◌, map, length, take, drop, keep, keep-All, All, All-imp, ltb, arith, if◌then◌else◌, ◌||◌,
  Bool-cases, length-map, length-take, length-drop,
}
use compute_quant_lab.Prelude.Float.{Float, nought, abs, feq, ◌≼◌, IsOrdered}
use compute_quant_lab.Prelude.Int.{ℤ, pos, negsuc}
use compute_quant_lab.Ingestion.Protocols.{VenueRate}
use compute_quant_lab.Ingestion.ComputeIndex.Fixes.{IsRejection, IsBetween}

pub record Numpy (F : Type 0) : Type 0 where
  pub np_median : List F → F
  pub np_sort : List F → List F
  pub np_mean : List F → F
  -- `np.average(values, weights=weights)`
  pub np_average : List F → List F → F
  pub np_sum : List F → F
  pub floor : F → ℤ
  pub of_int : ℤ → F

module _ {F : Type 0} where
  -- `NoOutlierFilter.filter`
  unfoldable pub no_outlier_filter : List (VenueRate F) → List (VenueRate F)
  no_outlier_filter rates = rates

  abbrev pub values_of : List (VenueRate F) → List F
  values_of rates = map (λ r. r.rate) rates

  -- `[r for r, ok in zip(rates, keep) if ok]`
  abbrev pub keep_masked : List (VenueRate F) → List Bool → List (VenueRate F)
  keep_masked [] mask = []
  keep_masked (r ∷ rates) [] = []
  keep_masked (r ∷ rates) (ok ∷ mask) =
      if ok then r ∷ keep_masked rates mask else keep_masked rates mask

  -- `values[k : n - k] if n - 2 * k > 0 else values`; a negative `k` counts from the end.
  unfoldable pub trimmed : List F → ℤ → List F
  trimmed values (pos k) =
      if ltb (2 * k) (length values) then drop k (take (length values - k) values) else values
  trimmed values (negsuc k) = drop (length values - suc k) values

module _ {F : Type 0} ⦃float : Float F⦄ (np : Numpy F) where
  open np use {np_median, np_sort, np_mean, np_average, np_sum, floor, of_int}

  -- `MadOutlierFilter.filter`
  unfoldable pub mad_outlier_filter : F → List (VenueRate F) → List (VenueRate F)
  mad_outlier_filter k rates =
      let values = values_of rates in
      let median = np_median values in
      let deviations = map (λ v. abs (float.sub v median)) values in
      let mad = np_median deviations in
      if feq mad nought
      then rates
      else keep_masked rates (map (λ d. float.le d (float.mul k mad)) deviations)

  -- `TrimmedMean.estimate`
  unfoldable pub trimmed_mean : F → List (VenueRate F) → F
  unfolding trimmed
  trimmed_mean trim rates =
      let values = np_sort (values_of rates) in
      np_mean (trimmed values (floor (float.mul trim (float.of_nat (length values)))))

  -- `Median.estimate`
  unfoldable pub median_rate : List (VenueRate F) → F
  median_rate rates = np_median (values_of rates)

  -- `AvailabilityWeightedMean.estimate`
  unfoldable pub availability_weighted_mean : List (VenueRate F) → F
  availability_weighted_mean rates =
      let values = values_of rates in
      let weights = map (λ r. of_int r.availability) rates in
      if float.le (np_sum weights) nought then np_mean values else np_average values weights
