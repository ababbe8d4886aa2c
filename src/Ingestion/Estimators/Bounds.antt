-- ===== src/Ingestion/Estimators/Bounds.antt =====
-- core/ingestion/estimators.py: what the index wants of a filter and of an estimator.
use compute_quant_lab.Prelude.{
  ℕ, zero, suc, ◌-◌, ◌*◌, ◌≡◌, ◌<◌, inl, inr, refl, sym, ap, Bool, true, false, List, [], ◌∷◌, map,
  length, take, drop, keep, keep-All, All, ltb, arith, if◌then◌else◌, ◌||◌, Bool-cases, length-map,
  length-take, length-drop,
}
use compute_quant_lab.Prelude.Float.{Float, nought, abs, feq, ◌≼◌, IsOrdered}
use compute_quant_lab.Prelude.Int.{ℤ, pos, negsuc}
use compute_quant_lab.Ingestion.Protocols.{VenueRate}
use compute_quant_lab.Ingestion.ComputeIndex.Fixes.{IsRejection, IsBetween}
use compute_quant_lab.Ingestion.Estimators.{
  Numpy, values_of, keep_masked, trimmed, mad_outlier_filter, trimmed_mean, median_rate,
}

-- What numpy documents: a sort moves the values, and a mean and a median of at least one value lie
-- within them.
pub record IsNumpy {F : Type 0} ⦃float : Float F⦄ (np : Numpy F) : Type 1 where
  pub sort-All : (P : F → Type 0) (xs : List F) → All P xs → All P (np.np_sort xs)
  pub length-sort : (xs : List F) → length (np.np_sort xs) ≡ length xs
  pub mean_between :
      (xs : List F) (low high : F)
      → 0 < length xs
      → All (λ x. (float.le low x ≡ true) × (float.le x high ≡ true)) xs
      → (float.le low (np.np_mean xs) ≡ true) × (float.le (np.np_mean xs) high ≡ true)
  pub median_between :
      (xs : List F) (low high : F)
      → 0 < length xs
      → All (λ x. (float.le low x ≡ true) × (float.le x high ≡ true)) xs
      → (float.le low (np.np_median xs) ≡ true) × (float.le (np.np_median xs) high ≡ true)

module _ {F : Type 0} where
  keep_masked-map :
      (p : F → Bool) (f : F → F) (rates : List (VenueRate F))
      → keep_masked rates (map p (map f (values_of rates))) ≡ keep (λ r. p (f r.rate)) rates
  keep_masked-map p f [] = refl
  keep_masked-map p f (r ∷ rates) = ground (arith, keep_masked-map p f rates)

  keep_all : (xs : List (VenueRate F)) → keep (λ x. true) xs ≡ xs
  keep_all [] = refl
  keep_all (x ∷ xs) = ap (λ l. x ∷ l) (keep_all xs)

  filtered :
      (equal : Bool) (p : F → Bool) (f : F → F) (rates : List (VenueRate F))
      → (if equal then rates else keep_masked rates (map p (map f (values_of rates))))
        ≡ keep (λ r. equal || p (f r.rate)) rates
  filtered true p f rates = sym (keep_all rates)
  filtered false p f rates = keep_masked-map p f rates

  take-All : (P : F → Type 0) (n : ℕ) (xs : List F) → All P xs → All P (take n xs)
  take-All P zero xs h = tt
  take-All P (suc n) [] h = tt
  take-All P (suc n) (x ∷ xs) h = (h.0, take-All P n xs h.1)

  drop-All : (P : F → Type 0) (n : ℕ) (xs : List F) → All P xs → All P (drop n xs)
  drop-All P zero xs h = h
  drop-All P (suc n) [] h = tt
  drop-All P (suc n) (x ∷ xs) h = drop-All P n xs h.1

  trimmed-All : (P : F → Type 0) (xs : List F) (k : ℤ) → All P xs → All P (trimmed xs k)
  unfolding trimmed
  trimmed-All P xs (pos k) h = elim (Bool-cases (ltb (2 * k) (length xs))) [
    | inl e ↦ rw e (drop-All P k _ (take-All P (length xs - k) xs h))
    | inr e ↦ rw e h
  ]
  trimmed-All P xs (negsuc k) h = drop-All P (length xs - suc k) xs h

  trimmed_nonempty : (xs : List F) (k : ℤ) → 0 < length xs → 0 < length (trimmed xs k)
  unfolding trimmed
  trimmed_nonempty xs (pos k) h = elim (Bool-cases (ltb (2 * k) (length xs))) [
    | inl e ↦ rw e (
        let short : length (take (length xs - k) xs) ≡ length xs - k =
          length-take (length xs - k) xs (omega arith) in
        let left = length-drop k (take (length xs - k) xs) in ground arith)
    | inr e ↦ rw e h
  ]
  trimmed_nonempty xs (negsuc k) h = omega (arith, length-drop (length xs - suc k) xs)

  values_of-All :
      (P : F → Type 0) (rates : List (VenueRate F))
      → All (λ r. P r.rate) rates
      → All P (values_of rates)
  values_of-All P [] h = tt
  values_of-All P (r ∷ rates) h = (h.0, values_of-All P rates h.1)

module _ {F : Type 0} ⦃float : Float F⦄ (np : Numpy F) (k : F) where
  open np use {np_median}

  -- The rate is within `k` deviations of the median.
  abbrev pub is_close : List (VenueRate F) → VenueRate F → Bool
  is_close rates r =
      let median = np_median (values_of rates) in
      let mad = np_median (map (λ v. abs (float.sub v median)) (values_of rates)) in
      feq mad nought || float.le (abs (float.sub r.rate median)) (float.mul k mad)

  -- The filter keeps the rates whose distance to the median is at most `k` times the median
  -- distance, in their order, and all of them when that median distance is zero.
  pub mad_outlier_filter_lem :
      (rates : List (VenueRate F)) → mad_outlier_filter np k rates ≡ keep (is_close rates) rates
  unfolding mad_outlier_filter
  mad_outlier_filter_lem rates =
      let median = np_median (values_of rates) in
      let mad = np_median (map (λ v. abs (float.sub v median)) (values_of rates)) in
      filtered (feq mad nought) (λ d. float.le d (float.mul k mad)) (λ v. abs (float.sub v median))
        rates

  -- Whatever holds of all the rates holds of all that the filter leaves, as the spot index
  -- wants of a filter.
  pub mad_outlier_filter-IsRejection : IsRejection (mad_outlier_filter np k)
  mad_outlier_filter-IsRejection = record {
    rejects = λ P rates h. rw (mad_outlier_filter_lem rates) (keep-All P (is_close rates) rates h);
  }

module _ {F : Type 0} ⦃float : Float F⦄ (laws : IsOrdered F) (np : Numpy F)
    (numpy : IsNumpy np) where
  open numpy use {sort-All, length-sort, mean_between, median_between}

  -- Whatever the proportion that is trimmed, the trimmed mean of at least one rate lies within
  -- any bounds on the rates, given that numpy's sort moves the values and that its mean lies
  -- within them.
  pub trimmed_mean-IsBetween : (trim : F) → IsBetween laws (trimmed_mean np trim)
  unfolding trimmed_mean
  trimmed_mean-IsBetween trim rates low high some_rate h =
      let values = np.np_sort (values_of rates) in
      let k = np.floor (float.mul trim (float.of_nat (length values))) in
      let P : F → Type 0 = λ x. (low ≼ x) × (x ≼ high) in
      mean_between (trimmed values k) low high
        (trimmed_nonempty values k
          (omega (arith, length-sort (values_of rates), length-map (λ r. r.rate) rates)))
        (trimmed-All P values k (sort-All P _ (values_of-All P rates h)))

  -- So does the median.
  pub median_rate-IsBetween : IsBetween laws (median_rate np)
  unfolding median_rate
  median_rate-IsBetween rates low high some_rate h =
      median_between (values_of rates) low high (omega (arith, length-map (λ r. r.rate) rates))
        (values_of-All (λ x. (low ≼ x) × (x ≼ high)) rates h)
