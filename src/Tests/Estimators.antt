-- ===== src/Tests/Estimators.antt =====
-- core/ingestion/estimators.py: four venues, one of them far off, in whole numbers.
use compute_quant_lab.Prelude.{◌<◌, refl, List, [], ◌∷◌, length, All, arith}
use compute_quant_lab.Prelude.Float.{int_float, int-IsOrdered, ◌≼◌}
use compute_quant_lab.Prelude.Int.{ℤ, pos}
use compute_quant_lab.Ingestion.Protocols.{VenueRate}
use compute_quant_lab.Ingestion.ComputeIndex.Fixes.{IsBetween}
use compute_quant_lab.Ingestion.Estimators.{Numpy, median_rate}
use compute_quant_lab.Ingestion.Estimators.Bounds.{IsNumpy, median_rate-IsBetween}

-- The second of the values, or the first, stands for the middle of short sorted arrays.
abbrev middle : List ℤ → ℤ
middle [] = pos 0
middle (x ∷ []) = x
middle (x ∷ y ∷ zs) = y

abbrev np : Numpy ℤ
np = record {
  np_median = middle;
  np_sort = λ xs. xs;
  np_mean = middle;
  np_average = λ xs ws. middle xs;
  np_sum = middle;
  floor = λ x. x;
  of_int = λ x. x;
}

middle_between :
    (xs : List ℤ) (low high : ℤ)
    → 0 < length xs
    → All (λ x. (low ≼ x) × (x ≼ high)) xs
    → (low ≼ middle xs) × (middle xs ≼ high)
middle_between [] low high some_value h = absurd (omega arith)
middle_between (x ∷ []) low high some_value h = h.0
middle_between (x ∷ y ∷ zs) low high some_value h = h.1.0

np-IsNumpy : IsNumpy np
np-IsNumpy = record {
  sort-All = λ P xs h. h;
  length-sort = λ xs. refl;
  mean_between = middle_between;
  median_between = middle_between;
}

abbrev quote : ℤ → VenueRate ℤ
quote x = record { source = "v"; rate = x; availability = pos 1; snapshotted_at = 0 }

abbrev rates : List (VenueRate ℤ)
rates = quote (pos 2) ∷ quote (pos 3) ∷ quote (pos 3) ∷ quote (pos 40) ∷ []

median_rate-IsBetween_example : IsBetween int-IsOrdered (median_rate np)
median_rate-IsBetween_example = median_rate-IsBetween int-IsOrdered np np-IsNumpy
