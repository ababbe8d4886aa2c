-- ===== src/Tests/Models.antt =====
-- core/models: runs and instances.
use compute_quant_lab.Prelude.{
  ℕ, ◌+◌, ◌≡◌, refl, some, List, [], ◌∷◌, arith, length, length-map, map, join, All,
}
use compute_quant_lab.Prelude.Int.{pos}
use compute_quant_lab.Prelude.Result.{ok}
use compute_quant_lab.Models.PurgedKFold.{PurgedKFold, make, arange, split}
use compute_quant_lab.Models.PurgedKFold.Folds.{IsExact, split_lem}
use compute_quant_lab.Models.OutOfSample.{oos_predict}
use compute_quant_lab.Models.OutOfSample.Alignment.{prediction, oos_predict_lem}
use compute_quant_lab.Tests.Sections.{sections, sections-IsArraySplit}

abbrev three_folds : PurgedKFold
three_folds = record { n_splits = 3; horizon = 1; embargo = 2 }

make-three : make (pos 3) (pos 1) (some (pos 2)) ≡ ok three_folds
unfolding make
make-three = refl

split-ten :
    split sections three_folds 10
    ≡ ok (
        (6 ∷ 7 ∷ 8 ∷ 9 ∷ [], 0 ∷ 1 ∷ 2 ∷ 3 ∷ [])
        ∷ (0 ∷ 1 ∷ 2 ∷ 9 ∷ [], 4 ∷ 5 ∷ 6 ∷ [])
        ∷ (0 ∷ 1 ∷ 2 ∷ 3 ∷ 4 ∷ 5 ∷ [], 7 ∷ 8 ∷ 9 ∷ [])
        ∷ [])
unfolding split sections
split-ten = refl

split_lem_example :
    (out : List (List ℕ × List ℕ)) × (split sections three_folds 10 ≡ ok out)
    × (length out ≡ 3)
    × (join (map (λ f. f.1) out) ≡ arange 0 10)
    × All (IsExact three_folds 10) out
split_lem_example =
    split_lem sections sections-IsArraySplit three_folds 10 (omega arith) (omega arith)

-- A model that predicts, for each row, the sum of its training labels and the row.
abbrev total : List ℕ → ℕ
total [] = 0
total (x ∷ xs) = x + total xs

abbrev learn : ℕ → List ℕ → List ℕ → ℕ
learn m x y = m + total y

abbrev guess : ℕ → List ℕ → List ℕ
guess m = map (λ x. m + x)

one_guess_each : (m : ℕ) (xs : List ℕ) → length (guess m xs) ≡ length xs
one_guess_each m xs = length-map (λ x. m + x) xs

abbrev rows : List ℕ
rows = 10 ∷ 20 ∷ 30 ∷ 40 ∷ []

abbrev labels : List ℕ
labels = 1 ∷ 2 ∷ 3 ∷ 4 ∷ []

abbrev two_folds : PurgedKFold
two_folds = record { n_splits = 2; horizon = 1; embargo = 0 }

oos_predict-rows :
    oos_predict 0 learn guess sections rows labels two_folds
    ≡ ok (some 17 ∷ some 27 ∷ some 31 ∷ some 41 ∷ [])
unfolding oos_predict split sections
oos_predict-rows = refl

oos_predict_lem_example :
    (folds : List (List ℕ × List ℕ)) × (split sections two_folds 4 ≡ ok folds)
    × (oos_predict 0 learn guess sections rows labels two_folds
        ≡ ok (map some (join (map (prediction 0 learn guess one_guess_each rows labels) folds))))
    × (length (join (map (prediction 0 learn guess one_guess_each rows labels) folds)) ≡ 4)
    × All (IsExact two_folds 4) folds
oos_predict_lem_example =
    oos_predict_lem 0 learn guess one_guess_each sections sections-IsArraySplit two_folds rows
      labels refl (omega arith) (omega arith)
