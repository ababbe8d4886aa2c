-- ===== src/Models/OutOfSample.antt =====
-- core/models/validation.py, `oos_predict`. The model (`core/models/protocols.py`, `Model`) is a
-- parameter: what `make_model` returns, its `fit` and its `predict_proba`. A NaN is `none`.
pub mod Alignment
use compute_quant_lab.Prelude.{
  ℕ, zero, suc, ◌+◌, ◌≤◌, ◌<◌, ◌≡◌, Option, none, some, List, [], ◌∷◌, ◌++◌, arith, eqb, length,
  replicate, get_elem?, set, if◌then◌else◌, map, join, All,
}
use compute_quant_lab.Prelude.Result.{
  Result, ok, err, ◌>>=◌, or_raise, traverse, value_error, index_error,
}
use compute_quant_lab.Models.PurgedKFold.{PurgedKFold, split}

-- `values[indices]`
unfoldable pub gather {ℓ} : {A : Type ℓ} → List A → List ℕ → Result (List A)
gather xs = traverse (λ i. or_raise (get_elem? xs i) index_error)

-- `target[i] = v` for each index with its value.
unfoldable pub assign_each {ℓ} : {A : Type ℓ} → List A → List ℕ → List A → List A
assign_each target [] vs = target
assign_each target (i ∷ is) [] = target
assign_each target (i ∷ is) (v ∷ vs) = assign_each (set target i v) is vs

-- `target[indices] = values`: one value for all indices, or as many as indices.
unfoldable pub assign {ℓ} : {A : Type ℓ} → List A → List ℕ → List A → Result (List A)
unfolding assign_each
assign target is (v ∷ []) = ok (assign_each target is (replicate (length is) v))
assign target is vs =
    if eqb (length is) (length vs) then ok (assign_each target is vs) else err value_error

module _ {X Y M F : Type 0} (make_model : M) (fit : M → List X → List Y → M)
    (predict_proba : M → List X → List F) where
  -- The loop over the folds.
  unfoldable pub predict_folds :
      List X → List Y → List (List ℕ × List ℕ) → List (Option F) → Result (List (Option F))
  unfolding gather assign
  predict_folds x y [] proba = ok proba
  predict_folds x y ((train, test) ∷ rest) proba = do
    x_train ← gather x train
    y_train ← gather y train
    x_test ← gather x test
    let model = fit make_model x_train y_train
    proba' ← assign proba test (map some (predict_proba model x_test))
    predict_folds x y rest proba'

  unfoldable pub oos_predict :
      (List ℕ → ℕ → List (List ℕ)) → List X → List Y → PurgedKFold → Result (List (Option F))
  unfolding predict_folds
  oos_predict array_split x y splitter = do
    folds ← split array_split splitter (length x)
    predict_folds x y folds (replicate (length x) none)
