-- ===== src/Models/OutOfSample/Alignment.antt =====
-- core/models/validation.py, `oos_predict`: the prediction vector, row by row.
use compute_quant_lab.Prelude.{
  ℕ, zero, suc, ◌+◌, ◌-◌, ◌≤◌, ◌<◌, ◌≡◌, refl, ap, ◌∙◌, Option, none, some, List, [], ◌∷◌, ◌++◌,
  arith, length, length-append, length-map, replicate, get_elem?, get_elem?-lt, set, map, join, All,
  keep-All,
}
use mathlib.Core.List.{append_assoc, map-append, append-nil}
use compute_quant_lab.Prelude.Result.{ok}
use compute_quant_lab.Models.PurgedKFold.{PurgedKFold, split, arange}
use compute_quant_lab.Models.PurgedKFold.Folds.{IsArraySplit, IsExact, cut_arange, split_lem}
use compute_quant_lab.Models.OutOfSample.{gather, assign_each, assign, predict_folds, oos_predict}

-- The entries at the given places.
abbrev pub pick {ℓ} : {A : Type ℓ} → List A → List ℕ → List A
pick xs [] = []
pick xs (i ∷ is) = elim (get_elem? xs i) [ none ↦ pick xs is | some a ↦ a ∷ pick xs is ]

gather-pick {ℓ} :
    {A : Type ℓ} (xs : List A) (is : List ℕ)
    → All (λ i. i < length xs) is
    → gather xs is ≡ ok (pick xs is)
unfolding gather
gather-pick xs [] h = refl
gather-pick xs (i ∷ is) (p, ps) =
    let (a, e) = get_elem?-lt xs i p in ground (arith, gather-pick xs is ps)

length-pick {ℓ} :
    {A : Type ℓ} (xs : List A) (is : List ℕ)
    → All (λ i. i < length xs) is
    → length (pick xs is) ≡ length is
length-pick xs [] h = refl
length-pick xs (i ∷ is) (p, ps) =
    let (a, e) = get_elem?-lt xs i p in ground (arith, length-pick xs is ps)

assign_lem {ℓ} :
    {A : Type ℓ} (target : List A) (is : List ℕ) (vs : List A)
    → length is ≡ length vs
    → assign target is vs ≡ ok (assign_each target is vs)
unfolding assign
assign_lem target is [] h = ground arith
assign_lem target is (v ∷ []) h = rw h
assign_lem target is (v ∷ w ∷ vs) h = ground arith

set-append {ℓ} :
    {A : Type ℓ} (pre post : List A) (a v : A)
    → set (pre ++ (a ∷ post)) (length pre) v ≡ pre ++ (v ∷ post)
set-append [] post a v = refl
set-append (x ∷ pre) post a v = ap (λ l. x ∷ l) (set-append pre post a v)

assign_each-arange {ℓ} :
    {A : Type ℓ} (pre vs : List A) (m : ℕ) (a : A)
    → length vs ≤ m
    → assign_each (pre ++ replicate m a) (arange (length pre) (length vs)) vs
      ≡ (pre ++ vs) ++ replicate (m - length vs) a
unfolding assign_each
assign_each-arange pre [] m a h = simp append-nil (ap (λ n. pre ++ replicate n a) (omega arith))
assign_each-arange pre (v ∷ vs) zero a h = absurd (omega arith)
assign_each-arange pre (v ∷ vs) (suc m) a h =
    let step = assign_each-arange (pre ++ (v ∷ [])) vs m a (omega arith) in
    let next : length (pre ++ (v ∷ [])) ≡ length pre + 1 = length-append pre (v ∷ []) in
    let rest : suc m - suc (length vs) ≡ m - length vs = omega arith in
    ap (λ t. assign_each t (arange (length pre + 1) (length vs)) vs)
      (set-append pre (replicate m a) a v)
    ∙ simp (append_assoc, rest) (simp (next, append_assoc) at step)

assign_block {ℓ} :
    {A : Type ℓ} (done vals : List A) (test : List ℕ) (m : ℕ)
    → test ≡ arange (length done) (length test)
    → length vals ≡ length test
    → length test ≤ m
    → assign (map some done ++ replicate m none) test (map some vals)
      ≡ ok (map some (done ++ vals) ++ replicate (m - length test) none)
assign_block {A} done vals test m e same h =
    let done' : List (Option A) = map some done in
    let vals' : List (Option A) = map some vals in
    let places : test ≡ arange (length done') (length vals') =
      e
      ∙ cc (
        length-map {A = A} {B = Option A} some done,
        length-map {A = A} {B = Option A} some vals,
      ) in
    let count : length vals' ≡ length test = length-map some vals ∙ same in
    let filled = assign_each-arange done' vals' m none (omega arith) in
    let written : assign_each (done' ++ replicate m none) test vals'
        ≡ (done' ++ vals') ++ replicate (m - length vals') none =
      ap (λ is. assign_each (done' ++ replicate m none) is vals') places ∙ filled in
    assign_lem (done' ++ replicate m none) test vals' (omega arith)
    ∙ ap ok written
    ∙ rw (count, map-append)

arange-All : (s m n : ℕ) → s + m ≤ n → All (λ i. i < n) (arange s m)
arange-All s zero n h = tt
arange-All s (suc m) n h = (omega arith, arange-All (s + 1) m n (omega arith))

module _ {X Y M F : Type 0} (make_model : M) (fit : M → List X → List Y → M)
    (predict_proba : M → List X → List F)
    (one_each : (m : M) (rows : List X) → length (predict_proba m rows) ≡ length rows) where
  -- What a fresh model, fitted to the training rows, predicts for the test rows.
  abbrev pub prediction : List X → List Y → List ℕ × List ℕ → List F
  prediction x y (train, test) =
      predict_proba (fit make_model (pick x train) (pick y train)) (pick x test)

  fold_round :
      (x : List X) (y : List Y) (train test : List ℕ) (rest : List (List ℕ × List ℕ))
      (done : List F) (m : ℕ)
      → All (λ i. i < length x) train
      → All (λ i. i < length y) train
      → All (λ i. i < length x) test
      → test ≡ arange (length done) (length test)
      → length test ≤ m
      → predict_folds make_model fit predict_proba x y
          ((train, test) ∷ rest)
          (map some done ++ replicate m none)
        ≡ predict_folds make_model fit predict_proba x y rest
            (map some (done ++ prediction x y (train, test)) ++ replicate (m - length test) none)
  unfolding predict_folds
  fold_round x y train test rest done m hx hy ht e h =
      let vals = prediction x y (train, test) in
      rw (
        gather-pick x train hx,
        gather-pick y train hy,
        gather-pick x test ht,
        assign_block done vals test m e (one_each _ _ ∙ length-pick x test ht) h,
      )

  folds_rounds :
      (k : PurgedKFold) (x : List X) (y : List Y) (folds : List (List ℕ × List ℕ)) (done : List F)
      (m : ℕ)
      → length y ≡ length x
      → length done + m ≡ length x
      → join (map (λ f. f.1) folds) ≡ arange (length done) m
      → All (IsExact k (length x)) folds
      → (predict_folds make_model fit predict_proba x y folds (map some done ++ replicate m none)
          ≡ ok (map some (done ++ join (map (prediction x y) folds))))
        × (length (done ++ join (map (prediction x y) folds)) ≡ length x)
  unfolding predict_folds
  folds_rounds k x y [] done zero same size covers exact =
      (simp append-nil, rw append-nil (omega arith))
  folds_rounds k x y [] done (suc m) same size covers exact = absurd (cc)
  folds_rounds k x y ((train, test) ∷ folds) done m same size covers exact =
      let (block, others, fits) =
        cut_arange test (join (map (λ f. f.1) folds)) (length done) m covers in
      let within : All (λ i. i < length x) train =
        rw (exact.0) (keep-All _ _ _ (arange-All 0 (length x) (length x) (omega arith))) in
      let tests : All (λ i. i < length x) test =
        rw block (arange-All (length done) (length test) (length x) (omega arith)) in
      let vals = prediction x y (train, test) in
      let count : length vals ≡ length test = one_each _ _ ∙ length-pick x test tests in
      let grown : length (done ++ vals) ≡ length done + length test =
        omega (arith, length-append done vals) in
      let rounds =
        folds_rounds k x y folds (done ++ vals) (m - length test) same (omega arith)
          (rw grown others) exact.1 in
      (
        fold_round x y train test folds done m within (rw same within) tests block fits
            ∙ rounds.0
            ∙ ap (λ l. ok (map some l)) (append_assoc done vals _),
        rw (append_assoc done vals (join (map (prediction x y) folds))) at rounds.1,
      )

  -- With as many labels as rows, and at least as many rows as folds, `oos_predict` gives every row
  -- of `x` one prediction and leaves no NaN. The vector is, fold by fold and in row order, what a
  -- fresh model predicts for the test rows after it was fitted to that fold's training rows, and
  -- every training set holds only samples that stand apart from that fold's test samples.
  pub oos_predict_lem :
      (array_split : List ℕ → ℕ → List (List ℕ)) (laws : IsArraySplit array_split) (k : PurgedKFold)
      (x : List X) (y : List Y)
      → length y ≡ length x
      → 1 < k.n_splits
      → k.n_splits ≤ length x
      → (folds : List (List ℕ × List ℕ)) × (split array_split k (length x) ≡ ok folds)
        × (oos_predict make_model fit predict_proba array_split x y k
            ≡ ok (map some (join (map (prediction x y) folds))))
        × (length (join (map (prediction x y) folds)) ≡ length x)
        × All (IsExact k (length x)) folds
  unfolding oos_predict
  oos_predict_lem array_split laws k x y same many enough =
      let (folds, made, _, covers, exact) = split_lem array_split laws k (length x) many enough in
      let rounds = folds_rounds k x y folds [] (length x) same (omega arith) covers exact in
      (folds, made, rw made rounds.0, rounds.1, exact)
