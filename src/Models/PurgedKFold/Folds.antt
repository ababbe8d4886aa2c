-- ===== src/Models/PurgedKFold/Folds.antt =====
-- core/models/validation.py, `PurgedKFold.split`: all folds of a split.
use compute_quant_lab.Prelude.{
  ℕ, zero, suc, ◌+◌, ◌-◌, ◌/◌, ◌≤◌, ◌<◌, ◌≡◌, refl, sym, ◌∙◌, ap, Bool, ◌||◌, List, [], ◌∷◌, ◌++◌,
  arith, ltb, map, keep, length, All, All-imp, every, join,
}
use compute_quant_lab.Prelude.Result.{ok, err, value_error}
use compute_quant_lab.Models.PurgedKFold.{
  PurgedKFold, arange, select, train_mask, last, folds, split,
}
use compute_quant_lab.Models.PurgedKFold.Masks.{allowed, select-map, train_mask_lem}

-- What numpy documents of `array_split`: the sections put together again are the array, there are
-- as many as asked for, and each has the rounded-down share of the entries or one more.
pub record IsArraySplit (array_split : List ℕ → ℕ → List (List ℕ)) : Type 0 where
  pub joins : (xs : List ℕ) (k : ℕ) → 0 < k → join (array_split xs k) ≡ xs
  pub counts : (xs : List ℕ) (k : ℕ) → 0 < k → length (array_split xs k) ≡ k
  pub sizes :
      (xs : List ℕ) (k : ℕ)
      → 0 < k
      → All (λ b. (length xs / k ≤ length b) × (length b ≤ length xs / k + 1)) (array_split xs k)

-- The label window `[i, i + horizon]` of `i` ends before `j`, or `i` comes after the embargo of `j`.
abbrev pub apart : PurgedKFold → ℕ → ℕ → Bool
apart k i j = ltb (i + k.horizon) j || ltb (j + k.embargo) i

-- The training set holds exactly the samples that stand apart from every sample of the test set.
abbrev pub IsExact : PurgedKFold → ℕ → List ℕ × List ℕ → Type 0
IsExact k n (train, test) = train ≡ keep (λ i. every (apart k i) test) (arange 0 n)

pub cut_arange :
    (b r : List ℕ) (s m : ℕ)
    → b ++ r ≡ arange s m
    → (b ≡ arange s (length b)) × (r ≡ arange (s + length b) (m - length b)) × (length b ≤ m)
cut_arange [] r s m h = (refl, rw h (ground arith), omega arith)
cut_arange (x ∷ b) r s zero h = absurd (cc)
cut_arange (x ∷ b) r s (suc m) h = ground (arith, cut_arange b r (s + 1) m)

last-arange : (s l : ℕ) → last s (arange (s + 1) l) ≡ s + l
last-arange s zero = omega arith
last-arange s (suc l) = last-arange (s + 1) l ∙ omega arith

every-apart :
    (k : PurgedKFold) (i s l : ℕ) → every (apart k i) (arange s (suc l)) ≡ allowed k s (s + l) i
every-apart k i s zero = ground arith
every-apart k i s (suc l) = ground (arith, every-apart k i (s + 1) l)

keep_congr : (p q : ℕ → Bool) (xs : List ℕ) → ((i : ℕ) → p i ≡ q i) → keep p xs ≡ keep q xs
keep_congr p q [] h = refl
keep_congr p q (x ∷ xs) h = ground (arith, h x, keep_congr p q xs h)

pub length-arange : (s n : ℕ) → length (arange s n) ≡ n
length-arange s zero = refl
length-arange s (suc n) = ap suc (length-arange (s + 1) n)

div_pos : (n k : ℕ) → 0 < k → k ≤ n → 0 < n / k
div_pos n k p h = grind arith

module _ (k : PurgedKFold) (n : ℕ) where
  fold-IsExact :
      (t : ℕ) (ts : List ℕ) (s l : ℕ)
      → t ∷ ts ≡ arange s (suc l)
      → s + l < n
      → IsExact k n (select (arange 0 n) (train_mask k n t (last t ts)), t ∷ ts)
  fold-IsExact t ts s l e h =
      let e₀ : t ≡ s = cc in
      let e₁ : ts ≡ arange (s + 1) l = cc in
      rw (e₀, e₁, last-arange, train_mask_lem k n s (s + l) (omega arith) h, select-map)
        (keep_congr _ _ (arange 0 n) (λ i. sym (every-apart k i s l)))

  folds-IsExact :
      (blocks : List (List ℕ)) (s m : ℕ)
      → join blocks ≡ arange s m
      → s + m ≤ n
      → All (IsExact k n) (folds k n blocks)
  unfolding folds
  folds-IsExact [] s m h p = tt
  folds-IsExact ([] ∷ blocks) s m h p = folds-IsExact blocks s m h p
  folds-IsExact ((t ∷ ts) ∷ blocks) s m h p =
      let (block, rest, fits) = cut_arange (t ∷ ts) (join blocks) s m h in
      (
        fold-IsExact t ts s (length ts) block (omega arith),
        folds-IsExact blocks (s + suc (length ts)) (m - suc (length ts)) rest (omega arith),
      )

  join-folds : (blocks : List (List ℕ)) → join (map (λ f. f.1) (folds k n blocks)) ≡ join blocks
  unfolding folds
  join-folds [] = refl
  join-folds ([] ∷ blocks) = join-folds blocks
  join-folds ((t ∷ ts) ∷ blocks) = rw (join-folds blocks)

  length-folds :
      (blocks : List (List ℕ))
      → All (λ b. 0 < length b) blocks
      → length (folds k n blocks) ≡ length blocks
  unfolding folds
  length-folds [] h = refl
  length-folds ([] ∷ blocks) h = absurd (omega arith)
  length-folds ((t ∷ ts) ∷ blocks) h = ap suc (length-folds blocks h.1)

module _ (array_split : List ℕ → ℕ → List (List ℕ)) (laws : IsArraySplit array_split)
    (k : PurgedKFold) (n : ℕ) (many : 1 < k.n_splits) where
  open laws use {joins, counts, sizes}

  nonempty : k.n_splits ≤ n → All (λ b. 0 < length b) (array_split (arange 0 n) k.n_splits)
  nonempty h =
      All-imp _ _ (λ b size. lower (length b) (size.0)) _
        (sizes (arange 0 n) k.n_splits (omega arith))
    where
      lower : (b : ℕ) → length (arange 0 n) / k.n_splits ≤ b → 0 < b
      lower b p =
          let q : 0 < n / k.n_splits = div_pos n k.n_splits (omega arith) h in
          omega (arith, length-arange 0 n, rw (length-arange 0 n) at p)

  -- With at least as many samples as folds, `split` succeeds and gives `n_splits` folds. The test
  -- sets put together are all samples in order, so each is tested exactly once. Each training set
  -- holds exactly the samples whose label window `[i, i + horizon]` ends before every test sample
  -- or that come after every test sample and its embargo.
  pub split_lem :
      k.n_splits ≤ n
      → (out : List (List ℕ × List ℕ)) × (split array_split k n ≡ ok out)
        × (length out ≡ k.n_splits)
        × (join (map (λ f. f.1) out) ≡ arange 0 n)
        × All (IsExact k n) out
  unfolding split
  split_lem h =
      let blocks = array_split (arange 0 n) k.n_splits in
      let whole = joins (arange 0 n) k.n_splits (omega arith) in
      (
        folds k n blocks,
        ground arith,
        length-folds k n blocks (nonempty h) ∙ counts (arange 0 n) k.n_splits (omega arith),
        join-folds k n blocks ∙ whole,
        folds-IsExact k n blocks 0 n whole (omega arith),
      )

  -- With fewer samples than folds, `split` raises a `ValueError`.
  pub split_refuses : n < k.n_splits → split array_split k n ≡ err value_error
  unfolding split
  split_refuses h = ground arith
