-- ===== src/Models/PurgedKFold.antt =====
-- core/models/validation.py, `class PurgedKFold`. Arrays of indices are lists of numbers, and a
-- Boolean mask is a list of the same length. `np.array_split` is a parameter.
pub mod Masks
pub mod Folds
pub mod Config
use compute_quant_lab.Prelude.{
  ℕ, zero, suc, ◌+◌, ◌-◌, ◌≡◌, Bool, true, false, Option, none, some, List, [], ◌∷◌, ltb, length,
  replicate, if◌then◌else◌, map,
}
use compute_quant_lab.Prelude.Int.{ℤ, pos, pos_part, ltb_ℤ}
use compute_quant_lab.Prelude.Result.{Result, ok, err, ◌>>=◌, ◌>>◌, raise_if, value_error}
use Prim.Native.Nat.{min}

pub record PurgedKFold : Type 0 where
  pub n_splits : ℕ
  pub horizon : ℕ
  pub embargo : ℕ

-- `embargo` is `horizon` unless it is given.
abbrev pub default_embargo : Option ℤ → ℤ → ℤ
default_embargo none horizon = horizon
default_embargo (some embargo) horizon = embargo

unfoldable pub make : ℤ → ℤ → Option ℤ → Result PurgedKFold
make n_splits horizon embargo = do
  raise_if (ltb_ℤ n_splits (pos 2)) value_error
  raise_if (ltb_ℤ horizon (pos 0)) value_error
  raise_if (ltb_ℤ (default_embargo embargo horizon) (pos 0)) value_error
  ok (record {
    n_splits = pos_part n_splits;
    horizon = pos_part horizon;
    embargo = pos_part (default_embargo embargo horizon);
  })

-- `[start, start + 1, …]`, `len` entries; `np.arange(n)` is `arange 0 n`.
abbrev pub arange : ℕ → ℕ → List ℕ
arange start zero = []
arange start (suc len) = start ∷ arange (start + 1) len

-- `mask[lo:hi] = False`
unfoldable pub clear : ℕ → ℕ → List Bool → List Bool
clear lo zero mask = mask
clear lo (suc hi) [] = []
clear zero (suc hi) (m ∷ mask) = false ∷ clear zero hi mask
clear (suc lo) (suc hi) (m ∷ mask) = m ∷ clear lo hi mask

-- `values[mask]`
abbrev pub select {ℓ} : {A : Type ℓ} → List A → List Bool → List A
select [] mask = []
select (x ∷ xs) [] = []
select (x ∷ xs) (m ∷ mask) = if m then x ∷ select xs mask else select xs mask

abbrev pub last : ℕ → List ℕ → ℕ
last t [] = t
last t (u ∷ us) = last u us

-- The training mask of the test block from `t0` to `t1`: without the block itself, without the
-- purged samples before it and without the embargoed ones after it.
unfoldable pub train_mask : PurgedKFold → ℕ → ℕ → ℕ → List Bool
unfolding clear
train_mask k n t0 t1 =
    clear (t1 + 1) (min n (t1 + 1 + k.embargo))
      (clear (t0 - k.horizon) t0 (clear t0 (t1 + 1) (replicate n true)))

-- One round of the loop; an empty block is skipped.
unfoldable pub folds : PurgedKFold → ℕ → List (List ℕ) → List (List ℕ × List ℕ)
unfolding train_mask
folds k n [] = []
folds k n ([] ∷ blocks) = folds k n blocks
folds k n ((t ∷ ts) ∷ blocks) =
    (select (arange 0 n) (train_mask k n t (last t ts)), t ∷ ts) ∷ folds k n blocks

module _ (array_split : List ℕ → ℕ → List (List ℕ)) where
  unfoldable pub split : PurgedKFold → ℕ → Result (List (List ℕ × List ℕ))
  unfolding folds
  split k n_samples = do
    raise_if (ltb n_samples k.n_splits) value_error
    ok (folds k n_samples (array_split (arange 0 n_samples) k.n_splits))
