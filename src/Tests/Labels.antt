-- ===== src/Tests/Labels.antt =====
-- core/models/pipeline.py: labels of a short spread, in whole numbers.
use compute_quant_lab.Prelude.{
  ℕ, zero, suc, ◌+◌, ◌≡◌, ◌<◌, ◌≤◌, refl, Option, none, some, List, [], ◌∷◌, length, get_elem?,
  arith, ap,
}
use compute_quant_lab.Prelude.Float.{int_float}
use compute_quant_lab.Prelude.Int.{ℤ, pos, ◌-ℤ◌}
use compute_quant_lab.Prelude.Result.{ok}
use compute_quant_lab.Models.Pipeline.{build_labels, label, IsShift, build_labels_lem}

-- The entry at each place from `i` on, `left` in number.
abbrev entry : List (Option ℤ) → ℕ → Option ℤ
entry [] i = none
entry (x ∷ xs) zero = x
entry (x ∷ xs) (suc i) = entry xs i

abbrev entries : List (Option ℤ) → ℕ → ℕ → List (Option ℤ)
entries xs i zero = []
entries xs i (suc left) = entry xs i ∷ entries xs (i + 1) left

abbrev shift_up : ℕ → List (Option ℤ) → List (Option ℤ)
shift_up k xs = entries xs k (length xs)

length-entries : (xs : List (Option ℤ)) (i left : ℕ) → length (entries xs i left) ≡ left
length-entries xs i zero = refl
length-entries xs i (suc left) = ap suc (length-entries xs (i + 1) left)

entries_lem :
    (xs : List (Option ℤ)) (i left j : ℕ)
    → j < left
    → get_elem? (entries xs i left) j ≡ some (entry xs (j + i))
entries_lem xs i zero j h = absurd (omega arith)
entries_lem xs i (suc left) zero h = ground arith
entries_lem xs i (suc left) (suc j) h = grind (arith, entries_lem xs (i + 1) left j)

entry_lem :
    (xs : List (Option ℤ)) (i : ℕ) (x : Option ℤ)
    → get_elem? xs i ≡ some x
    → (entry xs i ≡ x) × (i < length xs)
entry_lem [] i x e = absurd (cc)
entry_lem (y ∷ xs) zero x e = ground arith
entry_lem (y ∷ xs) (suc i) x e = ground (arith, entry_lem xs i x e)

entry_past : (xs : List (Option ℤ)) (i : ℕ) → length xs ≤ i → entry xs i ≡ none
entry_past [] i h = refl
entry_past (x ∷ xs) zero h = absurd (omega arith)
entry_past (x ∷ xs) (suc i) h = entry_past xs i (omega arith)

shift_up-IsShift : IsShift shift_up
shift_up-IsShift = record {
  length-shift = λ k xs. length-entries xs k (length xs);
  shifted = λ k i xs x e.
      let (here, within) = entry_lem xs (i + k) x e in
      grind (arith, entries_lem xs k (length xs) i);
  shifted_past =
      λ k i xs within past. grind (arith, entries_lem xs k (length xs) i, entry_past xs (i + k));
}

abbrev spread : List (Option ℤ)
spread = some (pos 4) ∷ some (pos 6) ∷ none ∷ some (pos 5) ∷ some (pos 3) ∷ []

labels_run :
    build_labels shift_up spread (pos 1)
    ≡ ok (some (pos 1) ∷ none ∷ none ∷ some (pos 0) ∷ none ∷ [])
unfolding build_labels ◌-ℤ◌
labels_run = refl

build_labels_lem_example :
    (labels : List (Option ℤ)) × (build_labels shift_up spread (pos 1) ≡ ok labels)
    × (length labels ≡ 5)
    × ((i : ℕ) (now later : Option ℤ)
        → get_elem? spread i ≡ some now
        → get_elem? spread (i + 1) ≡ some later
        → get_elem? labels i ≡ some (label later now))
    × ((i : ℕ) → i < 5 → 5 ≤ i + 1 → get_elem? labels i ≡ some none)
build_labels_lem_example = build_labels_lem shift_up spread 1 shift_up-IsShift (omega arith)
