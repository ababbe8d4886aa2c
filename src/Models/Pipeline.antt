-- ===== src/Models/Pipeline.antt =====
-- core/models/pipeline.py, `build_labels`. A series is the list of its values, `none` for a NaN;
-- `Series.shift` with a negative argument is a parameter.
use compute_quant_lab.Prelude.{
  ℕ, zero, suc, ◌+◌, ◌≡◌, ◌≤◌, ◌<◌, refl, ap, ◌∙◌, Option, none, some, List, [], ◌∷◌, length,
  get_elem?, get_elem?-lt, arith, if◌then◌else◌,
}
use compute_quant_lab.Prelude.Float.{Float, nought, unit, lt}
use compute_quant_lab.Prelude.Int.{ℤ, pos, ltb_ℤ, pos_part}
use compute_quant_lab.Prelude.Result.{Result, ok, ◌>>◌, raise_if, value_error}

module _ {F : Type 0} ⦃float : Float F⦄ where
  -- `a - b` on two series of one length, entry by entry; NaN where either is.
  abbrev pub minus_each : List (Option F) → List (Option F) → List (Option F)
  minus_each [] ys = []
  minus_each (x ∷ xs) [] = []
  minus_each (some x ∷ xs) (some y ∷ ys) = some (float.sub x y) ∷ minus_each xs ys
  minus_each (none ∷ xs) (y ∷ ys) = none ∷ minus_each xs ys
  minus_each (some x ∷ xs) (none ∷ ys) = none ∷ minus_each xs ys

  -- 1 or 0 by `forward_move > 0.0`, and NaN where the move is NaN.
  abbrev pub direction : List (Option F) → List (Option F)
  direction [] = []
  direction (none ∷ moves) = none ∷ direction moves
  direction (some move ∷ moves) = some (if lt nought move then unit else nought) ∷ direction moves

  unfoldable pub build_labels :
      (ℕ → List (Option F) → List (Option F)) → List (Option F) → ℤ → Result (List (Option F))
  build_labels shift_up spread horizon = do
    raise_if (ltb_ℤ horizon (pos 1)) value_error
    ok (direction (minus_each (shift_up (pos_part horizon) spread) spread))

-- What pandas documents of `shift(-k)`: each entry is the one `k` places later, and NaN past the end.
pub record IsShift {F : Type 0} (shift_up : ℕ → List (Option F) → List (Option F)) : Type 0 where
  pub length-shift : (k : ℕ) (xs : List (Option F)) → length (shift_up k xs) ≡ length xs
  pub shifted :
      (k i : ℕ) (xs : List (Option F)) (x : Option F)
      → get_elem? xs (i + k) ≡ some x
      → get_elem? (shift_up k xs) i ≡ some x
  pub shifted_past :
      (k i : ℕ) (xs : List (Option F))
      → i < length xs
      → length xs ≤ i + k
      → get_elem? (shift_up k xs) i ≡ some none

module _ {F : Type 0} ⦃float : Float F⦄ where
  -- The label of a move to `later` from `now`.
  abbrev pub label : Option F → Option F → Option F
  label later none = none
  label none (some now) = none
  label (some later) (some now) = some (if lt nought (float.sub later now) then unit else nought)

  labels_lem :
      (xs ys : List (Option F)) (i : ℕ) (x y : Option F)
      → get_elem? xs i ≡ some x
      → get_elem? ys i ≡ some y
      → get_elem? (direction (minus_each xs ys)) i ≡ some (label x y)
  labels_lem [] ys i x y e e' = absurd (cc)
  labels_lem (v ∷ xs) [] i x y e e' = absurd (cc)
  labels_lem (none ∷ xs) (w ∷ ys) zero x y e e' = ground arith
  labels_lem (some v ∷ xs) (none ∷ ys) zero x y e e' = ground arith
  labels_lem (some v ∷ xs) (some w ∷ ys) zero x y e e' = ground arith
  labels_lem (none ∷ xs) (w ∷ ys) (suc i) x y e e' = labels_lem xs ys i x y e e'
  labels_lem (some v ∷ xs) (none ∷ ys) (suc i) x y e e' = labels_lem xs ys i x y e e'
  labels_lem (some v ∷ xs) (some w ∷ ys) (suc i) x y e e' = labels_lem xs ys i x y e e'

  length-direction :
      (xs ys : List (Option F))
      → length xs ≡ length ys
      → length (direction (minus_each xs ys)) ≡ length ys
  length-direction [] [] e = refl
  length-direction [] (w ∷ ys) e = absurd (omega arith)
  length-direction (v ∷ xs) [] e = absurd (omega arith)
  length-direction (none ∷ xs) (w ∷ ys) e = omega (arith, length-direction xs ys (omega arith))
  length-direction (some v ∷ xs) (none ∷ ys) e = omega (arith, length-direction xs ys (omega arith))
  length-direction (some v ∷ xs) (some w ∷ ys) e =
      omega (arith, length-direction xs ys (omega arith))

  -- With a horizon of at least one there is a label for each entry: the direction of the move
  -- from it to the entry `horizon` places later, absent where either is absent, and absent for
  -- the last `horizon` entries. That is for a `shift` that moves the entries as pandas
  -- documents.
  pub build_labels_lem :
      (shift_up : ℕ → List (Option F) → List (Option F)) (spread : List (Option F)) (horizon : ℕ)
      → IsShift shift_up
      → 0 < horizon
      → (labels : List (Option F)) × (build_labels shift_up spread (pos horizon) ≡ ok labels)
        × (length labels ≡ length spread)
        × ((i : ℕ) (now later : Option F)
            → get_elem? spread i ≡ some now
            → get_elem? spread (i + horizon) ≡ some later
            → get_elem? labels i ≡ some (label later now))
        × ((i : ℕ)
            → i < length spread
            → length spread ≤ i + horizon
            → get_elem? labels i ≡ some none)
  unfolding build_labels
  build_labels_lem shift_up spread horizon laws h =
      let ahead = shift_up horizon spread in
      (
        direction (minus_each ahead spread),
        ground arith,
        length-direction ahead spread (laws.length-shift horizon spread),
        (λ i now later e e'.
            labels_lem ahead spread i later now (laws.shifted horizon i spread later e') e),
        λ i within past.
            let (now, e) = get_elem?-lt spread i within in
            labels_lem ahead spread i none now (laws.shifted_past horizon i spread within past) e
            ∙ ap some (label_none now),
      )
    where
      label_none : (now : Option F) → label none now ≡ none
      label_none none = refl
      label_none (some now) = refl
