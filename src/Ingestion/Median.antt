-- ===== src/Ingestion/Median.antt =====
-- `sorted` and `statistics.median` of Python's standard library, which `build_spot_index` of
-- core/ingestion/compute_index.py calls for the rate of a venue.
use compute_quant_lab.Prelude.{
  ℕ, zero, suc, ◌/◌, ◌%◌, ◌-◌, ◌≡◌, ◌<◌, refl, some, List, [], ◌∷◌, eqb, length, get_elem?,
  get_elem?-lt, if◌then◌else◌, All, All-get_elem?, All-imp, arith, ap, ◌∙◌, Bool-cases, inl, inr,
}
use compute_quant_lab.Prelude.Float.{Float, ◌≼◌, IsOrdered, le_of_not_le}
use compute_quant_lab.Prelude.Result.{Result, ok, err, ◌>>=◌, or_raise, value_error, index_error}

-- The average of two numbers lies between them, when their sum does not overflow.
pub record HasMidpoints (F : Type 0) ⦃float : Float F⦄ : Type 0 where
  pub above : (x y : F) → x ≼ y → x ≼ float.div (float.add x y) (float.of_nat 2)
  pub below : (x y : F) → x ≼ y → float.div (float.add x y) (float.of_nat 2) ≼ y

module _ {F : Type 0} ⦃float : Float F⦄ where
  open float use {of_nat, add, div, le}

  insert : F → List F → List F
  insert x [] = x ∷ []
  insert x (y ∷ ys) = if le x y then x ∷ y ∷ ys else y ∷ insert x ys

  unfoldable pub sorted : List F → List F
  unfolding insert
  sorted [] = []
  sorted (x ∷ xs) = insert x (sorted xs)

  -- The middle value, or the mean of the two middle values; none is a `ValueError`.
  unfoldable pub median : List F → Result F
  unfolding sorted
  median [] = err value_error
  median (x ∷ xs) =
      let data_ = sorted (x ∷ xs) in
      let n = length data_ in
      if eqb (n % 2) 1 then or_raise (get_elem? data_ (n / 2)) index_error else (do
        low ← or_raise (get_elem? data_ (n / 2 - 1)) index_error
        high ← or_raise (get_elem? data_ (n / 2)) index_error
        ok (div (add low high) (of_nat 2)))

  abbrev pub IsSorted : List F → Type 0
  IsSorted [] = Unit
  IsSorted (x ∷ xs) = All (λ y. x ≼ y) xs × IsSorted xs

  module _ (laws : IsOrdered F) where
    open laws use {le_trans}

    length-insert : (x : F) (xs : List F) → length (insert x xs) ≡ suc (length xs)
    unfolding insert
    length-insert x [] = refl
    length-insert x (y ∷ ys) = ground (arith, length-insert x ys)

    length-sorted : (xs : List F) → length (sorted xs) ≡ length xs
    unfolding sorted
    length-sorted [] = refl
    length-sorted (x ∷ xs) = length-insert x (sorted xs) ∙ ap suc (length-sorted xs)

    insert-All : (P : F → Type 0) (x : F) (xs : List F) → P x → All P xs → All P (insert x xs)
    unfolding insert
    insert-All P x [] p h = (p, tt)
    insert-All P x (y ∷ ys) p h = ground (arith, insert-All P x ys p h.1)

    sorted-All : (P : F → Type 0) (xs : List F) → All P xs → All P (sorted xs)
    unfolding sorted
    sorted-All P [] h = tt
    sorted-All P (x ∷ xs) (p, ps) = insert-All P x (sorted xs) p (sorted-All P xs ps)

    insert-IsSorted : (x : F) (xs : List F) → IsSorted xs → IsSorted (insert x xs)
    unfolding insert
    insert-IsSorted x [] h = (tt, tt)
    insert-IsSorted x (y ∷ ys) (p, h) = elim (Bool-cases (le x y)) [
      | inl e ↦ rw e ((e, All-imp _ _ (λ z q. le_trans x y z e q) ys p), (p, h))
      | inr e ↦ rw e (insert-All _ x ys (le_of_not_le laws x y e) p, insert-IsSorted x ys h)
    ]

    pub sorted-IsSorted : (xs : List F) → IsSorted (sorted xs)
    unfolding sorted
    sorted-IsSorted [] = tt
    sorted-IsSorted (x ∷ xs) = insert-IsSorted x (sorted xs) (sorted-IsSorted xs)

    IsSorted-get_elem? :
        (xs : List F) (i : ℕ) (x y : F)
        → IsSorted xs
        → get_elem? xs i ≡ some x
        → get_elem? xs (suc i) ≡ some y
        → x ≼ y
    IsSorted-get_elem? [] i x y s e e' = absurd (cc)
    IsSorted-get_elem? (z ∷ zs) zero x y s e e' = ground (arith, All-get_elem? _ zs 0 y s.0 e')
    IsSorted-get_elem? (z ∷ zs) (suc i) x y s e e' = IsSorted-get_elem? zs i x y s.1 e e'

    -- The median of at least one number exists.
    pub median_total : (xs : List F) → 0 < length xs → (m : F) × (median xs ≡ ok m)
    unfolding median
    median_total [] h = absurd (omega arith)
    median_total (x ∷ xs) h =
        let ys = sorted (x ∷ xs) in
        let size : length ys ≡ suc (length xs) = length-sorted (x ∷ xs) in
        let half = length ys / 2 in
        let (b, e) = get_elem?-lt ys half (omega arith) in
        elim (Bool-cases (eqb (length ys % 2) 1)) [
          | inl odd ↦ (b, rw (odd, e))
          | inr even ↦
              let (a, e') = get_elem?-lt ys (half - 1) (omega arith) in
              (div (add a b) (of_nat 2), rw (even, e', e))
        ]

    -- The median of at least one number exists, and lies within any bounds on the numbers.
    pub median_between :
        (mid : HasMidpoints F) (x : F) (xs : List F) (low high : F)
        → All (λ y. (low ≼ y) × (y ≼ high)) (x ∷ xs)
        → (m : F) × (median (x ∷ xs) ≡ ok m) × (low ≼ m) × (m ≼ high)
    unfolding median
    median_between mid x xs low high h =
        let ys = sorted (x ∷ xs) in
        let size : length ys ≡ suc (length xs) = length-sorted (x ∷ xs) in
        let bounds = sorted-All _ (x ∷ xs) h in
        let half = length ys / 2 in
        let (b, e) = get_elem?-lt ys half (omega arith) in
        let (_, b_high) = All-get_elem? _ ys half b bounds e in
        let (low_b, _) = All-get_elem? _ ys half b bounds e in
        elim (Bool-cases (eqb (length ys % 2) 1)) [
          | inl odd ↦ (b, rw (odd, e), low_b, b_high)
          | inr even ↦
              let (a, e') = get_elem?-lt ys (half - 1) (omega arith) in
              let (low_a, _) = All-get_elem? _ ys (half - 1) a bounds e' in
              let next : get_elem? ys (suc (half - 1)) ≡ some b =
                let pred : suc (half - 1) ≡ half = ground arith in rw pred e in
              let a_b = IsSorted-get_elem? ys (half - 1) a b (sorted-IsSorted (x ∷ xs)) e' next in
              (
                div (add a b) (of_nat 2),
                rw (even, e', e),
                le_trans low a _ low_a (mid.above a b a_b),
                le_trans _ b high (mid.below a b a_b) b_high,
              )
        ]
