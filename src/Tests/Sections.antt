-- ===== src/Tests/Sections.antt =====
-- A concrete function that has the documented behaviour of numpy's `array_split`.
use compute_quant_lab.Prelude.{
  ℕ, zero, suc, ◌+◌, ◌*◌, ◌/◌, ◌%◌, ◌≡◌, ◌≤◌, refl, ap, ◌∙◌, List, [], ◌∷◌, ◌++◌, arith, length,
  length-take, length-drop, take, drop, join, All,
}
use compute_quant_lab.Models.PurgedKFold.Folds.{IsArraySplit}

unfoldable pub cut : ℕ → ℕ → ℕ → List ℕ → List (List ℕ)
cut base odd zero xs = []
cut base zero (suc left) xs = take base xs ∷ cut base zero left (drop base xs)
cut base (suc odd) (suc left) xs = take (base + 1) xs ∷ cut base odd left (drop (base + 1) xs)

unfoldable pub sections : List ℕ → ℕ → List (List ℕ)
unfolding cut
sections xs k = cut (length xs / k) (length xs % k) k xs

take-append-drop : (n : ℕ) (xs : List ℕ) → take n xs ++ drop n xs ≡ xs
take-append-drop zero xs = refl
take-append-drop (suc n) [] = refl
take-append-drop (suc n) (x ∷ xs) = ap (λ l. x ∷ l) (take-append-drop n xs)

join-cut :
    (base odd left : ℕ) (xs : List ℕ)
    → length xs ≡ left * base + odd
    → odd ≤ left
    → join (cut base odd left xs) ≡ xs
unfolding cut
join-cut base odd zero [] h p = refl
join-cut base odd zero (x ∷ xs) h p = absurd (omega arith)
join-cut base zero (suc left) xs h p =
    ap (λ l. take base xs ++ l)
      (join-cut base zero left (drop base xs) (omega (arith, length-drop base xs)) (omega arith))
    ∙ take-append-drop base xs
join-cut base (suc odd) (suc left) xs h p =
    ap (λ l. take (base + 1) xs ++ l)
      (join-cut base odd left (drop (base + 1) xs) (omega (arith, length-drop (base + 1) xs))
        (omega arith))
    ∙ take-append-drop (base + 1) xs

length-cut : (base odd left : ℕ) (xs : List ℕ) → length (cut base odd left xs) ≡ left
unfolding cut
length-cut base odd zero xs = refl
length-cut base zero (suc left) xs = ap suc (length-cut base zero left (drop base xs))
length-cut base (suc odd) (suc left) xs = ap suc (length-cut base odd left (drop (base + 1) xs))

cut_sizes :
    (base odd left : ℕ) (xs : List ℕ)
    → length xs ≡ left * base + odd
    → odd ≤ left
    → All (λ b. (base ≤ length b) × (length b ≤ base + 1)) (cut base odd left xs)
unfolding cut
cut_sizes base odd zero xs h p = tt
cut_sizes base zero (suc left) xs h p =
    let size = length-take base xs (omega arith) in
    (
      (omega arith, omega arith),
      cut_sizes base zero left (drop base xs) (omega (arith, length-drop base xs)) (omega arith),
    )
cut_sizes base (suc odd) (suc left) xs h p =
    let size = length-take (base + 1) xs (omega arith) in
    (
      (omega arith, omega arith),
      cut_sizes base odd left (drop (base + 1) xs) (omega (arith, length-drop (base + 1) xs))
          (omega arith),
    )

pub sections-IsArraySplit : IsArraySplit sections
unfolding sections
sections-IsArraySplit = record {
  joins = λ xs k p. join-cut _ _ k xs (omega arith) (omega arith);
  counts = λ xs k p. length-cut _ _ k xs;
  sizes = λ xs k p. cut_sizes _ _ k xs (omega arith) (omega arith);
}
