-- ===== src/Models/PurgedKFold/Masks.antt =====
-- core/models/validation.py, `PurgedKFold.split`: the Boolean mask of one test block.
use compute_quant_lab.Prelude.{
  ℕ, zero, suc, ◌+◌, ◌-◌, ◌≤◌, ◌<◌, ◌≡◌, refl, Bool, true, false, ◌&&◌, ◌||◌, List, [], ◌∷◌, arith,
  ltb, leb, if◌then◌else◌, map, keep, replicate, not,
}
use Prim.Native.Nat.{min}
use compute_quant_lab.Models.PurgedKFold.{PurgedKFold, arange, clear, select, train_mask}

-- A sample whose label window ends before the test block, or that comes after its embargo.
abbrev pub allowed : PurgedKFold → ℕ → ℕ → ℕ → Bool
allowed k t0 t1 i = ltb (i + k.horizon) t0 || ltb (t1 + k.embargo) i

abbrev inside : ℕ → ℕ → ℕ → Bool
inside lo hi i = leb lo i && ltb i hi

map-arange :
    (s n : ℕ) (f g : ℕ → Bool)
    → ((i : ℕ) → s ≤ i → i < s + n → g i ≡ f i)
    → map f (arange s n) ≡ map g (arange s n)
map-arange s zero f g h = refl
map-arange s (suc n) f g h = cc (
  h s (omega arith) (omega arith),
  map-arange (s + 1) n f g (λ i p q. h i (omega arith) (omega arith)),
)

clear-arange :
    (lo hi s n : ℕ) (f g : ℕ → Bool)
    → ((i : ℕ) → s ≤ i → i < s + n → g i ≡ (if inside (s + lo) (s + hi) i then false else f i))
    → clear lo hi (map f (arange s n)) ≡ map g (arange s n)
unfolding clear
clear-arange lo zero s n f g h = map-arange s n f g (λ i p q. ground (arith, h i p q))
clear-arange lo (suc hi) s zero f g h = refl
clear-arange zero (suc hi) s (suc n) f g h =
    let here : g s ≡ false = ground (arith, h s (omega arith) (omega arith)) in
    cc (
      here,
      clear-arange zero hi (s + 1) n f g (λ i p q. ground (arith, h i (omega arith) (omega arith))),
    )
clear-arange (suc lo) (suc hi) s (suc n) f g h =
    let here : g s ≡ f s = ground (arith, h s (omega arith) (omega arith)) in
    cc (
      here,
      clear-arange lo hi (s + 1) n f g (λ i p q. ground (arith, h i (omega arith) (omega arith))),
    )

replicate-arange : (s n : ℕ) → replicate n true ≡ map (λ i. true) (arange s n)
replicate-arange s zero = refl
replicate-arange s (suc n) = cc (replicate-arange (s + 1) n)

pub select-map : (g : ℕ → Bool) (xs : List ℕ) → select xs (map g xs) ≡ keep g xs
select-map g [] = refl
select-map g (x ∷ xs) = ground (arith, select-map g xs)

-- The three assignments leave exactly the samples that the description allows.
pub train_mask_lem :
    (k : PurgedKFold) (n t0 t1 : ℕ)
    → t0 ≤ t1
    → t1 < n
    → train_mask k n t0 t1 ≡ map (allowed k t0 t1) (arange 0 n)
unfolding train_mask
train_mask_lem k n t0 t1 p q =
    let block : ℕ → Bool = λ i. not (inside t0 (t1 + 1) i) in
    let purged : ℕ → Bool = λ i. not (inside t0 (t1 + 1) i) && not (inside (t0 - k.horizon) t0 i) in
    rw (
      replicate-arange 0 n,
      clear-arange t0 (t1 + 1) 0 n (λ i. true) block (λ i a b. ground arith),
      clear-arange (t0 - k.horizon) t0 0 n block purged (λ i a b. ground arith),
      clear-arange (t1 + 1) (min n (t1 + 1 + k.embargo)) 0 n purged (allowed k t0 t1)
          (λ i a b. ground arith),
    )
