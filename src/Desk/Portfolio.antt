-- ===== src/Desk/Portfolio.antt =====
-- projects/10_portfolio_execution/src/portfolio.py: the weights and the net position. The sum of an
-- array and `np.dot` of two arrays of one size are parameters.
use compute_quant_lab.Prelude.{
  ◌≡◌, refl, ◌∙◌, not, Option, none, some, List, [], ◌∷◌, length, map, eqb, if◌then◌else◌, arith,
  length-map,
}
use compute_quant_lab.Prelude.Float.{
  Float, nought, unit, neg, lt, ◌≼◌, IsOrdered, le_refl, le_of_not_le,
}
use compute_quant_lab.Prelude.Result.{
  Result, ok, err, ◌>>=◌, ◌>>◌, raise_if, value_error, not_implemented_error,
}

-- What the desk takes from numpy.
pub record Numpy (F : Type 0) : Type 0 where
  pub sum : List F → F
  pub dot : List F → List F → F
  -- `window.std(axis=0, ddof=1)` of a window of rows
  pub column_std : List (List F) → List F

abbrev pub zip_with : {A B C : Type 0} → (A → B → C) → List A → List B → List C
zip_with f [] ys = []
zip_with f (x ∷ xs) [] = []
zip_with f (x ∷ xs) (y ∷ ys) = f x y ∷ zip_with f xs ys

-- An operation on two arrays, where an array of one entry is stretched to the other.
abbrev pub elementwise : {A : Type 0} → (A → A → A) → List A → List A → Result (List A)
elementwise f (x ∷ []) ys = ok (map (f x) ys)
elementwise f xs (y ∷ []) = ok (map (λ x. f x y) xs)
elementwise f xs ys = do
  raise_if (not (eqb (length xs) (length ys))) value_error
  ok (zip_with f xs ys)

-- The volatilities and an optional risk budget give the weights.
pub record WeightScheme (F : Type 0) : Type 0 where
  pub weights : List F → Option (List F) → Result (List F)

pub record PortfolioConstructor (F : Type 0) : Type 0 where
  pub scheme : WeightScheme F
  pub vol_floor : F
  pub gross_cap : F

module _ {F : Type 0} ⦃float : Float F⦄ where
  -- `np.maximum(vols, vol_floor)`
  abbrev pub floored : PortfolioConstructor F → List F → List F
  floored self vols = map (λ v. if lt v self.vol_floor then self.vol_floor else v) vols

  -- `max(-gross_cap, min(gross_cap, raw))`
  abbrev pub capped : PortfolioConstructor F → F → F
  capped self raw =
      let low = if lt raw self.gross_cap then raw else self.gross_cap in
      if lt (neg self.gross_cap) low then low else neg self.gross_cap

module _ {F : Type 0} ⦃float : Float F⦄ (numpy : Numpy F) where
  open numpy use {sum, dot}

  abbrev pub budget_of : List F → Option (List F) → List F
  budget_of vols none = map (λ v. unit) vols
  budget_of vols (some risk_budget) = risk_budget

  unfoldable pub inverse_vol_weights : List F → Option (List F) → Result (List F)
  inverse_vol_weights vols risk_budget = do
    raw ← elementwise float.div (budget_of vols risk_budget) vols
    ok (map (λ r. float.div r (sum raw)) raw)

  abbrev pub inverse_vol_scheme : WeightScheme F
  unfolding inverse_vol_weights
  inverse_vol_scheme = record { weights = inverse_vol_weights }

  -- `PortfolioConstructor.__init__`
  unfoldable pub make : Option (WeightScheme F) → F → F → Result (PortfolioConstructor F)
  unfolding inverse_vol_weights
  make scheme vol_floor gross_cap = do
    raise_if (float.le vol_floor nought) value_error
    raise_if (float.le gross_cap nought) value_error
    ok (record {
      scheme = elim scheme [ none ↦ inverse_vol_scheme | some s ↦ s ];
      vol_floor = vol_floor;
      gross_cap = gross_cap;
    })

  unfoldable pub weights : PortfolioConstructor F → List F → Option (List F) → Result (List F)
  weights self vols risk_budget = self.scheme.weights (floored self vols) risk_budget

  unfoldable pub net_position : PortfolioConstructor F → List F → List F → Result F
  net_position self ws signals = do
    raise_if (not (eqb (length ws) (length signals))) value_error
    ok (capped self (dot ws signals))

-- `ERCScheme`, which the source leaves for later.
abbrev pub erc_scheme : {F : Type 0} → WeightScheme F
erc_scheme = record { weights = λ vols risk_budget. err not_implemented_error }

-- Between the two limits of the desk.
abbrev pub IsWithin : {F : Type 0} ⦃float : Float F⦄ → PortfolioConstructor F → F → Type 0
IsWithin self position = (neg self.gross_cap ≼ position) × (position ≼ self.gross_cap)

-- The sign of IEEE 754: the opposite of a positive number is below it.
abbrev pub IsSigned : (F : Type 0) ⦃float : Float F⦄ → Type 0
IsSigned F = (x : F) → nought {F = F} ≼ x → neg x ≼ x

module _ {F : Type 0} ⦃float : Float F⦄ (laws : IsOrdered F) where
  pub make-capped :
      (numpy : Numpy F) (scheme : Option (WeightScheme F)) (vol_floor gross_cap : F)
      {self : PortfolioConstructor F}
      → make numpy scheme vol_floor gross_cap ≡ ok self
      → nought {F = F} ≼ self.gross_cap
  unfolding make
  make-capped numpy scheme vol_floor gross_cap made =
      ground (arith, le_of_not_le laws gross_cap nought)

  pub capped-IsWithin :
      (signed : IsSigned F) (self : PortfolioConstructor F) (raw : F)
      → nought {F = F} ≼ self.gross_cap
      → IsWithin self (capped self raw)
  capped-IsWithin signed self raw h = ground (
    arith,
    signed self.gross_cap h,
    le_refl laws (neg self.gross_cap),
    le_refl laws self.gross_cap,
    le_of_not_le laws self.gross_cap raw,
    le_of_not_le laws (neg self.gross_cap) raw,
  )

module _ {F : Type 0} where
  length-zip_with :
      (f : F → F → F) (xs ys : List F)
      → length xs ≡ length ys
      → length (zip_with f xs ys) ≡ length ys
  length-zip_with f [] ys h = h
  length-zip_with f (x ∷ xs) [] h = absurd (omega arith)
  length-zip_with f (x ∷ xs) (y ∷ ys) h = omega (arith, length-zip_with f xs ys (omega arith))

  -- On arrays of one size nothing is stretched.
  pub elementwise-zip_with :
      (f : F → F → F) (xs ys : List F)
      → length xs ≡ length ys
      → elementwise f xs ys ≡ ok (zip_with f xs ys)
  elementwise-zip_with f [] [] h = refl
  elementwise-zip_with f [] (y ∷ ys) h = absurd (omega arith)
  elementwise-zip_with f (x ∷ []) [] h = absurd (omega arith)
  elementwise-zip_with f (x ∷ []) (y ∷ []) h = refl
  elementwise-zip_with f (x ∷ []) (y ∷ y' ∷ ys) h = absurd (omega arith)
  elementwise-zip_with f (x ∷ x' ∷ xs) [] h = absurd (omega arith)
  elementwise-zip_with f (x ∷ x' ∷ xs) (y ∷ []) h = absurd (omega arith)
  elementwise-zip_with f (x ∷ x' ∷ xs) (y ∷ y' ∷ ys) h = ground arith

-- A scheme that answers, with a weight for each volatility.
abbrev pub IsAllocation : {F : Type 0} → WeightScheme F → Type 0
IsAllocation {F} scheme =
    (vols : List F) → (ws : List F) × (scheme.weights vols none ≡ ok ws) × (length ws ≡ length vols)

module _ {F : Type 0} ⦃float : Float F⦄ (numpy : Numpy F) where
  pub inverse_vol-IsAllocation : IsAllocation (inverse_vol_scheme numpy)
  unfolding inverse_vol_weights
  inverse_vol-IsAllocation vols =
      let ones = map (λ v. unit) vols in
      let size = length-map (λ v. unit) vols in
      let raw = zip_with float.div ones vols in
      let divided : elementwise float.div ones vols ≡ ok raw =
        elementwise-zip_with float.div ones vols size in
      (
        map (λ r. float.div r (numpy.sum raw)) raw,
        rw divided refl,
        length-map (λ r. float.div r (numpy.sum raw)) raw
            ∙ length-zip_with float.div ones vols size,
      )
