-- ===== src/Ingestion/Venues/GpuModel/Families.antt =====
-- core/ingestion/providers/base.py, `normalize_gpu_model`: which family is taken, and what is left of
-- a name that has none.
use Prim.Native.Char.{code}
use Prim.Native.String.{String}
use mathlib.Core.Path.{subst}
use compute_quant_lab.Prelude.{
  ◌≡◌, refl, ◌⊎◌, inl, inr, ℕ, suc, Bool, ◌&&◌, ◌||◌, false, some, List, [], ◌∷◌, All, get_elem?,
  take, keep, leb, arith, Bool-cases,
}
use compute_quant_lab.Ingestion.Venues.GpuModel.{
  is_alphanumeric, compact, is_in, first_family, normalize_gpu_model,
}
use compute_quant_lab.Ingestion.Venues.GpuModel.Occurrence.{
  Contains, is_in_of_Contains, is_in-Contains,
}

-- The GPU families that have an index, the longer of two names that overlap first.
abbrev pub recognised : List String
recognised =
    "B200" ∷ "H200" ∷ "H100" ∷ "A100" ∷ "L40S" ∷ "L40" ∷ "A6000" ∷ "A40" ∷ "V100" ∷ "RTX5090"
    ∷ "RTX4090" ∷ []

abbrev pub codes : String → List ℕ
codes String.[] = []
codes (String.◌∷◌ c s) = code c ∷ codes s

-- The number of an ASCII capital or digit.
abbrev pub is_capital_or_digit : ℕ → Bool
is_capital_or_digit n = (leb 65 n && leb n 90) || (leb 48 n && leb n 57)

-- The first of the families that stands in the name, or the name itself where none does.
abbrev pub IsFamilyOf : List String → String → String → Type 0
IsFamilyOf families name model =
    ((i : ℕ) × (get_elem? families i ≡ some model)
      × Contains name model
      × All (λ family. ¬ Contains name family) (take i families))
    ⊎ (All (λ family. ¬ Contains name family) families × (model ≡ name))

not-Contains : (family name : String) → is_in family name ≡ false → ¬ Contains name family
not-Contains family name missing found = ground (arith, is_in_of_Contains family name found)

first_family-skip :
    (family : String) (families : List String) (name : String)
    → is_in family name ≡ false
    → first_family families name ≡ first_family (family ∷ families) name
unfolding first_family
first_family-skip family families name missing = rw missing refl

IsFamilyOf-cons :
    (family : String) (families : List String) (name model : String)
    → ¬ Contains name family
    → IsFamilyOf families name model
    → IsFamilyOf (family ∷ families) name model
IsFamilyOf-cons family families name model lacks (inl (i, at, found, before)) =
    inl (suc i, at, found, (lacks, before))
IsFamilyOf-cons family families name model lacks (inr (none, same)) = inr ((lacks, none), same)

first_family-IsFamilyOf :
    (families : List String) (name : String) → IsFamilyOf families name (first_family families name)
unfolding first_family
first_family-IsFamilyOf [] name = inr (tt, refl)
first_family-IsFamilyOf (family ∷ families) name = elim (Bool-cases (is_in family name)) [
  | inl e ↦ inl (0, ground arith, rw e (is_in-Contains family name e), tt)
  | inr e ↦ subst (IsFamilyOf (family ∷ families) name) (first_family-skip family families name e) (
      IsFamilyOf-cons family families name _ (not-Contains family name e)
        (first_family-IsFamilyOf families name))
]

codes-compact : (s : String) → codes (compact s) ≡ keep is_capital_or_digit (codes s)
unfolding compact
codes-compact String.[] = refl
codes-compact (String.◌∷◌ c s) =
    let rest = codes-compact s in
    elim (Bool-cases (is_alphanumeric c)) [ inl e ↦ rw (e, rest) refl | inr e ↦ rw (e, rest) refl ]

-- The name is searched as the ASCII capitals and digits of its upper case, in their order. The model
-- is the first of the families of the list `recognised` that stands in that text, none before it in
-- the list standing there too; where no family stands in the text, the model is the text.
pub normalize_gpu_model_lem :
    (upper : String → String) (raw_name : String)
    → (name : String) × (codes name ≡ keep is_capital_or_digit (codes (upper raw_name)))
      × IsFamilyOf recognised name (normalize_gpu_model upper raw_name)
unfolding normalize_gpu_model
normalize_gpu_model_lem upper raw_name = (
  compact (upper raw_name),
  codes-compact (upper raw_name),
  first_family-IsFamilyOf recognised (compact (upper raw_name)),
)
