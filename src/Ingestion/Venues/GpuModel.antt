-- ===== src/Ingestion/Venues/GpuModel.antt =====
-- core/ingestion/providers/base.py, `normalize_gpu_model`: the family in a name of a GPU. The change of
-- a text to upper case is a parameter.
pub mod Occurrence
pub mod Families
use Prim.Native.Char.{Char, code}
use Prim.Native.String.{String}
use compute_quant_lab.Prelude.{
  Bool, true, false, ◌&&◌, ◌||◌, List, [], ◌∷◌, if◌then◌else◌, eqb, leb,
}

abbrev pub gpu_families : List String
gpu_families =
    "B200" ∷ "H200" ∷ "H100" ∷ "A100" ∷ "L40S" ∷ "L40" ∷ "A6000" ∷ "A40" ∷ "V100" ∷ "RTX5090"
    ∷ "RTX4090" ∷ []

-- `[A-Z0-9]`
abbrev pub is_alphanumeric : Char → Bool
is_alphanumeric c =
    (leb b'A' (code c) && leb (code c) b'Z') || (leb b'0' (code c) && leb (code c) b'9')

-- `re.sub(r"[^A-Z0-9]", "", s)`
unfoldable pub compact : String → String
compact String.[] = String.[]
compact (String.◌∷◌ c s) =
    let rest = compact s in if is_alphanumeric c then String.◌∷◌ c rest else rest

unfoldable pub begins_with : String → String → Bool
begins_with String.[] s = true
begins_with (String.◌∷◌ d t) String.[] = false
begins_with (String.◌∷◌ d t) (String.◌∷◌ c s) =
    let rest = begins_with t s in if eqb (code d) (code c) then rest else false

-- `t in s`
unfoldable pub is_in : String → String → Bool
unfolding begins_with
is_in t String.[] = begins_with t String.[]
is_in t (String.◌∷◌ c s) =
    let later = is_in t s in if begins_with t (String.◌∷◌ c s) then true else later

-- The loop over the families.
unfoldable pub first_family : List String → String → String
first_family [] name = name
first_family (family ∷ families) name =
    let next = first_family families name in if is_in family name then family else next

unfoldable pub normalize_gpu_model : (String → String) → String → String
unfolding first_family
normalize_gpu_model upper raw_name = first_family gpu_families (compact (upper raw_name))
