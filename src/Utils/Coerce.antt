-- ===== src/Utils/Coerce.antt =====
-- core/utils/coerce.py: loosely typed values from JSON payloads and frames. A float that may be NaN
-- is `none` for NaN. The conversions of Python itself (`float` of a text, `int` of a float, `str`)
-- are parameters.
use Prim.Native.String.{String}
use compute_quant_lab.Prelude.{◌≡◌, Bool, true, false, Option, none, some, arith}
use compute_quant_lab.Prelude.Int.{ℤ, pos}
use compute_quant_lab.Prelude.Result.{Result, ok, err, value_error}

pub data Value (F : Type 0) : Type 0 where
  null : Value F
  bool : Bool → Value F
  int : ℤ → Value F
  float : Option F → Value F
  text : String → Value F
  other : Value F

-- `float(i)`, `float(s)` (`none` is a `ValueError`), `int(x)` and `str(v)`.
pub record Conversions (F : Type 0) : Type 0 where
  pub of_int : ℤ → F
  pub of_text : String → Option (Option F)
  pub truncate : F → ℤ
  pub show : Value F → String

module _ {F : Type 0} where
  unfoldable pub is_real_number : Value F → Bool
  is_real_number (int i) = true
  is_real_number (float x) = true
  is_real_number _ = false

module _ {F : Type 0} (convert : Conversions F) where
  open convert use {of_int, of_text, truncate, show}

  unfoldable pub opt_float : Value F → Option (Option F)
  opt_float (int i) = some (some (of_int i))
  opt_float (float x) = some x
  opt_float _ = none

  -- `int` of a NaN is a `ValueError`.
  unfoldable pub opt_int : Value F → Result (Option ℤ)
  opt_int (int i) = ok (some i)
  opt_int (float none) = err value_error
  opt_int (float (some x)) = ok (some (truncate x))
  opt_int _ = ok none

  -- `float(value)`, where `none` is an exception that the caller catches.
  abbrev pub parsed : Value F → Option (Option F)
  parsed null = none
  parsed (bool false) = some (some (of_int (pos 0)))
  parsed (bool true) = some (some (of_int (pos 1)))
  parsed (int i) = some (some (of_int i))
  parsed (float x) = some x
  parsed (text s) = of_text s
  parsed other = none

  unfoldable pub lenient_float : Value F → Option F
  lenient_float v = elim (parsed v) [ none ↦ none | some x ↦ x ]

  unfoldable pub lenient_int : Value F → Option ℤ
  unfolding lenient_float
  lenient_int v = elim (lenient_float v) [ none ↦ none | some x ↦ some (truncate x) ]

  unfoldable pub lenient_str : Value F → Option String
  lenient_str null = none
  lenient_str (float none) = none
  lenient_str v = some (show v)

  -- What the strict conversion to a float accepts, other than NaN, the lenient one takes for the
  -- same number; NaN it takes for absent. A text or a boolean is none of the strict one's numbers.
  pub opt_float-lenient_float :
      (v : Value F)
      → ((x : F) → opt_float v ≡ some (some x) → lenient_float v ≡ some x)
        × (opt_float v ≡ some none → lenient_float v ≡ none)
        × (is_real_number v ≡ false → opt_float v ≡ none)
  unfolding opt_float lenient_float is_real_number
  opt_float-lenient_float null = ground arith
  opt_float-lenient_float (bool b) = ground arith
  opt_float-lenient_float (int i) = ground arith
  opt_float-lenient_float (float x) = ground arith
  opt_float-lenient_float (text s) = ground arith
  opt_float-lenient_float other = ground arith
