-- ===== src/Ingestion/Json.antt =====
-- The payloads that the venues' modules of core/ingestion/providers read: what `response.json()` gives,
-- and what Python's built-in functions and methods do on it. A double that may be NaN is `none` for NaN.
use Prim.Native.String.{String}
use package.text.Mathlib.Text.{◌==◌ as str_eq}
use compute_quant_lab.Prelude.{
  ◌≡◌, ap, Bool, true, false, not, Option, none, some, List, [], ◌∷◌, if◌then◌else◌, eqb, map,
}
use compute_quant_lab.Prelude.Float.{Float, lt, feq, nought}
use compute_quant_lab.Prelude.Int.{ℤ, pos, negsuc}
use compute_quant_lab.Prelude.Result.{
  ok_inj, Result, ok, err, or_raise, type_error, value_error, attribute_error,
}
use compute_quant_lab.Utils.Coerce.{Value, Conversions}

mutual
  pub data Json (F : Type 0) : Type 0 where
    null : Json F
    bool : Bool → Json F
    int : ℤ → Json F
    float : Option F → Json F
    text : String → Json F
    array : Items F → Json F
    object : Fields F → Json F

  pub data Items (F : Type 0) : Type 0 where
    nil : Items F
    cons : Json F → Items F → Items F

  -- A `dict`: its keys are distinct.
  pub data Fields (F : Type 0) : Type 0 where
    end : Fields F
    field : String → Json F → Fields F → Fields F

-- The conversions of Python on texts: `int(s)`, `float(Decimal(s))`, where `none` is an exception that
-- the callers catch, `str(v)`, the two changes of case, and the characters of a text as texts.
pub record Builtins (F : Type 0) : Type 0 where
  pub convert : Conversions F
  pub int_of_text : String → Option ℤ
  pub float_of_decimal : String → Option (Option F)
  pub str : Json F → String
  pub upper : String → String
  pub lower : String → String
  pub chars : String → List String

module _ {F : Type 0} where
  abbrev pub elements : Items F → List (Json F)
  elements nil = []
  elements (cons v vs) = v ∷ elements vs

  abbrev pub keys : Fields F → List (Json F)
  keys end = []
  keys (field k v fs) = text k ∷ keys fs

  -- `d.values()`
  abbrev pub values : Fields F → List (Json F)
  values end = []
  values (field k v fs) = v ∷ values fs

  abbrev pub find_field : String → Fields F → Option (Json F)
  find_field k end = none
  find_field k (field k' v fs) = if str_eq k k' then some v else find_field k fs

  -- `d.get(k, default)` and `d.get(k)` of a `dict`
  abbrev pub get_or : String → Json F → Fields F → Json F
  get_or k default fs = elim (find_field k fs) [ none ↦ default | some v ↦ v ]

  abbrev pub get : String → Fields F → Json F
  get k fs = get_or k null fs

  -- What is no `dict` has no `get`.
  abbrev pub fields : Json F → Result (Fields F)
  fields (object fs) = ok fs
  fields _ = err attribute_error

  pub fields-object : (v : Json F) (fs : Fields F) → fields v ≡ ok fs → v ≡ object fs
  fields-object (object fs') fs e = ap object (ok_inj e)
  fields-object null fs e = absurd (cc)
  fields-object (bool b) fs e = absurd (cc)
  fields-object (int i) fs e = absurd (cc)
  fields-object (float x) fs e = absurd (cc)
  fields-object (text s) fs e = absurd (cc)
  fields-object (array vs) fs e = absurd (cc)

  abbrev pub is_dict : Json F → Bool
  is_dict (object fs) = true
  is_dict _ = false

  abbrev pub is_null : Json F → Bool
  is_null null = true
  is_null _ = false

  -- A value as `core.utils.coerce` reads it.
  abbrev pub as_value : Json F → Value F
  as_value null = Value.null
  as_value (bool b) = Value.bool b
  as_value (int i) = Value.int i
  as_value (float x) = Value.float x
  as_value (text s) = Value.text s
  as_value _ = Value.other

module _ {F : Type 0} ⦃numbers : Float F⦄ where
  -- `x > 0` and `x <= 0` of a double, which NaN fails both.
  abbrev pub is_positive : Option F → Bool
  is_positive none = false
  is_positive (some x) = lt nought x

  abbrev pub is_nonpositive : Option F → Bool
  is_nonpositive none = false
  is_nonpositive (some x) = numbers.le x nought

  -- `bool(v)`
  abbrev pub truthy : Json F → Bool
  truthy null = false
  truthy (bool b) = b
  truthy (int (pos n)) = not (eqb n 0)
  truthy (int (negsuc n)) = true
  truthy (float none) = true
  truthy (float (some x)) = not (feq x nought)
  truthy (text s) = not (str_eq s "")
  truthy (array nil) = false
  truthy (array (cons v vs)) = true
  truthy (object end) = false
  truthy (object (field k v fs)) = true

  -- `a or b`
  abbrev pub or_else : Json F → Json F → Json F
  or_else a b = if truthy a then a else b

module _ {F : Type 0} (builtins : Builtins F) where
  -- `for x in v`
  unfoldable pub iterate : Json F → Result (List (Json F))
  iterate (array vs) = ok (elements vs)
  iterate (object fs) = ok (keys fs)
  iterate (text s) = ok (map text (builtins.chars s))
  iterate _ = err type_error

  -- `float(v)`
  unfoldable pub to_float : Json F → Result (Option F)
  to_float (bool false) = ok (some (builtins.convert.of_int (pos 0)))
  to_float (bool true) = ok (some (builtins.convert.of_int (pos 1)))
  to_float (int i) = ok (some (builtins.convert.of_int i))
  to_float (float x) = ok x
  to_float (text s) = or_raise (builtins.convert.of_text s) value_error
  to_float _ = err type_error

  -- `int(v)`
  unfoldable pub to_int : Json F → Result ℤ
  to_int (bool false) = ok (pos 0)
  to_int (bool true) = ok (pos 1)
  to_int (int i) = ok i
  to_int (float none) = err value_error
  to_int (float (some x)) = ok (builtins.convert.truncate x)
  to_int (text s) = or_raise (builtins.int_of_text s) value_error
  to_int _ = err type_error

  -- `float(v)` of a number, `none` for what is neither an `int` nor a `float` to `isinstance`.
  abbrev pub number : Json F → Option (Option F)
  number (bool false) = some (some (builtins.convert.of_int (pos 0)))
  number (bool true) = some (some (builtins.convert.of_int (pos 1)))
  number (int i) = some (some (builtins.convert.of_int i))
  number (float x) = some x
  number _ = none
