-- ===== src/Storage/Frame.antt =====
-- The frames that core/storage reads and writes: the names of the columns, whether a column of instants
-- knows its time zone, and the rows by column. What pandas does to a cell is a parameter. An instant is
-- in UTC, and `null` stands for `None`, NaN and `NaT`.
use Prim.Native.String.{String}
use package.text.Mathlib.Text.{◌==◌ as str_eq}
use compute_quant_lab.Prelude.{
  ◌≡◌, refl, ℕ, Bool, true, false, not, ◌&&◌, Option, none, some, List, [], ◌∷◌, any, every, arith,
  if◌then◌else◌,
}
use compute_quant_lab.Prelude.Int.{ℤ}
use compute_quant_lab.Prelude.Result.{Result, raise_if, value_error}
use compute_quant_lab.Storage.Lake.{IsKeyTest}

pub data Cell (F : Type 0) : Type 0 where
  null : Cell F
  instant : ℕ → Cell F
  int : ℤ → Cell F
  float : F → Cell F
  text : String → Cell F
  bool : Bool → Cell F

pub record Frame (F : Type 0) : Type 0 where
  pub names : List String
  pub aware : String → Bool
  pub rows : List (String → Cell F)

-- `pd.to_datetime` and `astype` on a cell, and the equality of the cells of two keys.
pub record Pandas (F : Type 0) : Type 0 where
  pub to_datetime : Cell F → Result (Option ℕ)
  pub as_str : Cell F → String
  pub as_float : Cell F → Result (Option F)
  pub as_int : Cell F → Result ℤ
  pub as_bool : Cell F → Bool
  pub equal : Cell F → Cell F → Bool

abbrev pub is_empty : {A : Type 0} → List A → Bool
is_empty [] = true
is_empty (x ∷ xs) = false

abbrev pub is_column : List String → String → Bool
is_column names name = any (str_eq name) names

module _ {F : Type 0} where
  abbrev pub is_null : Cell F → Bool
  is_null null = true
  is_null _ = false

  -- A date or a number as a cell.
  abbrev pub date_cell : Option ℕ → Cell F
  date_cell none = null
  date_cell (some t) = instant t

  abbrev pub float_cell : Option F → Cell F
  float_cell none = null
  float_cell (some x) = float x

  -- The cell of a column that may be absent.
  abbrev pub cell_or : Cell F → Frame F → String → (String → Cell F) → Cell F
  cell_or default frame name row = if is_column frame.names name then row name else default

  abbrev pub is_aware : Frame F → String → Bool
  is_aware frame name = is_column frame.names name && frame.aware name

  -- The mandatory columns have to be there.
  unfoldable pub require_columns : List String → Frame F → Result (Unit {0})
  require_columns columns frame = raise_if (not (every (is_column frame.names) columns)) value_error

  -- A column without a time zone may not have rows.
  unfoldable pub require_aware_rows : Frame F → String → Result (Unit {0})
  require_aware_rows frame name =
      raise_if (not (is_aware frame name) && not (is_empty frame.rows)) value_error

  -- A column without a time zone may not hold an instant.
  unfoldable pub require_aware : Frame F → String → Result (Unit {0})
  require_aware frame name =
      raise_if
        (not (is_aware frame name)
          && any (λ row. not (is_null (cell_or null frame name row))) frame.rows)
        value_error

  -- Cells column by column.
  abbrev pub cells_eq : (Cell F → Cell F → Bool) → List (Cell F) → List (Cell F) → Bool
  cells_eq equal [] [] = true
  cells_eq equal (a ∷ xs) (b ∷ ys) = equal a b && cells_eq equal xs ys
  cells_eq equal _ _ = false

  cells_eq-same :
      (equal : Cell F → Cell F → Bool)
      → IsKeyTest equal
      → (xs : List (Cell F)) → cells_eq equal xs xs ≡ true
  cells_eq-same equal laws [] = refl
  cells_eq-same equal laws (a ∷ xs) = ground (arith, laws.same a, cells_eq-same equal laws xs)

  cells_eq-euclid :
      (equal : Cell F → Cell F → Bool)
      → IsKeyTest equal
      → (k xs ys : List (Cell F)) → cells_eq equal k xs ≡ true
      → cells_eq equal k ys ≡ true
      → cells_eq equal ys xs ≡ true
  cells_eq-euclid equal laws [] [] [] e f = refl
  cells_eq-euclid equal laws [] [] (b ∷ ys) e f = absurd (cc)
  cells_eq-euclid equal laws [] (a ∷ xs) ys e f = absurd (cc)
  cells_eq-euclid equal laws (k ∷ ks) [] ys e f = absurd (cc)
  cells_eq-euclid equal laws (k ∷ ks) (a ∷ xs) [] e f = absurd (cc)
  cells_eq-euclid equal laws (k ∷ ks) (a ∷ xs) (b ∷ ys) e f =
      ground (arith, laws.euclid k a b, cells_eq-euclid equal laws ks xs ys)

  pub cells_eq-IsKeyTest :
      (equal : Cell F → Cell F → Bool) → IsKeyTest equal → IsKeyTest (cells_eq equal)
  cells_eq-IsKeyTest equal laws = record {
    same = cells_eq-same equal laws;
    euclid = cells_eq-euclid equal laws;
  }
