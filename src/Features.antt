-- ===== src/Features.antt =====
-- core/features/builders.py: point-in-time features over vintage frames. A frame is the list of its
-- rows; instants are whole numbers. `groupby(…)[…].idxmax()` and `sort_index` are parameters.
pub mod Snapshots
pub mod PointInTime
use compute_quant_lab.Prelude.{
  ℕ, ◌+◌, ◌-◌, ◌≡◌, ◌≤◌, Bool, true, false, Option, none, some, List, [], ◌∷◌, ◌++◌, map, length,
  drop, keep, join, get_elem?, leb, ltb, if◌then◌else◌,
}
use compute_quant_lab.Prelude.Float.{Float}
use compute_quant_lab.Prelude.Int.{ℤ, pos, ltb_ℤ, leb_ℤ, pos_part}
use compute_quant_lab.Prelude.Result.{
  Result, ok, err, ◌>>=◌, ◌>>◌, raise_if, or_raise, traverse, value_error, look_ahead_error,
  key_error,
}
use Prim.Native.String.{String}
use text.Mathlib.Text.{◌==◌ as str_eq}

-- A value is `none` for a NaN.
pub record Vintage (F : Type 0) : Type 0 where
  pub value_ts : ℕ
  pub knowledge_ts : ℕ
  pub value : Option F

-- The index of a series: of no datetimes, naive, or aware. The instants of an aware one are counted
-- in UTC, whatever its time zone.
pub data Index : Type 0 where
  other_index : Index
  naive_index : List ℕ → Index
  aware_index : List ℕ → Index

-- core/utils/timeindex.py
unfoldable pub to_utc_index : Index → Result (List ℕ)
to_utc_index other_index = err value_error
to_utc_index (naive_index ts) = err value_error
to_utc_index (aware_index ts) = ok ts

-- What numpy and pandas do for the module.
pub record Frames (F : Type 0) : Type 0 where
  -- `known.loc[known.groupby(VALUE_TS)[KNOWLEDGE_TS].idxmax()]`
  pub latest_rows : List (Vintage F) → List (Vintage F)
  -- `snapshot.sort_index()`
  pub sort_index : List (Vintage F) → List (Vintage F)
  -- The mean of a series, where NaN counts as missing.
  pub mean : List (Option F) → Option F

module _ {F : Type 0} where
  -- The frame of three columns, row by row.
  abbrev pub lagged_rows : List ℕ → List (Option F) → ℕ → List (Vintage F)
  lagged_rows [] values publication_lag = []
  lagged_rows (t ∷ ts) [] publication_lag = []
  lagged_rows (t ∷ ts) (value ∷ values) publication_lag =
      record { value_ts = t; knowledge_ts = t + publication_lag; value = value }
      ∷ lagged_rows ts values publication_lag

  unfoldable pub from_lagged_series : Index → List (Option F) → ℕ → Result (List (Vintage F))
  unfolding to_utc_index
  from_lagged_series index values publication_lag = do
    value_ts ← to_utc_index index
    ok (lagged_rows value_ts values publication_lag)

  -- `vintages[vintages[KNOWLEDGE_TS] <= asof]`
  unfoldable pub known : List (Vintage F) → ℕ → List (Vintage F)
  known vintages asof = keep (λ row. leb row.knowledge_ts asof) vintages

  -- `if known.empty`, and the rest
  abbrev pub latest_known : Frames F → List (Vintage F) → List (Vintage F)
  latest_known frames [] = []
  latest_known frames (row ∷ rows) = frames.sort_index (frames.latest_rows (row ∷ rows))

  -- The rows of the snapshot, in order. An empty frame gives the empty snapshot.
  unfoldable pub as_of_snapshot : Frames F → List (Vintage F) → ℕ → List (Vintage F)
  unfolding known
  as_of_snapshot frames vintages asof = latest_known frames (known vintages asof)

-- `if not offenders.empty`, and the rest
abbrev pub raise_for : List ℕ → Result (Unit {0})
raise_for [] = ok tt
raise_for (offender ∷ offenders) = err look_ahead_error

unfoldable pub assert_point_in_time : ℕ → List ℕ → Result (Unit {0})
assert_point_in_time asof used_knowledge_ts = raise_for (keep (λ ts. ltb asof ts) used_knowledge_ts)

-- `snapshot.iloc[-1 - k]`, within bounds
abbrev pub from_end : {F : Type 0} → List (Vintage F) → ℕ → Option F
from_end snapshot k = elim (get_elem? snapshot (length snapshot - 1 - k)) [
  | none ↦ none
  | some row ↦ row.value
]

module _ {F : Type 0} ⦃float : Float F⦄ where
  unfoldable pub lag_feature : List (Vintage F) → ℤ → Result (Option F)
  lag_feature snapshot k = do
    raise_if (ltb_ℤ k (pos 0)) value_error
    ok (if leb_ℤ (pos (length snapshot)) k then none else from_end snapshot (pos_part k))

  unfoldable pub rolling_mean_feature : Frames F → List (Vintage F) → ℤ → Result (Option F)
  rolling_mean_feature frames snapshot window = do
    raise_if (leb_ℤ window (pos 0)) value_error
    ok (
        if ltb_ℤ (pos (length snapshot)) window
        then none
        else frames.mean
            (map (λ row. row.value) (drop (length snapshot - pos_part window) snapshot)))

  abbrev pub minus : Option F → Option F → Option F
  minus none lagged = none
  minus (some x) none = none
  minus (some x) (some y) = some (float.sub x y)

  unfoldable pub diff_feature : List (Vintage F) → ℤ → Result (Option F)
  unfolding lag_feature
  diff_feature snapshot k = do
    latest ← lag_feature snapshot (pos 0)
    lagged ← lag_feature snapshot k
    ok (minus latest lagged)

pub record FeatureSpec : Type 0 where
  pub lags : List ℤ
  pub rolling_means : List ℤ
  pub diffs : List ℤ

pub data Kind : Type 0 where
  lag : Kind
  roll : Kind
  diff : Kind

-- The name of a feature is made of its variable, its kind and its parameter.
pub record Planned : Type 0 where
  pub variable : String
  pub kind : Kind
  pub param : ℤ

unfoldable pub feature_plan : List (String × FeatureSpec) → List Planned
feature_plan [] = []
feature_plan ((name, spec) ∷ specs) =
    map (λ k. record { variable = name; kind = lag; param = k }) spec.lags
    ++ map (λ w. record { variable = name; kind = roll; param = w }) spec.rolling_means
    ++ map (λ k. record { variable = name; kind = diff; param = k }) spec.diffs
    ++ feature_plan specs

module _ {F : Type 0} ⦃float : Float F⦄ (frames : Frames F) where
  -- One round of the loop of `build_asof`. `snapshots` is a function of the variable, since the plan
  -- holds only variables that the dictionary has.
  unfoldable pub feature : (String → List (Vintage F)) → Planned → Result (Option F)
  unfolding lag_feature rolling_mean_feature diff_feature
  feature snapshots planned = elim planned.kind [
    | lag ↦ lag_feature (snapshots planned.variable) planned.param
    | roll ↦ rolling_mean_feature frames (snapshots planned.variable) planned.param
    | diff ↦ diff_feature (snapshots planned.variable) planned.param
  ]

  unfoldable pub build_asof :
      (String → List (Vintage F)) → List (String × FeatureSpec) → ℕ → Result (List (Option F))
  unfolding feature as_of_snapshot feature_plan
  build_asof source specs asof =
      traverse (feature (λ name. as_of_snapshot frames (source name) asof)) (feature_plan specs)

  unfoldable pub build_panel :
      (String → List (Vintage F))
      → List (String × FeatureSpec)
      → List ℕ
      → Result (List (List (Option F)))
  unfolding build_asof
  build_panel source specs decision_index = traverse (build_asof source specs) decision_index
