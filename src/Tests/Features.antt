-- ===== src/Tests/Features.antt =====
-- core/features/builders.py: a gas price with a revision, in whole numbers.
use Prim.Native.String.{String}
use compute_quant_lab.Prelude.{
  ℕ, ◌≡◌, ◌≤◌, Option, keep, leb, refl, none, some, List, [], ◌∷◌, get_elem?, arith,
}
use compute_quant_lab.Prelude.Float.{int_float}
use compute_quant_lab.Prelude.Int.{ℤ, pos, ◌-ℤ◌}
use compute_quant_lab.Prelude.Result.{ok}
use compute_quant_lab.Features.{
  Vintage, Frames, as_of_snapshot, FeatureSpec, build_asof, build_panel,
}
use compute_quant_lab.Features.Snapshots.{IsFrames, as_of_snapshot-covers}
use compute_quant_lab.Features.PointInTime.{build_panel-causal}

abbrev row : ℕ → ℕ → ℤ → Vintage ℤ
row value_ts knowledge_ts value = record {
  value_ts = value_ts;
  knowledge_ts = knowledge_ts;
  value = some value;
}

-- Frames that are sorted and have one row for each period, so that there is nothing to drop.
abbrev plain : Frames ℤ
plain = record { latest_rows = λ rows. rows; sort_index = λ rows. rows; mean = λ values. none }

plain-IsFrames : IsFrames plain
plain-IsFrames = record {
  latest_rows-All = λ P rows h. h;
  latest_rows_cover = λ rows i r e. (i, r, e, refl, omega arith);
  sort_index-All = λ P rows h. h;
  sort_index_cover = λ rows i r e. (i, e);
}

abbrev gas : List (Vintage ℤ)
gas = row 1 2 (pos 5) ∷ row 2 3 (pos 8) ∷ row 3 9 (pos 40) ∷ []

-- The same rows up to the instant 4, and others later.
abbrev revised : List (Vintage ℤ)
revised = row 1 2 (pos 5) ∷ row 2 3 (pos 8) ∷ row 2 7 (pos 9) ∷ row 3 8 (pos 41) ∷ []

abbrev specs : List (String × FeatureSpec)
specs =
    ("gas_price", record { lags = pos 0 ∷ pos 1 ∷ []; rolling_means = []; diffs = pos 1 ∷ [] }) ∷ []

panel_run :
    build_panel plain (λ name. gas) specs (4 ∷ [])
    ≡ ok ((some (pos 8) ∷ some (pos 5) ∷ some (pos 3) ∷ []) ∷ [])
unfolding build_panel ◌-ℤ◌
panel_run = refl

as_of_snapshot-covers_example :
    (j : ℕ) × (s : Vintage ℤ) × (get_elem? (as_of_snapshot plain gas 4) j ≡ some s)
    × (s.value_ts ≡ 2)
    × (3 ≤ s.knowledge_ts)
    × (s.knowledge_ts ≤ 4)
as_of_snapshot-covers_example =
    as_of_snapshot-covers plain plain-IsFrames gas 4 1 (row 2 3 (pos 8)) refl (omega arith)

known_same :
    (name : String)
    → keep (λ v. leb v.knowledge_ts 4) gas ≡ keep (λ v. leb v.knowledge_ts 4) revised
known_same name = refl

-- A panel with an earlier and a later instant, which both differ from the one at 4.
abbrev panel : List (List (Option ℤ))
panel =
    (none ∷ none ∷ none ∷ [])
    ∷ (some (pos 8) ∷ some (pos 5) ∷ some (pos 3) ∷ [])
    ∷ (some (pos 40) ∷ some (pos 8) ∷ some (pos 32) ∷ [])
    ∷ []

whole_run : build_panel plain (λ name. gas) specs (1 ∷ 4 ∷ 10 ∷ []) ≡ ok panel
unfolding build_panel ◌-ℤ◌
whole_run = refl

build_panel-causal_example :
    (row : List (Option ℤ)) × (get_elem? panel 1 ≡ some row)
    × (build_asof plain (λ name. revised) specs 4 ≡ ok row)
    × (build_panel plain (λ name. revised) specs (4 ∷ []) ≡ ok (row ∷ []))
build_panel-causal_example =
    build_panel-causal plain (λ name. gas) (λ name. revised) specs (1 ∷ 4 ∷ 10 ∷ []) 1 whole_run
      refl known_same
