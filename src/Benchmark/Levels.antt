-- ===== src/Benchmark/Levels.antt =====
-- projects/13_compute_benchmark/src/benchmark: `venue_levels` of dispersion.py, and `observed_fix_grid`
-- of index_series.py. `statistics.mean` is a parameter.
use Prim.Native.String.{String, compare}
use Prim.Native.Nat.{lt, eq, gt}
use text.Mathlib.Text.{◌==◌ as str_eq}
use compute_quant_lab.Prelude.{
  ℕ, Bool, true, false, Option, none, some, List, [], ◌∷◌, ◌++◌, length, map, keep, leb, eqb,
  if◌then◌else◌,
}
use compute_quant_lab.Prelude.Float.{Float}
use compute_quant_lab.Prelude.Result.{Result, ok, err, ◌>>=◌, traverse}
use compute_quant_lab.Ingestion.Protocols.{DateTime, Snapshot, VenueRate}
use compute_quant_lab.Ingestion.ComputeIndex.{IndexConfig, build_spot_index}
use compute_quant_lab.Benchmark.Dispersion.{Statistics, venue_rates_at, divide}
use compute_quant_lab.Benchmark.Series.{is_insufficient}

-- `s <= t` of two texts, by their code points.
abbrev str_le : String → String → Bool
str_le s t = elim (compare s t) [ lt ↦ true | eq ↦ true | gt ↦ false ]

pub record VenueLevel (F : Type 0) : Type 0 where
  pub source : String
  pub mean_rate : F
  pub mean_discount_vs_index : F
  pub n_fixes : ℕ

-- What is gathered for each source, in the order in which the sources were met.
abbrev pub Gathered : Type 0 → Type 0
Gathered F = List (String × List (F × F))

module _ {F : Type 0} where
  -- `acc[source].append(pair)`
  abbrev pub add_pair : String → F × F → Gathered F → Gathered F
  add_pair source pair [] = (source, pair ∷ []) ∷ []
  add_pair source pair ((s, pairs) ∷ acc) =
      if str_eq s source
      then (s, pairs ++ (pair ∷ [])) ∷ acc
      else (s, pairs) ∷ add_pair source pair acc

  abbrev pub add_rates : F → List (VenueRate F) → Gathered F → Gathered F
  add_rates index_price [] acc = acc
  add_rates index_price (r ∷ rates) acc =
      add_rates index_price rates (add_pair r.source (r.rate, index_price) acc)

  -- `sorted(levels, key=lambda lv: lv.source)`
  abbrev pub insert_level : VenueLevel F → List (VenueLevel F) → List (VenueLevel F)
  insert_level l [] = l ∷ []
  insert_level l (m ∷ ls) = if str_le l.source m.source then l ∷ m ∷ ls else m ∷ insert_level l ls

  abbrev pub sorted_levels : List (VenueLevel F) → List (VenueLevel F)
  sorted_levels [] = []
  sorted_levels (l ∷ ls) = insert_level l (sorted_levels ls)

module _ {F : Type 0} ⦃float : Float F⦄ (stats : Statistics F) where
  -- The loop over the grid; an instant with too few venues is passed over.
  unfoldable pub gather :
      List (Snapshot F) → List DateTime → String → IndexConfig F → Gathered F → Result (Gathered F)
  unfolding build_spot_index venue_rates_at
  gather snapshots [] gpu_model config acc = ok acc
  gather snapshots (as_of ∷ grid) gpu_model config acc =
      elim (build_spot_index snapshots as_of gpu_model config) [
        | err raised ↦
            if is_insufficient raised
            then gather snapshots grid gpu_model config acc
            else err raised
        | ok point ↦ do
          rates ← venue_rates_at snapshots as_of gpu_model config
          gather snapshots grid gpu_model config
              (add_rates point.price_usd_per_hour (config.outlier_filter.filter rates) acc)
      ]

  abbrev pub level : String × List (F × F) → Result (VenueLevel F)
  level (source, pairs) = do
    discounts ← traverse (λ pair. divide (float.sub pair.0 pair.1) pair.1) pairs
    ok (record {
      source = source;
      mean_rate = stats.mean (map (λ pair. pair.0) pairs);
      mean_discount_vs_index = stats.mean discounts;
      n_fixes = length pairs;
    })

  unfoldable pub venue_levels :
      List (Snapshot F) → List DateTime → String → IndexConfig F → Result (List (VenueLevel F))
  unfolding gather
  venue_levels snapshots as_of_grid gpu_model config = do
    acc ← gather snapshots as_of_grid gpu_model config []
    levels ← traverse level acc
    ok (sorted_levels levels)

-- `sorted({…})`: each instant once.
abbrev pub insert_time : ℕ → List ℕ → List ℕ
insert_time t [] = t ∷ []
insert_time t (u ∷ us) =
    if eqb t u then u ∷ us else if leb t u then t ∷ u ∷ us else u ∷ insert_time t us

abbrev pub sorted_times : List ℕ → List ℕ
sorted_times [] = []
sorted_times (t ∷ ts) = insert_time t (sorted_times ts)

-- Of all models, or of one.
unfoldable pub observed_fix_grid : {F : Type 0} → List (Snapshot F) → Option String → List ℕ
observed_fix_grid snapshots none = sorted_times (map (λ s. s.snapshotted_at) snapshots)
observed_fix_grid snapshots (some gpu_model) =
    sorted_times (map (λ s. s.snapshotted_at) (keep (λ s. str_eq s.gpu_model gpu_model) snapshots))
