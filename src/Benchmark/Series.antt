-- ===== src/Benchmark/Series.antt =====
-- projects/13_compute_benchmark/src/benchmark/index_series.py. A day has 86 400 000 000 microseconds.
-- An `end` on the very last day that `datetime.date` has is left out.
pub mod Grid
pub mod Sampling
use Prim.Native.String.{String}
use compute_quant_lab.Prelude.{
  Bool, true, false, ℕ, zero, suc, ◌+◌, ◌-◌, ◌*◌, ◌/◌, ◌&&◌, List, [], ◌∷◌, leb, if◌then◌else◌,
}
use compute_quant_lab.Prelude.Float.{Float}
use compute_quant_lab.Prelude.Result.{Result, Exception, ok, err, ◌>>=◌, insufficient_data_error}
use compute_quant_lab.Ingestion.Protocols.{DateTime, ensure_utc, Snapshot, SpotIndexPoint}
use compute_quant_lab.Ingestion.ComputeIndex.{IndexConfig, build_spot_index}

abbrev pub day_length : ℕ
day_length = 86400000000

-- The rounds of `while day <= end.date()` from `day` on, `left` in number.
unfoldable pub grid_from : ℕ → ℕ → ℕ → ℕ → ℕ → List ℕ
grid_from start end fix_time zero day = []
grid_from start end fix_time (suc left) day =
    let candidate = day * day_length + fix_time in
    let rest = grid_from start end fix_time left (day + 1) in
    if leb start candidate && leb candidate end then candidate ∷ rest else rest

unfoldable pub daily_fix_grid : DateTime → DateTime → ℕ → Result (List ℕ)
unfolding ensure_utc grid_from
daily_fix_grid start end fix_time = do
  first ← ensure_utc start
  last ← ensure_utc end
  ok (
      grid_from first last fix_time (last / day_length + 1 - first / day_length)
        (first / day_length))

pub record IndexSeries (F : Type 0) : Type 0 where
  pub gpu_model : String
  pub points : List (SpotIndexPoint F)
  pub skipped : List ℕ

abbrev pub is_insufficient : Exception → Bool
is_insufficient insufficient_data_error = true
is_insufficient _ = false

module _ {F : Type 0} where
  -- The loop over the grid, whatever computes a fix. An exception other than
  -- `InsufficientDataError` ends it.
  unfoldable pub sample :
      String → (DateTime → Result (SpotIndexPoint F)) → List DateTime → Result (IndexSeries F)
  unfolding ensure_utc
  sample gpu_model build [] = ok (record { gpu_model = gpu_model; points = []; skipped = [] })
  sample gpu_model build (as_of ∷ grid) = elim (build as_of) [
    | ok point ↦ do
      rest ← sample gpu_model build grid
      ok (record rest { points = point ∷ rest.points })
    | err raised ↦
        if is_insufficient raised
        then (do
          t ← ensure_utc as_of
          rest ← sample gpu_model build grid
          ok (record rest { skipped = t ∷ rest.skipped }))
        else err raised
  ]

module _ {F : Type 0} ⦃float : Float F⦄ where
  unfoldable pub build_index_series :
      List (Snapshot F) → List DateTime → String → IndexConfig F → Result (IndexSeries F)
  unfolding sample build_spot_index
  build_index_series snapshots as_of_grid gpu_model config =
      sample gpu_model (λ as_of. build_spot_index snapshots as_of gpu_model config) as_of_grid
