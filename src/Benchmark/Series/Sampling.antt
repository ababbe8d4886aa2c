-- ===== src/Benchmark/Series/Sampling.antt =====
-- projects/13_compute_benchmark/src/benchmark/index_series.py, `build_index_series`.
use Prim.Native.String.{String}
use mathlib.Core.Path.{subst}
use compute_quant_lab.Prelude.{
  ℕ, ◌+◌, ◌≡◌, ◌<◌, inl, inr, refl, ap, ◌∙◌, true, List, [], ◌∷◌, ◌++◌, All, All-imp, length, arith,
  if◌then◌else◌, Bool-cases,
}
use compute_quant_lab.Prelude.Float.{Float}
use compute_quant_lab.Prelude.Result.{
  Result, Exception, ok, err, ◌>>=◌, >>=-eq-ok, Result-cases, insufficient_data_error,
}
use compute_quant_lab.Ingestion.Protocols.{
  DateTime, naive, aware, ensure_utc, Snapshot, SpotIndexPoint,
}
use compute_quant_lab.Ingestion.ComputeIndex.{IndexConfig, build_spot_index}
use compute_quant_lab.Ingestion.ComputeIndex.Selection.{IsForeign, build_spot_index-noise}
use compute_quant_lab.Benchmark.Series.{IndexSeries, is_insufficient, sample, build_index_series}

-- A grid, the fixes at it in order, and the instants without one.
pub data Sampled {F : Type 0} (build : DateTime → Result (SpotIndexPoint F))
    : List DateTime → List (SpotIndexPoint F) → List ℕ → Type 0 where
  done : Sampled build [] [] []
  fixed :
      {as_of : DateTime} {point : SpotIndexPoint F} {grid : List DateTime}
      {points : List (SpotIndexPoint F)} {skipped : List ℕ}
      → build as_of ≡ ok point
      → Sampled build grid points skipped
      → Sampled build (as_of ∷ grid) (point ∷ points) skipped
  missed :
      {as_of : DateTime} {t : ℕ} {grid : List DateTime} {points : List (SpotIndexPoint F)}
      {skipped : List ℕ}
      → build as_of ≡ err insufficient_data_error
      → ensure_utc as_of ≡ ok t
      → Sampled build grid points skipped
      → Sampled build (as_of ∷ grid) points (t ∷ skipped)

insufficient-eq :
    (raised : Exception) → is_insufficient raised ≡ true → raised ≡ insufficient_data_error
insufficient-eq raised h = ground arith

module _ {F : Type 0} where
  sample_agree :
      (gpu_model : String) (f g : DateTime → Result (SpotIndexPoint F)) (grid : List DateTime)
      → All (λ as_of. f as_of ≡ g as_of) grid
      → sample gpu_model f grid ≡ sample gpu_model g grid
  unfolding sample
  sample_agree gpu_model f g [] h = refl
  sample_agree gpu_model f g (as_of ∷ grid) h =
      grind (arith, h.0, sample_agree gpu_model f g grid h.1)

  add_point : SpotIndexPoint F → IndexSeries F → Result (IndexSeries F)
  add_point point rest = ok (record rest { points = point ∷ rest.points })

  add_skipped : ℕ → IndexSeries F → Result (IndexSeries F)
  add_skipped t rest = ok (record rest { skipped = t ∷ rest.skipped })

  module _ (gpu_model : String) (build : DateTime → Result (SpotIndexPoint F)) (as_of : DateTime)
      (grid : List DateTime) where
    sample-fixed :
        (point : SpotIndexPoint F)
        → build as_of ≡ ok point
        → sample gpu_model build (as_of ∷ grid) ≡ (sample gpu_model build grid >>= add_point point)
    unfolding sample add_point
    sample-fixed point e = ground arith

    sample-raised :
        (raised : Exception)
        → build as_of ≡ err raised
        → sample gpu_model build (as_of ∷ grid) ≡ (
            if is_insufficient raised
            then ensure_utc as_of >>= (λ t. sample gpu_model build grid >>= add_skipped t)
            else err raised)
    unfolding sample add_skipped
    sample-raised raised e = ground arith

  with_point :
      (build : DateTime → Result (SpotIndexPoint F)) (as_of : DateTime) (grid : List DateTime)
      (point : SpotIndexPoint F) (rest : IndexSeries F) {series : IndexSeries F}
      → build as_of ≡ ok point
      → Sampled build grid rest.points rest.skipped
      → add_point point rest ≡ ok series
      → Sampled build (as_of ∷ grid) series.points series.skipped
  unfolding add_point
  with_point build as_of grid point rest {series} b h e =
      let same : record rest { points = point ∷ rest.points } ≡ series = cc in
      subst (λ (s : IndexSeries F). Sampled build (as_of ∷ grid) s.points s.skipped) same
        (fixed b h)

  with_skipped :
      (build : DateTime → Result (SpotIndexPoint F)) (as_of : DateTime) (grid : List DateTime)
      (t : ℕ) (rest : IndexSeries F) {series : IndexSeries F}
      → build as_of ≡ err insufficient_data_error
      → ensure_utc as_of ≡ ok t
      → Sampled build grid rest.points rest.skipped
      → add_skipped t rest ≡ ok series
      → Sampled build (as_of ∷ grid) series.points series.skipped
  unfolding add_skipped
  with_skipped build as_of grid t rest {series} b u h e =
      let same : record rest { skipped = t ∷ rest.skipped } ≡ series = cc in
      subst (λ (s : IndexSeries F). Sampled build (as_of ∷ grid) s.points s.skipped) same
        (missed b u h)

  without_fixes :
      (gpu_model : String) (build : DateTime → Result (SpotIndexPoint F)) {series : IndexSeries F}
      → sample gpu_model build [] ≡ ok series
      → Sampled build [] series.points series.skipped
  unfolding sample
  without_fixes gpu_model build {series} e =
      let same : record { gpu_model = gpu_model; points = []; skipped = [] } ≡ series = cc in
      subst (λ (s : IndexSeries F). Sampled build [] s.points s.skipped) same done

  sample-Sampled :
      (gpu_model : String) (build : DateTime → Result (SpotIndexPoint F)) (grid : List DateTime)
      {series : IndexSeries F}
      → sample gpu_model build grid ≡ ok series
      → Sampled build grid series.points series.skipped
  sample-Sampled gpu_model build [] e = without_fixes gpu_model build e
  sample-Sampled gpu_model build (as_of ∷ grid) {series} e = elim (Result-cases (build as_of)) [
    | inl (point, b) ↦
        let (rest, e₁, e₂) =
          >>=-eq-ok (sample gpu_model build grid) _
            (rw (sample-fixed gpu_model build as_of grid point b) at e) in
        with_point build as_of grid point rest b (sample-Sampled gpu_model build grid e₁) e₂
    | inr (raised, b) ↦ elim (Bool-cases (is_insufficient raised)) [
      | inl soft ↦
          let (t, u, e₁) =
            >>=-eq-ok (ensure_utc as_of) _
              (rw (sample-raised gpu_model build as_of grid raised b, soft) at e) in
          let (rest, e₂, e₃) = >>=-eq-ok (sample gpu_model build grid) _ e₁ in
          with_skipped build as_of grid t rest (b ∙ ap err (insufficient-eq raised soft)) u
            (sample-Sampled gpu_model build grid e₂) e₃
      | inr hard ↦ cc (rw (sample-raised gpu_model build as_of grid raised b, hard) at e)
    ]
  ]

  length-Sampled :
      {build : DateTime → Result (SpotIndexPoint F)} {grid : List DateTime}
      {points : List (SpotIndexPoint F)} {skipped : List ℕ}
      → Sampled build grid points skipped
      → length points + length skipped ≡ length grid
  length-Sampled done = omega arith
  length-Sampled (fixed _ h) = omega (arith, length-Sampled h)
  length-Sampled (missed _ _ h) = omega (arith, length-Sampled h)

  -- Taken later than the instant of a fix.
  abbrev pub IsLater : DateTime → Snapshot F → Type 0
  IsLater (naive clock) s = Unit {0}
  IsLater (aware now offset) s = now < s.snapshotted_at

module _ {F : Type 0} ⦃float : Float F⦄ where
  -- A series has, in the order of its grid, the fix of each instant that has one, and lists every
  -- other instant as skipped: nothing is filled in, and each instant is accounted for once.
  pub build_index_series-Sampled :
      (snapshots : List (Snapshot F)) (grid : List DateTime) (gpu_model : String)
      (config : IndexConfig F) {series : IndexSeries F}
      → build_index_series snapshots grid gpu_model config ≡ ok series
      → Sampled
          (λ as_of. build_spot_index snapshots as_of gpu_model config)
          grid
          series.points
          series.skipped
        × (length series.points + length series.skipped ≡ length grid)
  unfolding build_index_series
  build_index_series-Sampled snapshots grid gpu_model config e =
      let sampled = sample-Sampled gpu_model _ grid e in (sampled, length-Sampled sampled)

  build_agree :
      (config : IndexConfig F) (gpu_model : String) (before later after : List (Snapshot F))
      (as_of : DateTime)
      → All (IsLater as_of) later
      → build_spot_index (before ++ (later ++ after)) as_of gpu_model config
        ≡ build_spot_index (before ++ after) as_of gpu_model config
  unfolding build_spot_index
  build_agree config gpu_model before later after (naive clock) h = refl
  build_agree config gpu_model before later after (aware now offset) h =
      build_spot_index-noise config now offset gpu_model before later after (
        All-imp (IsLater (aware now offset)) (IsForeign config now gpu_model) (λ s p. inl p) later
          h)

  -- Snapshots taken later than every instant of the grid change nothing of the series, errors
  -- included, wherever they stand among the snapshots.
  pub build_index_series-later :
      (config : IndexConfig F) (gpu_model : String) (before later after : List (Snapshot F))
      (grid : List DateTime)
      → All (λ as_of. All (IsLater as_of) later) grid
      → build_index_series (before ++ (later ++ after)) grid gpu_model config
        ≡ build_index_series (before ++ after) grid gpu_model config
  unfolding build_index_series
  build_index_series-later config gpu_model before later after grid h =
      sample_agree gpu_model _ _ grid (
        All-imp (λ as_of. All (IsLater as_of) later) _
          (build_agree config gpu_model before later after) grid h)
