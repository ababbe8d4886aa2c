-- ===== src/Ingestion/ComputeIndex/Selection.antt =====
-- core/ingestion/compute_index.py: which snapshots enter a fix, and which venues are preferred.
use Prim.Native.String.{String}
use text.Mathlib.TextEquality.{eq_iff}
use compute_quant_lab.Prelude.{
  ℕ, ◌+◌, ◌-◌, ◌≡◌, ◌≢◌, ◌<◌, ◌⊎◌, inl, inr, refl, ap, ◌∙◌, Bool, true, false, not, List, [], ◌∷◌,
  ◌++◌, arith, if◌then◌else◌, keep, keep-append, keep_none, All, keep_passes, All-imp, sym,
  Bool-cases,
}
use compute_quant_lab.Prelude.Float.{Float}
use compute_quant_lab.Prelude.Int.{ℤ}
use compute_quant_lab.Ingestion.Protocols.{aware, Snapshot, VenueRate}
use compute_quant_lab.Ingestion.ComputeIndex.{
  split_source, mem, is_direct, prefer_direct_venues, IndexConfig, is_candidate, is_relevant,
  relevant_snapshots, build_spot_index, sources,
}

module _ {F : Type 0} where
  -- A snapshot that is later than the instant of the fix, older than its window, from an excluded
  -- source, of another model, or of another lease type.
  abbrev pub IsForeign : IndexConfig F → ℕ → String → Snapshot F → Type 0
  IsForeign config now gpu_model s =
      (now < s.snapshotted_at)
      ⊎ (s.snapshotted_at + config.staleness < now)
      ⊎ (mem s.source config.excluded_sources ≡ true)
      ⊎ (s.gpu_model ≢ gpu_model)
      ⊎ (s.lease_type ≢ config.lease_type)

  abbrev enters : IndexConfig F → ℕ → String → Snapshot F → Bool
  enters config now gpu_model s =
      if is_candidate config gpu_model s
      then is_relevant config (now - config.staleness) now s
      else false

  keep-keep :
      (p q : Snapshot F → Bool) (xs : List (Snapshot F))
      → keep q (keep p xs) ≡ keep (λ x. if p x then q x else false) xs
  keep-keep p q [] = refl
  keep-keep p q (x ∷ xs) = ground (arith, keep-keep p q xs)

  IsForeign-enters :
      (config : IndexConfig F) (now : ℕ) (gpu_model : String) (s : Snapshot F)
      → IsForeign config now gpu_model s
      → enters config now gpu_model s ≡ false
  IsForeign-enters config now gpu_model s foreign =
      ground (arith, foreign, eq_iff s.gpu_model gpu_model, eq_iff s.lease_type config.lease_type)

  relevant-noise :
      (config : IndexConfig F) (now : ℕ) (gpu_model : String)
      (before noise after : List (Snapshot F))
      → All (IsForeign config now gpu_model) noise
      → relevant_snapshots config now gpu_model (before ++ (noise ++ after))
        ≡ relevant_snapshots config now gpu_model (before ++ after)
  relevant-noise config now gpu_model before noise after h =
      let gone : keep (enters config now gpu_model) noise ≡ [] =
        keep_none _ noise (All-imp _ _ (IsForeign-enters config now gpu_model) noise h) in
      let p = is_candidate config gpu_model in
      let q = is_relevant config (now - config.staleness) now in
      let e = enters config now gpu_model in
      keep-keep p q (before ++ (noise ++ after))
      ∙ keep-append e before (noise ++ after)
      ∙ ap (λ l. keep e before ++ l) (keep-append e noise after ∙ ap (λ l. l ++ keep e after) gone)
      ∙ sym (keep-keep p q (before ++ after) ∙ keep-append e before after)

  abbrev preferred : List String → VenueRate F → Bool
  preferred direct r =
      if is_direct r.source then true else not (mem (split_source r.source).1 direct)

  keep-preferred :
      (direct : List String) (rates : List (VenueRate F))
      → (keep (λ r. is_direct r.source) (keep (preferred direct) rates)
          ≡ keep (λ r. is_direct r.source) rates)
        × (keep is_direct (sources (keep (preferred direct) rates))
            ≡ keep is_direct (sources rates))
  keep-preferred direct [] = (refl, refl)
  keep-preferred direct (r ∷ rates) =
      let (ih, ih') = keep-preferred direct rates in
      elim (Bool-cases (is_direct r.source)) [
        | inl e ↦ rw e (rw e (ap (λ l. r ∷ l) ih, ap (λ l. r.source ∷ l) ih'))
        | inr e ↦ elim (Bool-cases (mem (split_source r.source).1 direct)) [
          | inl m ↦ rw (e, m) (ih, ih')
          | inr m ↦ rw (e, m) (rw e (ih, ih'))
        ]
      ]

  preferred-cases :
      (direct : List String) (r : VenueRate F)
      → preferred direct r ≡ true
      → (is_direct r.source ≡ true) ⊎ (mem (split_source r.source).1 direct ≡ false)
  preferred-cases direct r h = ground arith

  -- After the preference no aggregator quote is left whose venue is also quoted directly, and
  -- every direct quote is still there, in its order.
  pub prefer_direct_venues_lem :
      (rates : List (VenueRate F))
      → let kept = prefer_direct_venues rates in
        All
          (λ r.
            (is_direct r.source ≡ true)
            ⊎ (mem (split_source r.source).1 (keep is_direct (sources kept)) ≡ false))
          kept
        × (keep (λ r. is_direct r.source) kept ≡ keep (λ r. is_direct r.source) rates)
  unfolding prefer_direct_venues
  prefer_direct_venues_lem rates =
      let direct = keep is_direct (sources rates) in
      let (quotes, names) = keep-preferred direct rates in
      (
        rw names (All-imp _ _ (preferred-cases direct) _ (keep_passes (preferred direct) rates)),
        quotes,
      )

module _ {F : Type 0} ⦃float : Float F⦄ where
  -- Snapshots that are later than the instant of the fix, older than its window, from an excluded
  -- source, of another model or of another lease type change neither the fix nor the error,
  -- wherever they stand among the snapshots.
  pub build_spot_index-noise :
      (config : IndexConfig F) (now : ℕ) (offset : ℤ) (gpu_model : String)
      (before noise after : List (Snapshot F))
      → All (IsForeign config now gpu_model) noise
      → build_spot_index (before ++ (noise ++ after)) (aware now offset) gpu_model config
        ≡ build_spot_index (before ++ after) (aware now offset) gpu_model config
  unfolding build_spot_index
  build_spot_index-noise config now offset gpu_model before noise after h =
      rw (relevant-noise config now gpu_model before noise after h)
