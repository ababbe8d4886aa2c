-- ===== src/Storage/Converters/RoundTrip.antt =====
-- core/storage/converters.py: the two conversions undo each other.
use Prim.Native.String.{String}
use compute_quant_lab.Prelude.{◌≡◌, refl, ℕ, Bool, Option, none, some, List, [], ◌∷◌, map, All}
use compute_quant_lab.Prelude.Int.{ℤ}
use compute_quant_lab.Prelude.Result.{Result, ok, ◌>>=◌, traverse}
use compute_quant_lab.Utils.Coerce.{Value, Conversions, lenient_float, lenient_int, lenient_str}
use compute_quant_lab.Ingestion.Protocols.{Snapshot}
use compute_quant_lab.Storage.Frame.{
  int, text, bool, Pandas, date_cell, float_cell, require_columns, require_aware_rows,
  require_aware,
}
use compute_quant_lab.Storage.Schema.{Reading, reading_of, normalize_frame}
use compute_quant_lab.Storage.Converters.{
  row_of, frame_of, recorded_as, records_frame, size_cell, size_of, int_cell, text_cell, as_value,
  snapshots_to_frame, snapshot_of, frame_to_snapshots,
}

-- What pandas does to a cell that has the type asked for already.
pub record IsPandas {F : Type 0} (pandas : Pandas F) : Type 0 where
  pub dates : (t : Option ℕ) → pandas.to_datetime (date_cell t) ≡ ok t
  pub strings : (s : String) → pandas.as_str (text s) ≡ s
  pub floats : (x : Option F) → pandas.as_float (float_cell x) ≡ ok x
  pub ints : (i : ℤ) → pandas.as_int (int i) ≡ ok i
  pub bools : (b : Bool) → pandas.as_bool (bool b) ≡ b

module _ {F : Type 0} (pandas : Pandas F) (laws : IsPandas pandas) where
  open laws use {dates, strings, floats, ints, bools}

  reading_of-row_of :
      (rows : List (Reading F)) (r : Reading F)
      → reading_of pandas (frame_of rows) (row_of r) ≡ ok r
  unfolding reading_of
  reading_of-row_of rows r =
      rw
        (
          dates r.snapshotted_at,
          dates r.ingested_at,
          floats r.price_usd_per_hour,
          ints r.availability,
          strings r.source,
          strings r.gpu_model,
          strings r.lease_type,
          bools r.simulated,
        )
        refl

  traverse-map :
      {A B : Type 0} (f : B → Result A) (g : A → B)
      → ((a : A) → f (g a) ≡ ok a)
      → (xs : List A) → traverse f (map g xs) ≡ ok xs
  traverse-map f g h [] = refl
  traverse-map f g h (a ∷ xs) = rw (h a, traverse-map f g h xs) refl

  -- The canonical frame of some readings is normal: normalising it gives them back.
  pub normalize_frame-frame_of :
      (rows : List (Reading F)) → normalize_frame pandas (frame_of rows) ≡ ok rows
  unfolding normalize_frame require_columns require_aware_rows require_aware
  normalize_frame-frame_of rows =
      traverse-map (reading_of pandas (frame_of rows)) row_of (reading_of-row_of rows) rows

  reading_of-recorded_as :
      (snapshots : List (Snapshot (Option F))) (s : Snapshot (Option F))
      → reading_of pandas (records_frame snapshots) (row_of (recorded_as s)) ≡ ok (recorded_as s)
  unfolding reading_of
  reading_of-recorded_as snapshots s =
      rw
        (
          dates (some s.snapshotted_at),
          dates none,
          floats s.price_usd_per_hour,
          ints s.availability,
          strings s.source,
          strings s.gpu_model,
          strings s.lease_type,
          bools s.simulated,
        )
        refl

  traverse-recorded_as :
      (all rest : List (Snapshot (Option F)))
      → traverse (reading_of pandas (records_frame all)) (map (λ s. row_of (recorded_as s)) rest)
        ≡ ok (map recorded_as rest)
  traverse-recorded_as all [] = refl
  traverse-recorded_as all (s ∷ rest) =
      rw (reading_of-recorded_as all s, traverse-recorded_as all rest) refl

  records_aware :
      (snapshots : List (Snapshot (Option F)))
      → require_aware (records_frame snapshots) "ingested_at" ≡ ok tt
  unfolding require_aware
  records_aware [] = refl
  records_aware (s ∷ snapshots) = records_aware snapshots

  -- Snapshots become the readings that say the same.
  pub snapshots_to_frame_lem :
      (snapshots : List (Snapshot (Option F)))
      → snapshots_to_frame pandas snapshots ≡ ok (map recorded_as snapshots)
  unfolding snapshots_to_frame normalize_frame require_columns require_aware_rows
  snapshots_to_frame_lem snapshots =
      rw (records_aware snapshots, traverse-recorded_as snapshots snapshots) refl

  module _ (convert : Conversions F)
      (str_text : (s : String) → convert.show (Value.text s) ≡ s) where
    -- A size that is a number if it is there, and a count that a double holds.
    abbrev pub IsSize : Option (Option F) → Type 0
    IsSize none = Unit
    IsSize (some none) = ⊥
    IsSize (some (some x)) = Unit

    abbrev pub IsCount : Option ℤ → Type 0
    IsCount none = Unit
    IsCount (some i) = convert.truncate (convert.of_int i) ≡ i

    abbrev pub IsStorable : Snapshot (Option F) → Type 0
    IsStorable s = IsSize s.gpu_memory_gb × IsSize s.ram_gb × IsSize s.disk_gb × IsCount s.vcpu

    text_back : (o : Option String) → lenient_str convert (as_value (text_cell o)) ≡ o
    unfolding lenient_str
    text_back none = refl
    text_back (some s) = rw (str_text s) refl

    size_back :
        (o : Option (Option F))
        → IsSize o
        → size_of (lenient_float convert (as_value (size_cell o))) ≡ o
    unfolding lenient_float
    size_back none h = refl
    size_back (some none) h = absurd h
    size_back (some (some x)) h = refl

    count_back : (o : Option ℤ) → IsCount o → lenient_int convert (as_value (int_cell o)) ≡ o
    unfolding lenient_int
    count_back none h = refl
    count_back (some i) h = rw h refl

    snapshot_of-recorded_as :
        (s : Snapshot (Option F)) → IsStorable s → snapshot_of convert (recorded_as s) ≡ ok s
    unfolding snapshot_of
    snapshot_of-recorded_as s (gpu, ram, disk, vcpu) =
        rw
          (
            text_back s.region,
            text_back s.provider_detail,
            size_back s.gpu_memory_gb gpu,
            size_back s.ram_gb ram,
            size_back s.disk_gb disk,
            count_back s.vcpu vcpu,
          )
          refl

    traverse-snapshot_of :
        (snapshots : List (Snapshot (Option F)))
        → All IsStorable snapshots
        → traverse (snapshot_of convert) (map recorded_as snapshots) ≡ ok snapshots
    traverse-snapshot_of [] h = refl
    traverse-snapshot_of (s ∷ rest) (p, h) =
        rw (snapshot_of-recorded_as s p, traverse-snapshot_of rest h) refl

    -- Snapshots that become a frame come back as they were, in order, when none of their sizes is a NaN
    -- and a double holds each number of vCPUs.
    pub frame_to_snapshots-snapshots_to_frame :
        (snapshots : List (Snapshot (Option F)))
        → All IsStorable snapshots
        → (snapshots_to_frame pandas snapshots >>= λ rows.
            frame_to_snapshots pandas convert (frame_of rows))
          ≡ ok snapshots
    unfolding frame_to_snapshots
    frame_to_snapshots-snapshots_to_frame snapshots h =
        rw
          (
            snapshots_to_frame_lem snapshots,
            normalize_frame-frame_of (map recorded_as snapshots),
            traverse-snapshot_of snapshots h,
          )
          refl
