-- ===== src/Storage/Converters.antt =====
-- core/storage/converters.py, and `ParquetSnapshotStore` of core/storage/snapshot_store.py.
pub mod RoundTrip
use Prim.Native.String.{String}
use package.text.Mathlib.Text.{◌==◌ as str_eq}
use compute_quant_lab.Prelude.{ℕ, Bool, true, Option, none, some, List, [], ◌∷◌, map, if◌then◌else◌}
use compute_quant_lab.Prelude.Int.{ℤ}
use compute_quant_lab.Prelude.Result.{Result, ok, err, ◌>>=◌, traverse, value_error}
use compute_quant_lab.Utils.Coerce.{Value, Conversions, lenient_float, lenient_int, lenient_str}
use compute_quant_lab.Ingestion.Protocols.{Snapshot}
use compute_quant_lab.Storage.Frame.{
  Cell, null, instant, int, float, text, bool, Frame, Pandas, date_cell, float_cell,
}
use compute_quant_lab.Storage.Schema.{Reading, all_columns, normalize_frame}
use compute_quant_lab.Storage.PriceStore.{Dataset, read, write_prices}

module _ {F : Type 0} where
  abbrev pub text_cell : Option String → Cell F
  text_cell none = null
  text_cell (some s) = text s

  abbrev pub int_cell : Option ℤ → Cell F
  int_cell none = null
  int_cell (some i) = int i

  -- A size that is absent or NaN.
  abbrev pub size_cell : Option (Option F) → Cell F
  size_cell none = null
  size_cell (some x) = float_cell x

  -- The row of the canonical frame that says what the reading says.
  abbrev pub row_of : Reading F → String → Cell F
  row_of r name =
      if str_eq name "snapshotted_at"
      then date_cell r.snapshotted_at
      else if str_eq name "source"
      then text r.source
      else if str_eq name "gpu_model"
      then text r.gpu_model
      else if str_eq name "lease_type"
      then text r.lease_type
      else if str_eq name "price_usd_per_hour"
      then float_cell r.price_usd_per_hour
      else if str_eq name "availability"
      then int r.availability
      else if str_eq name "region"
      then r.region
      else if str_eq name "gpu_memory_gb"
      then r.gpu_memory_gb
      else if str_eq name "vcpu"
      then r.vcpu
      else if str_eq name "ram_gb"
      then r.ram_gb
      else if str_eq name "disk_gb"
      then r.disk_gb
      else if str_eq name "provider_detail"
      then r.provider_detail
      else if str_eq name "simulated"
      then bool r.simulated
      else if str_eq name "ingested_at"
      then date_cell r.ingested_at
      else null

  -- The canonical frame of the readings.
  abbrev pub frame_of : List (Reading F) → Frame F
  frame_of rows = record { names = all_columns; aware = λ name. true; rows = map row_of rows }

  -- What a snapshot puts into the columns; `ingested_at` is left to the store.
  abbrev pub recorded_as : Snapshot (Option F) → Reading F
  recorded_as s = record {
    snapshotted_at = some s.snapshotted_at;
    source = s.source;
    gpu_model = s.gpu_model;
    lease_type = s.lease_type;
    price_usd_per_hour = s.price_usd_per_hour;
    availability = s.availability;
    region = text_cell s.region;
    gpu_memory_gb = size_cell s.gpu_memory_gb;
    vcpu = int_cell s.vcpu;
    ram_gb = size_cell s.ram_gb;
    disk_gb = size_cell s.disk_gb;
    provider_detail = text_cell s.provider_detail;
    simulated = s.simulated;
    ingested_at = none;
  }

  -- `pd.DataFrame(records, columns=ALL_COLUMNS)`: of its columns only the first has a time zone.
  abbrev pub records_frame : List (Snapshot (Option F)) → Frame F
  records_frame snapshots = record {
    names = all_columns;
    aware = λ name. str_eq name "snapshotted_at";
    rows = map (λ s. row_of (recorded_as s)) snapshots;
  }

  abbrev pub as_value : Cell F → Value F
  as_value null = Value.null
  as_value (instant t) = Value.other
  as_value (int i) = Value.int i
  as_value (float x) = Value.float (some x)
  as_value (text s) = Value.text s
  as_value (bool b) = Value.bool b

  abbrev pub size_of : Option F → Option (Option F)
  size_of none = none
  size_of (some x) = some (some x)

module _ {F : Type 0} (pandas : Pandas F) where
  unfoldable pub snapshots_to_frame : List (Snapshot (Option F)) → Result (List (Reading F))
  unfolding normalize_frame
  snapshots_to_frame snapshots = normalize_frame pandas (records_frame snapshots)

module _ {F : Type 0} (convert : Conversions F) where
  -- The snapshot of a row; one without an instant is refused.
  unfoldable pub snapshot_of : Reading F → Result (Snapshot (Option F))
  snapshot_of r = elim (r.snapshotted_at) [
    | none ↦ err value_error
    | some t ↦ ok (record {
      snapshotted_at = t;
      source = r.source;
      gpu_model = r.gpu_model;
      price_usd_per_hour = r.price_usd_per_hour;
      lease_type = r.lease_type;
      availability = r.availability;
      region = lenient_str convert (as_value r.region);
      gpu_memory_gb = size_of (lenient_float convert (as_value r.gpu_memory_gb));
      vcpu = lenient_int convert (as_value r.vcpu);
      ram_gb = size_of (lenient_float convert (as_value r.ram_gb));
      disk_gb = size_of (lenient_float convert (as_value r.disk_gb));
      provider_detail = lenient_str convert (as_value r.provider_detail);
      simulated = r.simulated;
    })
  ]

module _ {F : Type 0} (pandas : Pandas F) (convert : Conversions F) where
  unfoldable pub frame_to_snapshots : Frame F → Result (List (Snapshot (Option F)))
  unfolding snapshot_of
  frame_to_snapshots frame = do
    rows ← normalize_frame pandas frame
    traverse (snapshot_of convert) rows

  module _ {L : Type 0} (dataset : Dataset F (Reading F) L) where
    -- `ParquetSnapshotStore.append`, which gives the lake after the write.
    unfoldable pub append_snapshots : L → ℕ → List (Snapshot (Option F)) → Result L
    append_snapshots lake now snapshots = do
      rows ← snapshots_to_frame pandas snapshots
      (_, lake') ← write_prices pandas dataset lake now (frame_of rows)
      ok lake'

    unfoldable pub load_snapshots : L → Result (List (Snapshot (Option F)))
    load_snapshots lake = do
      rows ← read pandas dataset lake none none
      frame_to_snapshots (frame_of rows)
