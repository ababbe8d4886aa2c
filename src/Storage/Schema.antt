-- ===== src/Storage/Schema.antt =====
-- core/storage/schema.py: the columns of the price lake, and `normalize_frame`.
use Prim.Native.String.{String}
use compute_quant_lab.Prelude.{ℕ, Bool, false, Option, List, [], ◌∷◌, ◌++◌}
use compute_quant_lab.Prelude.Int.{ℤ}
use compute_quant_lab.Prelude.Result.{Result, ok, ◌>>=◌, traverse}
use compute_quant_lab.Storage.Frame.{
  Cell, null, bool, Frame, Pandas, cell_or, require_columns, require_aware_rows, require_aware,
}

-- `COLUMNS`
abbrev pub columns : List String
columns =
    "snapshotted_at" ∷ "source" ∷ "gpu_model" ∷ "lease_type" ∷ "price_usd_per_hour" ∷ "availability"
    ∷ []

-- `OPTIONAL_COLUMNS`
abbrev pub optional_columns : List String
optional_columns =
    "region" ∷ "gpu_memory_gb" ∷ "vcpu" ∷ "ram_gb" ∷ "disk_gb" ∷ "provider_detail" ∷ []

-- `PROVENANCE_COLUMNS` and `ALL_COLUMNS`
abbrev pub provenance_columns : List String
provenance_columns = "simulated" ∷ "ingested_at" ∷ []

abbrev pub all_columns : List String
all_columns = columns ++ (optional_columns ++ provenance_columns)

-- A row of the canonical frame. An optional column keeps its cell as it is.
pub record Reading (F : Type 0) : Type 0 where
  pub snapshotted_at : Option ℕ
  pub source : String
  pub gpu_model : String
  pub lease_type : String
  pub price_usd_per_hour : Option F
  pub availability : ℤ
  pub region : Cell F
  pub gpu_memory_gb : Cell F
  pub vcpu : Cell F
  pub ram_gb : Cell F
  pub disk_gb : Cell F
  pub provider_detail : Cell F
  pub simulated : Bool
  pub ingested_at : Option ℕ

module _ {F : Type 0} (pandas : Pandas F) where
  open pandas use {to_datetime, as_str, as_float, as_int, as_bool}

  -- A row of the frame under the canonical types, absent columns with what they are filled with.
  unfoldable pub reading_of : Frame F → (String → Cell F) → Result (Reading F)
  reading_of frame row = do
    snapshotted_at ← to_datetime (row "snapshotted_at")
    ingested_at ← to_datetime (cell_or null frame "ingested_at" row)
    price ← as_float (row "price_usd_per_hour")
    availability ← as_int (row "availability")
    ok (record {
      snapshotted_at = snapshotted_at;
      source = as_str (row "source");
      gpu_model = as_str (row "gpu_model");
      lease_type = as_str (row "lease_type");
      price_usd_per_hour = price;
      availability = availability;
      region = cell_or null frame "region" row;
      gpu_memory_gb = cell_or null frame "gpu_memory_gb" row;
      vcpu = cell_or null frame "vcpu" row;
      ram_gb = cell_or null frame "ram_gb" row;
      disk_gb = cell_or null frame "disk_gb" row;
      provider_detail = cell_or null frame "provider_detail" row;
      simulated = as_bool (cell_or (bool false) frame "simulated" row);
      ingested_at = ingested_at;
    })

  unfoldable pub normalize_frame : Frame F → Result (List (Reading F))
  unfolding reading_of
  normalize_frame frame = do
    _ ← require_columns columns frame
    _ ← require_aware_rows frame "snapshotted_at"
    _ ← require_aware frame "ingested_at"
    traverse (reading_of frame) frame.rows
