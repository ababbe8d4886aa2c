-- ===== src/Storage/EnergyStore.antt =====
-- core/storage/energy_store.py: the lake of energy series, each row with the instant when it was
-- published and the interval that it is about.
pub mod Vintages
use Prim.Native.String.{String}
use package.text.Mathlib.Text.{◌==◌ as str_eq}
use compute_quant_lab.Prelude.{
  ℕ, Bool, false, Option, none, some, List, [], ◌∷◌, keep, map, leb, if◌then◌else◌,
}
use compute_quant_lab.Prelude.Result.{Result, ok, ◌>>=◌, traverse}
use compute_quant_lab.Ingestion.Protocols.{DateTime, ensure_utc}
use compute_quant_lab.Storage.Frame.{
  Cell, null, text, bool, Frame, Pandas, cell_or, date_cell, float_cell, cells_eq, require_columns,
  require_aware,
}
use compute_quant_lab.Storage.PriceStore.{Dataset}
use compute_quant_lab.Storage.Append.{Store, write}

-- `COLUMNS`
abbrev pub energy_columns : List String
energy_columns = "source" ∷ "series" ∷ "publish_time" ∷ "interval_start" ∷ "value" ∷ []

pub record EnergyRow (F : Type 0) : Type 0 where
  pub source : String
  pub series : String
  pub publish_time : Option ℕ
  pub interval_start : Option ℕ
  pub value : Option F
  pub simulated : Bool
  pub ingested_at : Option ℕ

module _ {F : Type 0} (pandas : Pandas F) where
  open pandas use {to_datetime, as_str, as_float, as_bool}

  unfoldable pub energy_row_of : Frame F → (String → Cell F) → Result (EnergyRow F)
  energy_row_of frame row = do
    publish_time ← to_datetime (row "publish_time")
    interval_start ← to_datetime (row "interval_start")
    ingested_at ← to_datetime (cell_or null frame "ingested_at" row)
    value ← as_float (row "value")
    ok (record {
      source = as_str (row "source");
      series = as_str (row "series");
      publish_time = publish_time;
      interval_start = interval_start;
      value = value;
      simulated = as_bool (cell_or (bool false) frame "simulated" row);
      ingested_at = ingested_at;
    })

  unfoldable pub normalize_energy_frame : Frame F → Result (List (EnergyRow F))
  unfolding energy_row_of
  normalize_energy_frame frame = do
    _ ← require_columns energy_columns frame
    _ ← require_aware frame "publish_time"
    _ ← require_aware frame "interval_start"
    _ ← require_aware frame "ingested_at"
    traverse (energy_row_of frame) frame.rows

module _ {F : Type 0} where
  -- `subset=COLUMNS`, a row at a time
  unfoldable pub energy_cells : EnergyRow F → List (Cell F)
  energy_cells r =
      text r.source
      ∷ text r.series
      ∷ date_cell r.publish_time
      ∷ date_cell r.interval_start
      ∷ float_cell r.value
      ∷ []

  abbrev pub ingested_energy : ℕ → EnergyRow F → EnergyRow F
  ingested_energy now r = record r { ingested_at = some now }

  abbrev pub empty_energy_frame : Frame F
  empty_energy_frame = record { names = energy_columns; aware = λ name. false; rows = [] }

  -- `out[PUBLISH_TIME] <= cutoff`, which `NaT` fails.
  abbrev pub published_by : ℕ → EnergyRow F → Bool
  published_by cutoff r = elim (r.publish_time) [ none ↦ false | some t ↦ leb t cutoff ]

  abbrev pub of_series : Option String → List (EnergyRow F) → List (EnergyRow F)
  of_series none rows = rows
  of_series (some series) rows = keep (λ r. str_eq r.series series) rows

  unfoldable pub known_by : Option DateTime → List (EnergyRow F) → Result (List (EnergyRow F))
  known_by none rows = ok rows
  known_by (some as_of) rows = do cutoff ← ensure_utc as_of; ok (keep (published_by cutoff) rows)

module _ {F L : Type 0} (pandas : Pandas F) (dataset : Dataset F (EnergyRow F) L) where
  open dataset use {has_files, to_pandas, write_dataset, year_month}

  unfoldable pub read_energy_rows : L → Result (List (EnergyRow F))
  read_energy_rows lake =
      normalize_energy_frame pandas (if has_files lake then to_pandas lake else empty_energy_frame)

  unfoldable pub read_energy : L → Option String → Option DateTime → Result (List (EnergyRow F))
  unfolding read_energy_rows known_by
  read_energy lake series as_of = do
    rows ← read_energy_rows lake
    known_by as_of (of_series series rows)

  abbrev pub write_energy_months : L → List (EnergyRow F) → L
  write_energy_months lake part =
      write_dataset lake (map (λ r. (r, year_month r.interval_start)) part)

  -- What `EnergyColdStore.write` is made of.
  unfoldable pub energy_store : Store (Frame F) (EnergyRow F) (List (Cell F)) L
  energy_store = record {
    normalize = normalize_energy_frame pandas;
    read_all = λ lake. read_energy lake none none;
    key_of = energy_cells;
    key_eq = cells_eq pandas.equal;
    stamp = ingested_energy;
    write_dataset = write_energy_months;
  }

  abbrev pub write_energy : L → ℕ → Frame F → Result (ℕ × L)
  write_energy = write energy_store
