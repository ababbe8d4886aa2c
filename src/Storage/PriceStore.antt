-- ===== src/Storage/PriceStore.antt =====
-- core/storage/parquet_store.py, `ParquetPriceStore`. The lake and what pyarrow does with it are
-- parameters; the instant of a write is an argument.
pub mod Journal
use Prim.Native.String.{String}
use package.text.Mathlib.Text.{◌==◌ as str_eq}
use compute_quant_lab.Prelude.{
  ◌≡◌, ℕ, Bool, false, Option, none, some, List, [], ◌∷◌, keep, map, leb, if◌then◌else◌,
}
use compute_quant_lab.Prelude.Result.{Result, ok, ◌>>=◌}
use compute_quant_lab.Ingestion.Protocols.{DateTime, ensure_utc}
use compute_quant_lab.Storage.Frame.{
  Cell, null, int, text, Frame, Pandas, date_cell, float_cell, cells_eq,
}
use compute_quant_lab.Storage.Schema.{Reading, columns, normalize_frame}
use compute_quant_lab.Storage.Append.{Store, write}

-- A lake of Parquet files: whether it has one, its rows as a frame, and the write of rows with the month
-- of each under `source=<src>/month=<YYYYMM>/`.
pub record Dataset (F R L : Type 0) : Type 0 where
  pub has_files : L → Bool
  pub to_pandas : L → Frame F
  pub write_dataset : L → List (R × String) → L
  -- `dt.strftime("%Y%m")`
  pub year_month : Option ℕ → String

-- `fillna("__NULL__")`
abbrev pub filled : {F : Type 0} → Cell F → Cell F
filled null = text "__NULL__"
filled c = c

module _ {F : Type 0} where
  -- `frame[_DEDUP_KEY].fillna("__NULL__")`, a row at a time
  unfoldable pub dedup_cells : Reading F → List (Cell F)
  dedup_cells r =
      filled (date_cell r.snapshotted_at)
      ∷ text r.source
      ∷ text r.gpu_model
      ∷ text r.lease_type
      ∷ filled (float_cell r.price_usd_per_hour)
      ∷ int r.availability
      ∷ filled r.region
      ∷ filled r.gpu_memory_gb
      ∷ filled r.vcpu
      ∷ filled r.ram_gb
      ∷ filled r.disk_gb
      ∷ filled r.provider_detail
      ∷ []

  abbrev pub ingested : ℕ → Reading F → Reading F
  ingested now r = record r { ingested_at = some now }

  -- A frame without rows.
  abbrev pub empty_frame : Frame F
  empty_frame = record { names = columns; aware = λ name. false; rows = [] }

  -- `out[SNAPSHOTTED_AT] <= cutoff`, which `NaT` fails.
  abbrev pub observed_by : ℕ → Reading F → Bool
  observed_by cutoff r = elim (r.snapshotted_at) [ none ↦ false | some t ↦ leb t cutoff ]

  abbrev pub of_source : Option String → List (Reading F) → List (Reading F)
  of_source none rows = rows
  of_source (some source) rows = keep (λ r. str_eq r.source source) rows

  unfoldable pub up_to : Option DateTime → List (Reading F) → Result (List (Reading F))
  up_to none rows = ok rows
  up_to (some as_of) rows = do cutoff ← ensure_utc as_of; ok (keep (observed_by cutoff) rows)

module _ {F L : Type 0} (pandas : Pandas F) (dataset : Dataset F (Reading F) L) where
  open dataset use {has_files, to_pandas, write_dataset, year_month}

  -- The rows of the lake, before they are filtered.
  unfoldable pub read_rows : L → Result (List (Reading F))
  read_rows lake = normalize_frame pandas (if has_files lake then to_pandas lake else empty_frame)

  unfoldable pub read : L → Option DateTime → Option String → Result (List (Reading F))
  unfolding read_rows up_to
  read lake as_of source = do rows ← read_rows lake; up_to as_of (of_source source rows)

  abbrev pub with_month : Reading F → Reading F × String
  with_month r = (r, year_month r.snapshotted_at)

  abbrev pub write_months : L → List (Reading F) → L
  write_months lake part = write_dataset lake (map with_month part)

  -- What `ParquetPriceStore.write` is made of.
  unfoldable pub price_store : Store (Frame F) (Reading F) (List (Cell F)) L
  price_store = record {
    normalize = normalize_frame pandas;
    read_all = λ lake. read lake none none;
    key_of = dedup_cells;
    key_eq = cells_eq pandas.equal;
    stamp = ingested;
    write_dataset = write_months;
  }

  abbrev pub write_prices : L → ℕ → Frame F → Result (ℕ × L)
  write_prices = write price_store
