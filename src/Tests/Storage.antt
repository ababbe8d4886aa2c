-- ===== src/Tests/Storage.antt =====
-- Runs of the cold stores on a lake that is a list of rows, and the witnesses of their theorems.
use Prim.Native.Nat.{ℕ, ◌+◌}
use Prim.Native.String.{String}
use package.text.Mathlib.Text.{◌==◌ as str_eq}
use compute_quant_lab.Prelude.{
  ◌≡◌, refl, ◌≤◌, Bool, true, false, not, ◌&&◌, if◌then◌else◌, take, Option, none, some, List, [],
  ◌∷◌, ◌++◌, map, All, eqb,
}
use compute_quant_lab.Prelude.Int.{ℤ, pos, pos_part, neg_part}
use compute_quant_lab.Prelude.Result.{Result, ok, err, ◌>>=◌, value_error, type_error}
use compute_quant_lab.Utils.Coerce.{Value, Conversions}
use compute_quant_lab.Ingestion.Protocols.{Snapshot, aware, ensure_utc}
use compute_quant_lab.Storage.Lake.{new_rows}
use compute_quant_lab.Storage.Frame.{
  Cell, null, instant, int, float, text, bool, Frame, Pandas, is_empty, date_cell, float_cell,
  require_columns, require_aware_rows, require_aware,
}
use compute_quant_lab.Storage.Schema.{Reading, reading_of, normalize_frame}
use compute_quant_lab.Storage.Append.{write, write_part}
use compute_quant_lab.Storage.PriceStore.{
  Dataset, dedup_cells, read_rows, read, up_to, price_store, write_prices,
}
use compute_quant_lab.Storage.PriceStore.Journal.{read-as_of}
use compute_quant_lab.Storage.EnergyStore.{
  EnergyRow, energy_columns, energy_row_of, normalize_energy_frame, known_by, read_energy_rows,
  read_energy,
}
use compute_quant_lab.Storage.EnergyStore.Vintages.{read_energy-as_of}
use compute_quant_lab.Storage.Converters.{
  frame_of, recorded_as, snapshots_to_frame, frame_to_snapshots,
}
use compute_quant_lab.Storage.Converters.RoundTrip.{IsPandas, frame_to_snapshots-snapshots_to_frame}

abbrev to_datetime : Cell ℤ → Result (Option ℕ)
to_datetime null = ok none
to_datetime (instant t) = ok (some t)
to_datetime _ = err value_error

abbrev as_str : Cell ℤ → String
as_str (text s) = s
as_str _ = ""

abbrev as_float : Cell ℤ → Result (Option ℤ)
as_float null = ok none
as_float (float x) = ok (some x)
as_float _ = err type_error

abbrev as_int : Cell ℤ → Result ℤ
as_int (int i) = ok i
as_int _ = err type_error

abbrev as_bool : Cell ℤ → Bool
as_bool (bool b) = b
as_bool _ = false

-- Cells are compared by their kinds and what they show.
abbrev shown_as : Cell ℤ → ℕ × ℕ × String
shown_as null = (0, 0, "")
shown_as (instant t) = (1, t, "")
shown_as (int i) = (2 + neg_part i, pos_part i, "n")
shown_as (float x) = (2 + neg_part x, pos_part x, "n")
shown_as (text s) = (3, 0, s)
shown_as (bool b) = (4, 0, "")

abbrev equal : Cell ℤ → Cell ℤ → Bool
equal a b =
    let (k, n, s) = shown_as a in
    let (k', n', s') = shown_as b in eqb k k' && eqb n n' && str_eq s s'

abbrev pandas : Pandas ℤ
pandas = record {
  to_datetime = to_datetime;
  as_str = as_str;
  as_float = as_float;
  as_int = as_int;
  as_bool = as_bool;
  equal = equal;
}

pandas-IsPandas : IsPandas pandas
pandas-IsPandas = record {
  dates = dates;
  strings = λ s. refl;
  floats = floats;
  ints = λ i. refl;
  bools = λ b. refl;
}
  where
    dates : (t : Option ℕ) → to_datetime (date_cell t) ≡ ok t
    dates none = refl
    dates (some t) = refl

    floats : (x : Option ℤ) → as_float (float_cell x) ≡ ok x
    floats none = refl
    floats (some x) = refl

abbrev dataset : Dataset ℤ (Reading ℤ) (List (Reading ℤ))
dataset = record {
  has_files = λ lake. not (is_empty lake);
  to_pandas = frame_of;
  write_dataset = λ lake part. lake ++ map (λ p. p.0) part;
  year_month = λ t. "";
}

abbrev seen_at : ℕ → Option String → Snapshot (Option ℤ)
seen_at t region = record {
  snapshotted_at = t;
  source = "cudo";
  gpu_model = "H100";
  price_usd_per_hour = some (pos 2);
  lease_type = "on_demand";
  availability = pos 1;
  region = region;
  gpu_memory_gb = some (some (pos 80));
  vcpu = some (pos 8);
  ram_gb = none;
  disk_gb = none;
  provider_detail = none;
  simulated = false;
}

-- The same observation twice, and one that differs in its region.
abbrev batch : List (Reading ℤ)
batch =
    recorded_as (seen_at 5 none)
    ∷ recorded_as (seen_at 5 none)
    ∷ recorded_as (seen_at 9 (some "no-luster-1"))
    ∷ []

abbrev kept_rows : List (Reading ℤ)
kept_rows =
    record (recorded_as (seen_at 5 none)) { ingested_at = some 7 }
    ∷ record (recorded_as (seen_at 9 (some "no-luster-1"))) { ingested_at = some 7 }
    ∷ []

write_run : write_prices pandas dataset [] 7 (frame_of batch) ≡ ok (2, kept_rows)
unfolding write price_store read up_to read_rows normalize_frame reading_of require_columns
    require_aware_rows require_aware write_part new_rows dedup_cells
write_run = refl

as_of_run : read pandas dataset kept_rows (some (aware 6 (pos 0))) none ≡ ok (take 1 kept_rows)
unfolding read up_to read_rows normalize_frame reading_of require_columns require_aware_rows
    require_aware ensure_utc
as_of_run = refl

read-as_of_example :
    All (λ r. (seen : ℕ) × (r.snapshotted_at ≡ some seen) × (seen ≤ 6)) (take 1 kept_rows)
read-as_of_example = read-as_of pandas dataset kept_rows 6 (pos 0) none (take 1 kept_rows) as_of_run

abbrev convert : Conversions ℤ
convert = record { of_int = λ i. i; of_text = λ s. none; truncate = λ i. i; show = show }
  where
    show : Value ℤ → String
    show (Value.text s) = s
    show _ = ""

abbrev snapshots : List (Snapshot (Option ℤ))
snapshots = seen_at 5 none ∷ seen_at 9 (some "no-luster-1") ∷ []

frame_to_snapshots-snapshots_to_frame_example :
    (snapshots_to_frame pandas snapshots >>= λ rows.
    frame_to_snapshots pandas convert (frame_of rows))
    ≡ ok snapshots
frame_to_snapshots-snapshots_to_frame_example =
    frame_to_snapshots-snapshots_to_frame pandas pandas-IsPandas convert (λ s. refl) snapshots
      ((tt, tt, tt, refl), ((tt, tt, tt, refl), tt))

-- A price that is published later is not known yet.
abbrev energy_dataset : Dataset ℤ (EnergyRow ℤ) (Frame ℤ)
energy_dataset = record {
  has_files = λ lake. not (is_empty lake.rows);
  to_pandas = λ lake. lake;
  write_dataset = λ lake part. lake;
  year_month = λ t. "";
}

abbrev energy_cell : ℕ → String → Cell ℤ
energy_cell published name =
    if str_eq name "publish_time"
    then instant published
    else if str_eq name "interval_start"
    then instant 20
    else if str_eq name "value"
    then float (pos 3)
    else text "ercot"

abbrev energy_lake : Frame ℤ
energy_lake = record {
  names = energy_columns;
  aware = λ name. true;
  rows = energy_cell 4 ∷ energy_cell 12 ∷ [];
}

abbrev known_value : EnergyRow ℤ
known_value = record {
  source = "ercot";
  series = "ercot";
  publish_time = some 4;
  interval_start = some 20;
  value = some (pos 3);
  simulated = false;
  ingested_at = none;
}

vintage_run :
    read_energy pandas energy_dataset energy_lake (some "ercot") (some (aware 6 (pos 0)))
    ≡ ok (known_value ∷ [])
unfolding read_energy known_by read_energy_rows normalize_energy_frame energy_row_of require_columns
    require_aware ensure_utc
vintage_run = refl

read_energy-as_of_example :
    All
      (λ r. (published : ℕ) × (r.publish_time ≡ some published) × (published ≤ 6))
      (known_value ∷ [])
read_energy-as_of_example =
    read_energy-as_of pandas energy_dataset energy_lake 6 (pos 0) (some "ercot") (known_value ∷ [])
      vintage_run
