-- ===== src/Ingestion/SnapshotStore.antt =====
-- core/ingestion/snapshot_store.py, `CsvSnapshotStore`. A file is the list of its lines and a line the
-- list of its cells, as Python's `csv` reads back what it wrote. The directory has the files by
-- month, in the order of their names.
pub mod Rows
pub mod Appending
pub mod Idempotence
use Prim.Native.String.{String}
use package.text.Mathlib.Text.{◌==◌ as str_eq}
use compute_quant_lab.Prelude.{
  ℕ, Bool, true, false, Option, none, some, List, [], ◌∷◌, ◌++◌, any, map, eqb, ltb, join,
  if◌then◌else◌,
}
use compute_quant_lab.Prelude.Int.{ℤ}
use compute_quant_lab.Prelude.Result.{Result, ok, err, ◌>>=◌, traverse, key_error, type_error}
use compute_quant_lab.Ingestion.Protocols.{
  DateTime, ensure_utc, Snapshot, DedupKey, dedup_key, key_eq,
}
use compute_quant_lab.Ingestion.ComputeIndex.{mem}
use compute_quant_lab.Utils.Coerce.{
  Value, null, text, Conversions, lenient_float, lenient_int, lenient_str,
}

-- What Python's `datetime`, `float`, `int` and `strftime` do with texts.
pub record Formats (F : Type 0) : Type 0 where
  pub isoformat : ℕ → String
  pub fromisoformat : String → Result DateTime
  pub show_float : F → String
  pub parse_float : String → Result F
  pub show_int : ℤ → String
  pub parse_int : String → Result ℤ
  -- `f"{ts:%Y%m}"`, as a number.
  pub month_of : ℕ → ℕ

-- `_FIELDS`
abbrev pub fields : List String
fields =
    "snapshotted_at" ∷ "source" ∷ "gpu_model" ∷ "lease_type" ∷ "price_usd_per_hour" ∷ "availability"
    ∷ "region" ∷ "gpu_memory_gb" ∷ "vcpu" ∷ "ram_gb" ∷ "disk_gb" ∷ "provider_detail" ∷ "simulated"
    ∷ []

abbrev pub Line : Type 0
Line = List String

abbrev pub Directory : Type 0
Directory = List (ℕ × List Line)

-- `row.get(column)`: a later column of one name hides an earlier one.
abbrev pub cell : Line → Line → String → Option String
cell [] line column = none
cell (name ∷ names) [] column = none
cell (name ∷ names) (x ∷ xs) column = elim (cell names xs column) [
  | some y ↦ some y
  | none ↦ if str_eq name column then some x else none
]

-- `row[column]`, where a line that is too short for a mandatory column is a `TypeError`: the numbers
-- come after the texts, and no number is made of `None`.
abbrev pub required : Line → Line → String → Result String
required header line column = elim (cell header line column) [
  | some x ↦ ok x
  | none ↦ if mem column header then err type_error else err key_error
]

-- `row.get(column) or None`
abbrev pub optional : {F : Type 0} → Line → Line → String → Value F
optional header line column = elim (cell header line column) [
  | none ↦ null
  | some x ↦ if str_eq x "" then null else text x
]

-- `simulated_raw == "True" if simulated_raw else False`
abbrev pub provenance : Option String → Bool
provenance none = false
provenance (some raw) = str_eq raw "True"

-- The first line, or the current columns for a file that has none.
abbrev pub header_of : List Line → Line
header_of [] = fields
header_of ([] ∷ body) = fields
header_of ((name ∷ names) ∷ body) = name ∷ names

abbrev pub body_of : List Line → List Line
body_of [] = []
body_of (header ∷ body) = body

-- `_ensure_header_has`, for `simulated`: the header, and the lines of the file.
unfoldable pub ensure_header_has : Line → List Line → Line × List Line
ensure_header_has header lines =
    if mem "simulated" header
    then (header, lines)
    else (header ++ ("simulated" ∷ []), (header ++ ("simulated" ∷ [])) ∷ body_of lines)

module _ {F : Type 0} (formats : Formats F) where
  open formats use {isoformat, show_float, show_int}

  abbrev pub text_or_empty : {A : Type 0} → (A → String) → Option A → String
  text_or_empty show none = ""
  text_or_empty show (some a) = show a

  -- The record of a snapshot, at a column: what it has no value for is empty.
  unfoldable pub field_text : Snapshot F → String → String
  field_text s column =
      if str_eq column "snapshotted_at"
      then isoformat s.snapshotted_at
      else if str_eq column "source"
      then s.source
      else if str_eq column "gpu_model"
      then s.gpu_model
      else if str_eq column "lease_type"
      then s.lease_type
      else if str_eq column "price_usd_per_hour"
      then show_float s.price_usd_per_hour
      else if str_eq column "availability"
      then show_int s.availability
      else if str_eq column "region"
      then text_or_empty (λ x. x) s.region
      else if str_eq column "gpu_memory_gb"
      then text_or_empty show_float s.gpu_memory_gb
      else if str_eq column "vcpu"
      then text_or_empty show_int s.vcpu
      else if str_eq column "ram_gb"
      then text_or_empty show_float s.ram_gb
      else if str_eq column "disk_gb"
      then text_or_empty show_float s.disk_gb
      else if str_eq column "provider_detail"
      then text_or_empty (λ x. x) s.provider_detail
      else if str_eq column "simulated"
      then (if s.simulated then "True" else "False")
      else ""

  unfoldable pub encode : Snapshot F → Line → Line
  unfolding field_text
  encode s header = map (field_text s) header

  -- The lines of the file of a snapshot after it was written, in a new file and in an old one.
  unfoldable pub new_lines : Snapshot F → List Line
  unfolding encode
  new_lines s = fields ∷ encode s fields ∷ []

  unfoldable pub added_lines : Snapshot F → List Line → List Line
  unfolding encode ensure_header_has
  added_lines s lines =
      let (header, lines') = ensure_header_has (header_of lines) lines in
      lines' ++ (encode s header ∷ [])

  unfoldable pub write : ℕ → Snapshot F → Directory → Directory
  unfolding new_lines added_lines
  write month s [] = (month, new_lines s) ∷ []
  write month s ((m, lines) ∷ rest) =
      if eqb m month
      then (m, added_lines s lines) ∷ rest
      else if ltb month m
      then (month, new_lines s) ∷ (m, lines) ∷ rest
      else (m, lines) ∷ write month s rest

module _ {F : Type 0} (convert : Conversions F) (formats : Formats F) where
  open formats use {fromisoformat, parse_float, parse_int, month_of}

  -- One row of `load`.
  unfoldable pub decode : Line → Line → Result (Snapshot F)
  unfolding lenient_float lenient_int lenient_str ensure_utc
  decode header line = do
    raw ← required header line "snapshotted_at"
    ts ← fromisoformat raw
    source ← required header line "source"
    gpu_model ← required header line "gpu_model"
    raw_price ← required header line "price_usd_per_hour"
    price ← parse_float raw_price
    lease_type ← required header line "lease_type"
    raw_availability ← required header line "availability"
    availability ← parse_int raw_availability
    t ← ensure_utc ts
    ok (record {
      snapshotted_at = t;
      source = source;
      gpu_model = gpu_model;
      price_usd_per_hour = price;
      lease_type = lease_type;
      availability = availability;
      region = lenient_str convert (optional header line "region");
      gpu_memory_gb = lenient_float convert (optional header line "gpu_memory_gb");
      vcpu = lenient_int convert (optional header line "vcpu");
      ram_gb = lenient_float convert (optional header line "ram_gb");
      disk_gb = lenient_float convert (optional header line "disk_gb");
      provider_detail = lenient_str convert (optional header line "provider_detail");
      simulated = provenance (cell header line "simulated");
    })

  -- The rows of `csv.DictReader`, which passes over blank lines.
  unfoldable pub load_rows : Line → List Line → Result (List (Snapshot F))
  unfolding decode
  load_rows header [] = ok []
  load_rows header ([] ∷ body) = load_rows header body
  load_rows header ((x ∷ xs) ∷ body) = do
    s ← decode header (x ∷ xs)
    rest ← load_rows header body
    ok (s ∷ rest)

  abbrev pub load_file : List Line → Result (List (Snapshot F))
  load_file [] = ok []
  load_file (header ∷ body) = load_rows header body

  unfoldable pub load : Directory → Result (List (Snapshot F))
  unfolding load_rows
  load [] = ok []
  load ((month, lines) ∷ rest) = do here ← load_file lines; there ← load rest; ok (here ++ there)

  -- The loop of `append`: the directory, and the month of the last file written.
  unfoldable pub append_each :
      List (Snapshot F) → List DedupKey → Directory → Option ℕ → Directory × Option ℕ
  unfolding write
  append_each [] seen files written = (files, written)
  append_each (s ∷ rows) seen files written =
      let month = month_of s.snapshotted_at in
      let skipped = append_each rows seen files written in
      let kept = append_each rows (dedup_key s ∷ seen) (write formats month s files) (some month) in
      if any (key_eq (dedup_key s)) seen then skipped else kept

  unfoldable pub append : List (Snapshot F) → Directory → Result (Directory × Option ℕ)
  unfolding load append_each
  append rows files = do
    stored ← load files
    ok (append_each rows (map (λ s. dedup_key s) stored) files none)
