-- ===== src/Ingestion/Protocols.antt =====
-- core/ingestion/protocols.py: the data that flows through the compute leg. An instant is the number
-- of microseconds since the first one that Python's `datetime` has, in UTC.
use Prim.Native.String.{String}
use text.Mathlib.Text.{◌==◌ as str_eq}
use compute_quant_lab.Prelude.{ℕ, Bool, ◌&&◌, Option, List, eqb}
use compute_quant_lab.Prelude.Int.{ℤ}
use compute_quant_lab.Prelude.Result.{Result, ok, err, ◌>>=◌, value_error}

-- A naive `datetime` is a wall clock; an aware one names an instant, shown at an offset.
pub data DateTime : Type 0 where
  naive : ℕ → DateTime
  aware : ℕ → ℤ → DateTime

-- The instant of an aware `datetime`.
unfoldable pub ensure_utc : DateTime → Result ℕ
ensure_utc (naive clock) = err value_error
ensure_utc (aware instant offset) = ok instant

-- `snapshotted_at` is an instant: the constructor below refuses a naive one.
pub record Snapshot (F : Type 0) : Type 0 where
  pub snapshotted_at : ℕ
  pub source : String
  pub gpu_model : String
  pub price_usd_per_hour : F
  pub lease_type : String
  pub availability : ℤ
  pub region : Option String
  pub gpu_memory_gb : Option F
  pub vcpu : Option ℤ
  pub ram_gb : Option F
  pub disk_gb : Option F
  pub provider_detail : Option String
  pub simulated : Bool

-- `Snapshot.__post_init__`
unfoldable pub at_instant : {F : Type 0} → DateTime → Snapshot F → Result (Snapshot F)
unfolding ensure_utc
at_instant ts s = do t ← ensure_utc ts; ok (record s { snapshotted_at = t })

-- `isoformat` of an instant in UTC differs between instants, so the instant stands for it.
abbrev pub DedupKey : Type 0
DedupKey = record { instant : ℕ; source : String; gpu_model : String; lease_type : String }

abbrev pub dedup_key : {F : Type 0} → Snapshot F → DedupKey
dedup_key s = record {
  instant = s.snapshotted_at;
  source = s.source;
  gpu_model = s.gpu_model;
  lease_type = s.lease_type;
}

abbrev pub key_eq : DedupKey → DedupKey → Bool
key_eq a b =
    eqb a.instant b.instant
    && str_eq a.source b.source
    && str_eq a.gpu_model b.gpu_model
    && str_eq a.lease_type b.lease_type

pub record VenueRate (F : Type 0) : Type 0 where
  pub source : String
  pub rate : F
  pub availability : ℤ
  pub snapshotted_at : ℕ

pub record SpotIndexPoint (F : Type 0) : Type 0 where
  pub as_of : ℕ
  pub gpu_model : String
  pub lease_type : String
  pub price_usd_per_hour : F
  pub n_sources : ℕ
  pub method : String
  pub oldest_obs_at : ℕ

-- `OutlierFilter`
pub record OutlierFilter (F : Type 0) : Type 0 where
  pub name : String
  pub filter : List (VenueRate F) → List (VenueRate F)

-- `IndexEstimator`
pub record IndexEstimator (F : Type 0) : Type 0 where
  pub name : String
  pub estimate : List (VenueRate F) → F
