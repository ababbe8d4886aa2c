-- ===== src/Ingestion/SnapshotStore/Rows.antt =====
-- core/ingestion/snapshot_store.py: one row, written and read again.
use Prim.Native.String.{String}
use package.text.Mathlib.Text.{◌==◌ as str_eq}
use compute_quant_lab.Prelude.{ℕ, ◌≡◌, refl, Bool, true, false, Option, none, some, if◌then◌else◌}
use compute_quant_lab.Prelude.Int.{ℤ, pos}
use compute_quant_lab.Prelude.Result.{ok}
use compute_quant_lab.Ingestion.Protocols.{aware, Snapshot, ensure_utc}
use compute_quant_lab.Utils.Coerce
use compute_quant_lab.Utils.Coerce.{
  Value, null, Conversions, lenient_float, lenient_int, lenient_str,
}
use compute_quant_lab.Ingestion.SnapshotStore.{
  Formats, fields, text_or_empty, provenance, encode, decode,
}

-- What Python documents: `repr` of a float, `str` of an integer and `isoformat` are read back as the
-- value, and are never empty; `str` of a text is the text.
pub record IsFormats {F : Type 0} (convert : Conversions F) (formats : Formats F) : Type 0 where
  pub reads_instant : (t : ℕ) → formats.fromisoformat (formats.isoformat t) ≡ ok (aware t (pos 0))
  pub reads_float : (x : F) → formats.parse_float (formats.show_float x) ≡ ok x
  pub reads_int : (n : ℤ) → formats.parse_int (formats.show_int n) ≡ ok n
  pub converts_float : (x : F) → convert.of_text (formats.show_float x) ≡ some (some x)
  pub shows_text : (s : String) → convert.show (Coerce.text s) ≡ s
  pub float_nonempty : (x : F) → str_eq (formats.show_float x) "" ≡ false
  pub int_nonempty : (n : ℤ) → str_eq (formats.show_int n) "" ≡ false

module _ {F : Type 0} (convert : Conversions F) (formats : Formats F) where
  abbrev pub IsNonempty : Option String → Type 0
  IsNonempty none = Unit
  IsNonempty (some x) = str_eq x "" ≡ false

  -- The count is one that a float holds exactly.
  abbrev pub IsExact : Option ℤ → Type 0
  IsExact none = Unit
  IsExact (some n) = lenient_int convert (Coerce.text (formats.show_int n)) ≡ some n

  -- What a row of the file can hold: no empty text, which stands for no value.
  pub record IsStorable (s : Snapshot F) : Type 0 where
    pub region : IsNonempty s.region
    pub provider_detail : IsNonempty s.provider_detail
    pub vcpu : IsExact s.vcpu

  -- `x or None`, as a value
  abbrev or_null : String → Value F
  or_null x = if str_eq x "" then null else Coerce.text x

  module _ (laws : IsFormats convert formats) where
    open laws use {
      reads_instant, reads_float, reads_int, converts_float, shows_text, float_nonempty,
      int_nonempty,
    }

    read_text :
        (o : Option String)
        → IsNonempty o
        → lenient_str convert (or_null (text_or_empty formats (λ x. x) o)) ≡ o
    unfolding lenient_str
    read_text none h = refl
    read_text (some x) h = rw (h, shows_text x) refl

    read_number :
        (o : Option F)
        → lenient_float convert (or_null (text_or_empty formats formats.show_float o)) ≡ o
    unfolding lenient_float
    read_number none = refl
    read_number (some x) = rw (float_nonempty x, converts_float x) refl

    read_count :
        (o : Option ℤ)
        → IsExact o
        → lenient_int convert (or_null (text_or_empty formats formats.show_int o)) ≡ o
    unfolding lenient_int
    read_count none h = refl
    read_count (some n) h = rw (int_nonempty n) h

    read_flag : (b : Bool) → provenance (some (if b then "True" else "False")) ≡ b
    read_flag true = refl
    read_flag false = refl

    -- A storable snapshot is read back from its row as it was.
    pub decode-encode :
        (s : Snapshot F)
        → IsStorable s
        → decode convert formats fields (encode formats s fields) ≡ ok s
    unfolding decode encode ensure_utc
    decode-encode s h =
        rw
          (
            reads_instant s.snapshotted_at,
            reads_float s.price_usd_per_hour,
            reads_int s.availability,
            read_text s.region h.region,
            read_text s.provider_detail h.provider_detail,
            read_number s.gpu_memory_gb,
            read_number s.ram_gb,
            read_number s.disk_gb,
            read_count s.vcpu h.vcpu,
            read_flag s.simulated,
          )
          refl
