-- ===== src/Storage/PriceStore/Journal.antt =====
-- core/storage/parquet_store.py: what the price lake keeps, and what it shows as of an instant.
use Prim.Native.String.{String}
use mathlib.Core.Path.{subst}
use compute_quant_lab.Prelude.{
  true, ◌≡◌, refl, ℕ, ◌+◌, ◌≤◌, Option, some, List, All, All-imp, keep_passes, arith,
}
use compute_quant_lab.Prelude.Int.{ℤ}
use compute_quant_lab.Prelude.Result.{ok, err, >>=-eq-ok, ok_inj, value_error}
use compute_quant_lab.Ingestion.Protocols.{aware, naive, ensure_utc}
use compute_quant_lab.Storage.Lake.{IsKeyTest, count, has}
use compute_quant_lab.Storage.Frame.{Cell, Frame, Pandas, cells_eq, cells_eq-IsKeyTest}
use compute_quant_lab.Storage.Schema.{Reading}
use compute_quant_lab.Storage.Append.{IsLake}
use compute_quant_lab.Storage.PriceStore.{
  Dataset, dedup_cells, observed_by, of_source, up_to, read_rows, read, write_months, price_store,
}

module _ {F L : Type 0} (pandas : Pandas F) (dataset : Dataset F (Reading F) L) where
  -- What is relied on: cells compare like an equality; a lake reads as some rows of the canonical frame;
  -- rows that are written are read back, as far as the dedup key goes.
  pub record IsDataset (contents : L → List (Reading F)) : Type 0 where
    pub equality : IsKeyTest pandas.equal
    pub readable : (lake : L) → read_rows pandas dataset lake ≡ ok (contents lake)
    pub kept :
        (lake : L) (part : List (Reading F)) (k : List (Cell F))
        → count
            (has dedup_cells (cells_eq pandas.equal) k)
            (contents (write_months pandas dataset lake part))
          ≡ count (has dedup_cells (cells_eq pandas.equal) k) (contents lake)
            + count (has dedup_cells (cells_eq pandas.equal) k) part

  module _ (contents : L → List (Reading F)) (laws : IsDataset contents) where
    pub price_store-IsLake : IsLake (price_store pandas dataset) contents
    unfolding price_store read dedup_cells
    price_store-IsLake = record {
      key_test = cells_eq-IsKeyTest pandas.equal laws.equality;
      reads = λ lake. rw (laws.readable lake) refl;
      stamps = λ now r. refl;
      writes = laws.kept;
    }

  observed_by-le :
      (t : ℕ) (r : Reading F)
      → observed_by t r ≡ true
      → (seen : ℕ) × (r.snapshotted_at ≡ some seen) × (seen ≤ t)
  observed_by-le t r h = ground arith

  -- As of an instant, the lake shows only what had been observed by then.
  pub read-as_of :
      (lake : L) (t : ℕ) (offset : ℤ) (source : Option String) (rows : List (Reading F))
      → read pandas dataset lake (some (aware t offset)) source ≡ ok rows
      → All (λ r. (seen : ℕ) × (r.snapshotted_at ≡ some seen) × (seen ≤ t)) rows
  unfolding read up_to ensure_utc
  read-as_of lake t offset source rows e =
      let (stored, _, rest) = >>=-eq-ok (read_rows pandas dataset lake) _ e in
      subst (All _) (ok_inj rest)
        (All-imp _ _ (observed_by-le t) _ (keep_passes (observed_by t) (of_source source stored)))

  -- A naive instant is refused.
  pub read_naive :
      (lake : L) (clock : ℕ) (source : Option String) (rows : List (Reading F))
      → read_rows pandas dataset lake ≡ ok rows
      → read pandas dataset lake (some (naive clock)) source ≡ err value_error
  unfolding read up_to ensure_utc
  read_naive lake clock source rows e = rw e refl
