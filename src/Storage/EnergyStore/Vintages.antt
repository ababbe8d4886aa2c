-- ===== src/Storage/EnergyStore/Vintages.antt =====
-- core/storage/energy_store.py: what the energy lake keeps, and what it shows as of an instant.
use Prim.Native.String.{String}
use mathlib.Core.Path.{subst}
use compute_quant_lab.Prelude.{
  true, ◌≡◌, refl, ℕ, ◌+◌, ◌≤◌, Option, some, List, All, All-imp, keep_passes, arith,
}
use compute_quant_lab.Prelude.Int.{ℤ}
use compute_quant_lab.Prelude.Result.{ok, err, >>=-eq-ok, ok_inj, value_error}
use compute_quant_lab.Ingestion.Protocols.{aware, naive, ensure_utc}
use compute_quant_lab.Storage.Lake.{IsKeyTest, count, has}
use compute_quant_lab.Storage.Frame.{Cell, Frame, Pandas, cells_eq, cells_eq-IsKeyTest}
use compute_quant_lab.Storage.EnergyStore.{
  EnergyRow, normalize_energy_frame, energy_cells, published_by, of_series, known_by,
  read_energy_rows, read_energy, write_energy_months, energy_store, write_energy,
}
use compute_quant_lab.Storage.Append.{IsLake, IsAppended, held, write_lem}
use compute_quant_lab.Storage.PriceStore.{Dataset}

module _ {F L : Type 0} (pandas : Pandas F) (dataset : Dataset F (EnergyRow F) L) where
  -- What is relied on: cells compare like an equality; a lake reads as some rows of the canonical frame;
  -- rows that are written are read back, as far as the dedup key goes.
  pub record IsEnergyDataset (contents : L → List (EnergyRow F)) : Type 0 where
    pub equality : IsKeyTest pandas.equal
    pub readable : (lake : L) → read_energy_rows pandas dataset lake ≡ ok (contents lake)
    pub kept :
        (lake : L) (part : List (EnergyRow F)) (k : List (Cell F))
        → count
            (has energy_cells (cells_eq pandas.equal) k)
            (contents (write_energy_months pandas dataset lake part))
          ≡ count (has energy_cells (cells_eq pandas.equal) k) (contents lake)
            + count (has energy_cells (cells_eq pandas.equal) k) part

  module _ (contents : L → List (EnergyRow F)) (laws : IsEnergyDataset contents) where
    pub energy_store-IsLake : IsLake (energy_store pandas dataset) contents
    unfolding energy_store read_energy energy_cells
    energy_store-IsLake = record {
      key_test = cells_eq-IsKeyTest pandas.equal laws.equality;
      reads = λ lake. rw (laws.readable lake) refl;
      stamps = λ now r. refl;
      writes = laws.kept;
    }

    -- An energy lake that holds no value twice still holds none twice after a write, which returns
    -- for every frame that `normalize_energy_frame` accepts; it holds each value of the frame once, has
    -- lost none, and a write of the same frame again, at whatever instant, adds nothing.
    pub write_energy_lem :
        (lake : L) (now : ℕ) (frame : Frame F) (rows : List (EnergyRow F))
        → normalize_energy_frame pandas frame ≡ ok rows
        → ((k : List (Cell F)) → held (energy_store pandas dataset) contents k lake ≤ 1)
        → (n : ℕ) × (lake' : L) × (write_energy pandas dataset lake now frame ≡ ok (n, lake'))
          × IsAppended (energy_store pandas dataset) contents lake frame rows lake'
    unfolding energy_store
    write_energy_lem lake now frame rows =
        write_lem (energy_store pandas dataset) contents energy_store-IsLake lake now frame rows

  published_by-le :
      (t : ℕ) (r : EnergyRow F)
      → published_by t r ≡ true
      → (published : ℕ) × (r.publish_time ≡ some published) × (published ≤ t)
  published_by-le t r h = ground arith

  -- As of an instant, the lake shows only what had been published by then.
  pub read_energy-as_of :
      (lake : L) (t : ℕ) (offset : ℤ) (series : Option String) (rows : List (EnergyRow F))
      → read_energy pandas dataset lake series (some (aware t offset)) ≡ ok rows
      → All (λ r. (published : ℕ) × (r.publish_time ≡ some published) × (published ≤ t)) rows
  unfolding read_energy known_by ensure_utc
  read_energy-as_of lake t offset series rows e =
      let (stored, _, rest) = >>=-eq-ok (read_energy_rows pandas dataset lake) _ e in
      subst (All _) (ok_inj rest)
        (All-imp _ _ (published_by-le t) _ (keep_passes (published_by t) (of_series series stored)))

  -- A naive instant is refused.
  pub read_energy_naive :
      (lake : L) (clock : ℕ) (series : Option String) (rows : List (EnergyRow F))
      → read_energy_rows pandas dataset lake ≡ ok rows
      → read_energy pandas dataset lake series (some (naive clock)) ≡ err value_error
  unfolding read_energy known_by ensure_utc
  read_energy_naive lake clock series rows e = rw e refl
