-- ===== src/Storage/Append.antt =====
-- core/storage/parquet_store.py and energy_store.py: the `write` that both stores have, over a lake of
-- files that pyarrow writes, and what it keeps.
use compute_quant_lab.Prelude.{
  ◌≡◌, refl, ap, ◌∙◌, ℕ, ◌+◌, ◌≤◌, Bool, List, [], ◌∷◌, length, map, All, All-imp, arith,
  if◌then◌else◌,
}
use compute_quant_lab.Prelude.Result.{Result, ok, ◌>>=◌}
use compute_quant_lab.Storage.Lake.{
  IsKeyTest, has, count, new_rows, new_rows-le, new_rows-covers, new_rows-nil,
}
use compute_quant_lab.Storage.Frame.{is_empty}

-- What a store is made of: the frames that it takes, its lake, and the key of a row.
pub record Store (T R K L : Type 0) : Type 0 where
  pub normalize : T → Result (List R)
  pub read_all : L → Result (List R)
  pub key_of : R → K
  pub key_eq : K → K → Bool
  -- `part[INGESTED_AT] = now`
  pub stamp : ℕ → R → R
  pub write_dataset : L → List R → L

module _ {T R K L : Type 0} (store : Store T R K L) where
  open store use {normalize, read_all, key_of, key_eq, stamp, write_dataset}

  -- The rows that are not there yet are stamped and written; how many they are.
  unfoldable pub write_part : L → ℕ → List R → ℕ × L
  write_part lake now part =
      if is_empty part then (0, lake) else (length part, write_dataset lake (map (stamp now) part))

  -- `write`, at the instant `now`
  unfoldable pub write : L → ℕ → T → Result (ℕ × L)
  unfolding write_part
  write lake now frame = do
    rows ← normalize frame
    if is_empty rows then ok (0, lake) else (do
      existing ← read_all lake
      ok (write_part lake now (new_rows key_of key_eq existing rows)))

-- What the store relies on: the lake holds some rows, which reading gives; writing adds the rows that are
-- given, as far as their keys go; the stamp is not part of a key.
pub record IsLake {T R K L : Type 0} (store : Store T R K L) (contents : L → List R) : Type 0 where
  pub key_test : IsKeyTest store.key_eq
  pub reads : (lake : L) → store.read_all lake ≡ ok (contents lake)
  pub stamps : (now : ℕ) (row : R) → store.key_of (store.stamp now row) ≡ store.key_of row
  pub writes :
      (lake : L) (part : List R) (k : K)
      → count (has store.key_of store.key_eq k) (contents (store.write_dataset lake part))
        ≡ count (has store.key_of store.key_eq k) (contents lake)
          + count (has store.key_of store.key_eq k) part

module _ {T R K L : Type 0} (store : Store T R K L) (contents : L → List R) where
  -- How many rows of the lake have the key.
  abbrev pub held : K → L → ℕ
  held k lake = count (has store.key_of store.key_eq k) (contents lake)

  -- What a call keeps and gives: no key twice, each row of the batch held once, nothing lost, and the same
  -- batch again writes nothing, at whatever instant.
  abbrev pub IsAppended : L → T → List R → L → Type 0
  IsAppended lake frame rows lake' =
      ((k : K) → held k lake' ≤ 1)
      × All (λ row. held (store.key_of row) lake' ≡ 1) rows
      × ((k : K) → held k lake ≤ held k lake')
      × ((later : ℕ) → write store lake' later frame ≡ ok (0, lake'))

module _ {T R K L : Type 0} (store : Store T R K L) (contents : L → List R)
    (laws : IsLake store contents) where
  open store use {normalize, read_all, key_of, key_eq, stamp, write_dataset}
  open laws use {key_test, reads, stamps, writes}

  count-stamp :
      (k : K) (now : ℕ) (part : List R)
      → count (has key_of key_eq k) (map (stamp now) part) ≡ count (has key_of key_eq k) part
  count-stamp k now [] = refl
  count-stamp k now (row ∷ part) =
      ground (arith, count-stamp k now part, ap (key_eq k) (stamps now row))

  held-write_part :
      (k : K) (lake : L) (now : ℕ) (part : List R)
      → held store contents k (write_part store lake now part).1
        ≡ held store contents k lake + count (has key_of key_eq k) part
  unfolding write_part
  held-write_part k lake now [] = omega arith
  held-write_part k lake now (row ∷ part) =
      writes lake (map (stamp now) (row ∷ part)) k
      ∙ ap (λ n. held store contents k lake + n) (count-stamp k now (row ∷ part))

  write-eq :
      (lake : L) (now : ℕ) (frame : T) (rows : List R)
      → normalize frame ≡ ok rows
      → write store lake now frame
        ≡ ok (write_part store lake now (new_rows key_of key_eq (contents lake) rows))
  unfolding write write_part new_rows
  write-eq lake now frame [] e = rw e refl
  write-eq lake now frame (row ∷ rows) e = rw (e, reads lake) refl

  write-known :
      (lake : L) (now : ℕ) (frame : T) (rows : List R)
      → normalize frame ≡ ok rows
      → All (λ row. held store contents (key_of row) lake ≡ 1) rows
      → write store lake now frame ≡ ok (0, lake)
  unfolding write_part
  write-known lake now frame rows e known =
      let none_new =
        new_rows-nil key_of key_eq key_test (contents lake) rows
          (All-imp _ _ (λ row once. omega (arith, once)) rows known) in
      write-eq lake now frame rows e ∙ ap (λ part. ok (write_part store lake now part)) none_new

  -- A lake that holds no key twice still holds none twice after a write, which returns for every frame
  -- that is accepted; it holds each row of the frame once by its key, it has lost nothing, and a write
  -- of the same frame again, at whatever instant, adds nothing.
  pub write_lem :
      (lake : L) (now : ℕ) (frame : T) (rows : List R)
      → normalize frame ≡ ok rows
      → ((k : K) → held store contents k lake ≤ 1)
      → (n : ℕ) × (lake' : L) × (write store lake now frame ≡ ok (n, lake'))
        × IsAppended store contents lake frame rows lake'
  write_lem lake now frame rows e distinct =
      let part = new_rows key_of key_eq (contents lake) rows in
      let lake' = (write_part store lake now part).1 in
      let held_eq = λ (k : K). held-write_part k lake now part in
      let at_most : (k : K) → held store contents k lake' ≤ 1 = λ k.
        omega
          (arith, held_eq k, new_rows-le key_of key_eq key_test (contents lake) rows distinct k) in
      let once : All (λ row. held store contents (key_of row) lake' ≡ 1) rows =
        All-imp _ _
          (λ row covered. omega (arith, covered, held_eq (key_of row), at_most (key_of row))) rows
          (new_rows-covers key_of key_eq key_test (contents lake) rows) in
      (
        (write_part store lake now part).0,
        lake',
        write-eq lake now frame rows e,
        (
          at_most,
          once,
          (λ k. omega (arith, held_eq k)),
          λ later. write-known lake' later frame rows e once,
        ),
      )
