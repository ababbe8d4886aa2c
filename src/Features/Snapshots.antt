-- ===== src/Features/Snapshots.antt =====
-- core/features/builders.py, `as_of_snapshot` and `assert_point_in_time`.
use compute_quant_lab.Prelude.{
  ℕ, ◌+◌, ◌≡◌, ◌≤◌, ◌⊎◌, inl, inr, refl, Option, keep, ap, true, false, some, List, [], ◌∷◌, All,
  All-imp, keep_passes, keep_none, keep-get_elem?, get_elem?, All-get_elem?, leb, ltb, map, arith,
}
use compute_quant_lab.Prelude.Result.{ok, err, value_error}
use compute_quant_lab.Features.{
  Vintage, Frames, Index, aware_index, naive_index, other_index, lagged_rows, from_lagged_series,
  known, latest_known, as_of_snapshot, assert_point_in_time, raise_for,
}

-- What pandas documents: `idxmax` gives for each group one of its rows, with the largest
-- `knowledge_ts`, and a sort only moves the rows.
pub record IsFrames {F : Type 0} (frames : Frames F) : Type 1 where
  pub latest_rows-All :
      (P : Vintage F → Type 0) (rows : List (Vintage F))
      → All P rows
      → All P (frames.latest_rows rows)
  pub latest_rows_cover :
      (rows : List (Vintage F)) (i : ℕ) (r : Vintage F)
      → get_elem? rows i ≡ some r
      → (j : ℕ) × (s : Vintage F) × (get_elem? (frames.latest_rows rows) j ≡ some s)
        × (s.value_ts ≡ r.value_ts)
        × (r.knowledge_ts ≤ s.knowledge_ts)
  pub sort_index-All :
      (P : Vintage F → Type 0) (rows : List (Vintage F))
      → All P rows
      → All P (frames.sort_index rows)
  pub sort_index_cover :
      (rows : List (Vintage F)) (i : ℕ) (r : Vintage F)
      → get_elem? rows i ≡ some r
      → (j : ℕ) × (get_elem? (frames.sort_index rows) j ≡ some r)

module _ {F : Type 0} (frames : Frames F) (laws : IsFrames frames) where
  open laws use {latest_rows-All, latest_rows_cover, sort_index-All, sort_index_cover}

  known-All :
      (vintages : List (Vintage F)) (asof : ℕ)
      → All (λ row. row.knowledge_ts ≤ asof) (known vintages asof)
  unfolding known
  known-All vintages asof =
      All-imp (λ row. leb row.knowledge_ts asof ≡ true) (λ row. row.knowledge_ts ≤ asof)
        (λ row e. ground arith) (known vintages asof)
        (keep_passes (λ row. leb row.knowledge_ts asof) vintages)

  as_of_snapshot-All :
      (vintages : List (Vintage F)) (asof : ℕ)
      → All (λ row. row.knowledge_ts ≤ asof) (as_of_snapshot frames vintages asof)
  unfolding as_of_snapshot
  as_of_snapshot-All vintages asof = through (known vintages asof) (known-All vintages asof)
    where
      through :
          (rows : List (Vintage F))
          → All (λ row. row.knowledge_ts ≤ asof) rows
          → All (λ row. row.knowledge_ts ≤ asof) (latest_known frames rows)
      through [] h = tt
      through (row ∷ rows) h = sort_index-All _ _ (latest_rows-All _ _ h)

  assert_point_in_time-ok :
      (asof : ℕ) (rows : List (Vintage F))
      → All (λ row. row.knowledge_ts ≤ asof) rows
      → assert_point_in_time asof (map (λ row. row.knowledge_ts) rows) ≡ ok tt
  unfolding assert_point_in_time
  assert_point_in_time-ok asof rows h =
      ap raise_for
        (keep_none (λ ts. ltb asof ts) (map (λ row. row.knowledge_ts) rows) (none_later rows h))
    where
      none_later :
          (rows : List (Vintage F))
          → All (λ row. row.knowledge_ts ≤ asof) rows
          → All (λ ts. ltb asof ts ≡ false) (map (λ row. row.knowledge_ts) rows)
      none_later [] h = tt
      none_later (row ∷ rows) h = (ground (arith, h.0), none_later rows h.1)

  -- `assert_point_in_time` passes on the rows of every snapshot, given that `idxmax` and the
  -- sort give only rows that they are given.
  pub as_of_snapshot-point_in_time :
      (vintages : List (Vintage F)) (asof : ℕ)
      → assert_point_in_time asof
          (map (λ row. row.knowledge_ts) (as_of_snapshot frames vintages asof))
        ≡ ok tt
  as_of_snapshot-point_in_time vintages asof =
      assert_point_in_time-ok asof _ (as_of_snapshot-All vintages asof)

  -- For every row published by `asof`, the snapshot has a row of the same period, published by
  -- `asof` and no earlier than it, given that `idxmax` picks such a row of each group and that
  -- a sort keeps the rows.
  pub as_of_snapshot-covers :
      (vintages : List (Vintage F)) (asof i : ℕ) (r : Vintage F)
      → get_elem? vintages i ≡ some r
      → r.knowledge_ts ≤ asof
      → (j : ℕ) × (s : Vintage F) × (get_elem? (as_of_snapshot frames vintages asof) j ≡ some s)
        × (s.value_ts ≡ r.value_ts)
        × (r.knowledge_ts ≤ s.knowledge_ts)
        × (s.knowledge_ts ≤ asof)
  unfolding as_of_snapshot known
  as_of_snapshot-covers vintages asof i r e h =
      let (j, found) =
        keep-get_elem? (λ row. leb row.knowledge_ts asof) vintages i r e (ground arith) in
      let (k, s, here, same, newer) = through (known vintages asof) j r found in
      (k, s, here, same, newer, All-get_elem? _ _ k s (as_of_snapshot-All vintages asof) here)
    where
      through :
          (rows : List (Vintage F)) (i : ℕ) (r : Vintage F)
          → get_elem? rows i ≡ some r
          → (j : ℕ) × (s : Vintage F) × (get_elem? (latest_known frames rows) j ≡ some s)
            × (s.value_ts ≡ r.value_ts)
            × (r.knowledge_ts ≤ s.knowledge_ts)
      through [] i r e = absurd (cc)
      through (row ∷ rows) i r e =
          let (j, s, here, same, newer) = latest_rows_cover (row ∷ rows) i r e in
          let (k, there) = sort_index_cover (frames.latest_rows (row ∷ rows)) j s here in
          (k, s, there, same, newer)

module _ {F : Type 0} where
  -- The frame of a lagged series is made for an aware index, and refused with a `ValueError`
  -- otherwise; each of its rows known at `asof` is of an instant that lies by the lag before it.
  pub from_lagged_series-known :
      (index : Index) (values : List (Option F)) (publication_lag asof : ℕ)
      → ((ts : List ℕ) × (rows : List (Vintage F)) × (index ≡ aware_index ts)
          × (from_lagged_series index values publication_lag ≡ ok rows)
          × All (λ row. row.value_ts + publication_lag ≤ asof) (known rows asof))
        ⊎ (from_lagged_series index values publication_lag ≡ err value_error)
  unfolding from_lagged_series known
  from_lagged_series-known other_index values publication_lag asof = inr refl
  from_lagged_series-known (naive_index ts) values publication_lag asof = inr refl
  from_lagged_series-known (aware_index ts) values publication_lag asof =
      inl (ts, lagged_rows ts values publication_lag, refl, refl, lagged ts values)
    where
      lagged :
          (ts : List ℕ) (values : List (Option F))
          → All
              (λ row. row.value_ts + publication_lag ≤ asof)
              (keep (λ row. leb row.knowledge_ts asof) (lagged_rows ts values publication_lag))
      lagged [] values = tt
      lagged (t ∷ ts) [] = tt
      lagged (t ∷ ts) (v ∷ values) = ground (arith, lagged ts values)
