-- ===== src/Storage/Lake.antt =====
-- What the two Parquet stores of core/storage (`ParquetPriceStore.write` and `EnergyColdStore.write`)
-- share: the rows of a batch that are new, by a key and a test of keys. A lake is its rows in any order,
-- so that its contents are told by how many rows pass a test.
use compute_quant_lab.Prelude.{
  ◌≡◌, refl, ◌⊎◌, ℕ, ◌+◌, ◌≤◌, Bool, true, false, not, List, [], ◌∷◌, ◌++◌, length, keep, any, All,
  All-imp, arith, if◌then◌else◌, keep_none,
}

-- How many rows pass the test.
abbrev pub count : {R : Type 0} → (R → Bool) → List R → ℕ
count p rows = length (keep p rows)

module _ {R K : Type 0} (key_of : R → K) (key_eq : K → K → Bool) where
  abbrev pub has : K → R → Bool
  has k row = key_eq k (key_of row)

  -- Whether a row with the key is among the rows.
  abbrev pub is_seen : List R → K → Bool
  is_seen rows k = any (has k) rows

  -- `frame[~keys.duplicated()]`, after the rows `earlier`
  unfoldable pub drop_duplicates : List R → List R → List R
  drop_duplicates earlier [] = []
  drop_duplicates earlier (row ∷ rows) =
      let rest = drop_duplicates (row ∷ earlier) rows in
      if is_seen earlier (key_of row) then rest else row ∷ rest

  abbrev pub unseen : List R → R → Bool
  unseen existing row = not (is_seen existing (key_of row))

  -- The anti-join with the rows that exist.
  unfoldable pub new_rows : List R → List R → List R
  unfolding drop_duplicates
  new_rows existing rows = keep (unseen existing) (drop_duplicates [] rows)

-- What the test of keys has to be: reflexive, and two keys that equal a third are equal.
pub record IsKeyTest {K : Type 0} (key_eq : K → K → Bool) : Type 0 where
  pub same : (k : K) → key_eq k k ≡ true
  pub euclid : (k a b : K) → key_eq k a ≡ true → key_eq k b ≡ true → key_eq b a ≡ true

module _ {R : Type 0} where
  pub count-append : (p : R → Bool) (xs ys : List R) → count p (xs ++ ys) ≡ count p xs + count p ys
  count-append p [] ys = omega arith
  count-append p (x ∷ xs) ys = ground (arith, count-append p xs ys)

  pub count-cons-le : (p : R → Bool) (x : R) (xs : List R) → count p xs ≤ count p (x ∷ xs)
  count-cons-le p x xs = ground arith

  pub any-count : (p : R → Bool) (xs : List R) → any p xs ≡ true → 1 ≤ count p xs
  any-count p [] h = absurd (cc)
  any-count p (x ∷ xs) h = ground (arith, any-count p xs)

  pub count-any : (p : R → Bool) (xs : List R) → 1 ≤ count p xs → any p xs ≡ true
  count-any p [] h = absurd (omega arith)
  count-any p (x ∷ xs) h = ground (arith, count-any p xs)

  pub count-keep-le : (p q : R → Bool) (xs : List R) → count p (keep q xs) ≤ count p xs
  count-keep-le p q [] = omega arith
  count-keep-le p q (x ∷ xs) = ground (arith, count-keep-le p q xs)

module _ {R K : Type 0} (key_of : R → K) (key_eq : K → K → Bool) (laws : IsKeyTest key_eq) where
  open laws use {same, euclid}

  abbrev pub of_key : K → List R → ℕ
  of_key k = count (has key_of key_eq k)

  -- At most one row has each key.
  abbrev pub IsDistinct : List R → Type 0
  IsDistinct rows = (k : K) → of_key k rows ≤ 1

  seen_by :
      (k : K) (row : R) (rows : List R)
      → key_eq k (key_of row) ≡ true
      → 1 ≤ of_key k rows
      → is_seen key_of key_eq rows (key_of row) ≡ true
  seen_by k row [] e h = absurd (omega arith)
  seen_by k row (x ∷ rows) e h =
      ground (arith, euclid k (key_of x) (key_of row), seen_by k row rows e)

  drop_duplicates-le :
      (k : K) (earlier rows : List R)
      → (of_key k (drop_duplicates key_of key_eq earlier rows) ≤ 1)
        × (1 ≤ of_key k earlier → of_key k (drop_duplicates key_of key_eq earlier rows) ≡ 0)
  unfolding drop_duplicates
  drop_duplicates-le k earlier [] = (omega arith, λ h. refl)
  drop_duplicates-le k earlier (row ∷ rows) =
      ground (arith, drop_duplicates-le k (row ∷ earlier) rows, seen_by k row earlier)

  unseen-zero :
      (k : K) (existing rows : List R)
      → 1 ≤ of_key k existing
      → of_key k (keep (unseen key_of key_eq existing) rows) ≡ 0
  unseen-zero k existing [] h = refl
  unseen-zero k existing (row ∷ rows) h =
      ground (arith, unseen-zero k existing rows, seen_by k row existing)

  -- The new rows repeat no key, neither among themselves nor of the rows that exist.
  pub new_rows-le :
      (existing rows : List R)
      → IsDistinct existing
      → (k : K) → of_key k existing + of_key k (new_rows key_of key_eq existing rows) ≤ 1
  unfolding new_rows
  new_rows-le existing rows h k =
      let once = drop_duplicates key_of key_eq [] rows in
      omega (
        arith,
        h k,
        (drop_duplicates-le k [] rows).0,
        count-keep-le (has key_of key_eq k) (unseen key_of key_eq existing) once,
        zero_or_new (of_key k existing) (of_key k (keep (unseen key_of key_eq existing) once))
            (unseen-zero k existing once),
      )
    where
      zero_or_new : (a b : ℕ) → (1 ≤ a → b ≡ 0) → (a ≡ 0) ⊎ (b ≡ 0)
      zero_or_new a b h = ground arith

  key_trans : (k a b : K) → key_eq k a ≡ true → key_eq a b ≡ true → key_eq k b ≡ true
  key_trans k a b e f = euclid a b k f (euclid k k a (same k) e)

  seen-count :
      (k : K) (row : R) (rows : List R)
      → key_eq k (key_of row) ≡ true
      → is_seen key_of key_eq rows (key_of row) ≡ true
      → 1 ≤ of_key k rows
  seen-count k row [] e h = absurd (cc)
  seen-count k row (x ∷ rows) e h =
      ground (arith, key_trans k (key_of row) (key_of x), seen-count k row rows e)

  keep-unseen-covers :
      (k : K) (existing rows : List R)
      → 1 ≤ of_key k rows
      → 1 ≤ of_key k existing + of_key k (keep (unseen key_of key_eq existing) rows)
  keep-unseen-covers k existing [] h = absurd (omega arith)
  keep-unseen-covers k existing (row ∷ rows) h =
      ground (arith, keep-unseen-covers k existing rows, seen-count k row existing)

  drop_duplicates-covers :
      (earlier rows : List R)
      → All
          (λ row.
            1
            ≤ of_key (key_of row) earlier
              + of_key (key_of row) (drop_duplicates key_of key_eq earlier rows))
          rows
  unfolding drop_duplicates
  drop_duplicates-covers earlier [] = tt
  drop_duplicates-covers earlier (row ∷ rows) = (
    ground (arith, same (key_of row), any-count (has key_of key_eq (key_of row)) earlier),
    All-imp _ _ (λ r covered. ground (arith, seen-count (key_of r) row earlier)) rows
        (drop_duplicates-covers (row ∷ earlier) rows),
  )

  -- Every row of a batch has its key in what exists or in what is new.
  pub new_rows-covers :
      (existing rows : List R)
      → All
          (λ row.
            1
            ≤ of_key (key_of row) existing
              + of_key (key_of row) (new_rows key_of key_eq existing rows))
          rows
  unfolding new_rows
  new_rows-covers existing rows =
      All-imp _ _
        (λ row covered.
          keep-unseen-covers (key_of row) existing (drop_duplicates key_of key_eq [] rows)
            (omega arith))
        rows (drop_duplicates-covers [] rows)

  drop_duplicates-All :
      (P : R → Type 0) (earlier rows : List R)
      → All P rows
      → All P (drop_duplicates key_of key_eq earlier rows)
  unfolding drop_duplicates
  drop_duplicates-All P earlier [] h = tt
  drop_duplicates-All P earlier (row ∷ rows) (p, h) =
      ground (arith, drop_duplicates-All P (row ∷ earlier) rows h)

  known_unseen :
      (existing : List R) (row : R)
      → 1 ≤ of_key (key_of row) existing
      → unseen key_of key_eq existing row ≡ false
  known_unseen existing row known =
      rw (count-any (has key_of key_eq (key_of row)) existing known) refl

  -- A batch whose keys all exist has no new rows.
  pub new_rows-nil :
      (existing rows : List R)
      → All (λ row. 1 ≤ of_key (key_of row) existing) rows
      → new_rows key_of key_eq existing rows ≡ []
  unfolding new_rows
  new_rows-nil existing rows h = keep_none (unseen key_of key_eq existing) _ (
      All-imp _ _ (λ row known. known_unseen existing row known) _
        (drop_duplicates-All _ [] rows h))
