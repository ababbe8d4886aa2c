-- ===== src/Ingestion/Venues/Datacrunch/Catalogue.antt =====
-- core/ingestion/providers/datacrunch.py: which rows the catalogue gives.
use Prim.Native.String.{String}
use mathlib.Core.Path.{subst}
use compute_quant_lab.Prelude.{
  sym, All-imp, ◌⊎◌, ap, All-get_elem?, All, false, refl, inl, inr, arith, ◌≡◌, ℕ, Option, some,
  List,
}
use compute_quant_lab.Prelude.Float.{Float}
use compute_quant_lab.Prelude.Int.{ℤ, pos, leb_ℤ}
use compute_quant_lab.Prelude.Result.{ok_inj, >>=-eq-ok, Result, ok, err}
use compute_quant_lab.Ingestion.Json.{
  Json, Fields, int, Builtins, get, get_or, or_else, to_float, to_int, is_nonpositive,
}
use compute_quant_lab.Ingestion.Venues.Offers.{
  IsListed, IsFrom, skip_if-All, need-All, append_row-All, collect-All, collect-fields-All,
  VenueRow, present, over, section, caught,
}
use compute_quant_lab.Ingestion.Venues.Datacrunch.{
  leases, Instance, lease_rows, instance_of, instance_rows, parse_datacrunch,
}

module _ {F : Type 0} ⦃numbers : Float F⦄ (builtins : Builtins F) where
  instance_of-n_gpus :
      (n : ℤ) (gpu it : Fields F) (shared : Instance F)
      → instance_of builtins n gpu it ≡ ok shared
      → shared.n_gpus ≡ n
  unfolding instance_of
  instance_of-n_gpus n gpu it shared e =
      let (_, _, rest) = >>=-eq-ok (section "gpu_memory" it) _ e in
      let (_, _, rest) = >>=-eq-ok (present (to_float builtins) _) _ rest in
      let (_, _, rest) = >>=-eq-ok (section "cpu" it) _ rest in
      let (_, _, rest) = >>=-eq-ok (present (to_int builtins) _) _ rest in
      let (_, _, rest) = >>=-eq-ok (section "memory" it) _ rest in
      let (_, _, rest) = >>=-eq-ok (present (to_float builtins) _) _ rest in
      let (_, _, rest) = >>=-eq-ok (section "storage" it) _ rest in
      let (_, _, rest) = >>=-eq-ok (present (to_float builtins) _) _ rest in
      sym (ap (λ shared. shared.n_gpus) (ok_inj rest))

  -- The lease and the field of its price.
  abbrev pub IsLease : String × String → Type 0
  IsLease (lease_type, key) =
      ((lease_type ≡ "on_demand") × (key ≡ "price_per_hour"))
      ⊎ ((lease_type ≡ "spot") × (key ≡ "spot_price"))

  -- The price of the row's lease is a number that is not zero or below, and the row has an `n`th of it.
  abbrev IsLeaseRow : ℕ → ℤ → Fields F → VenueRow F → Type 0
  IsLeaseRow now n it row =
      IsFrom "datacrunch" now row
      × (key : String) × IsLease (row.lease_type, key)
      × (price : Option F) × (to_float builtins (get key it) ≡ ok price)
      × (is_nonpositive price ≡ false)
      × (row.price_usd_per_hour ≡ over (builtins.convert.of_int n) price)

  caught-ok : {A : Type 0} (r : Result A) (a : A) → caught r ≡ some a → r ≡ ok a
  caught-ok (ok b) a e = ground arith
  caught-ok (err x) a e = absurd (cc)

  IsLease-lease_type :
      (lease_type key : String)
      → IsLease (lease_type, key)
      → (lease_type ≡ "on_demand") ⊎ (lease_type ≡ "spot")
  IsLease-lease_type lease_type key (inl (e, _)) = inl e
  IsLease-lease_type lease_type key (inr (e, _)) = inr e

  lease_rows-IsLeaseRow :
      (now : ℕ) (n : ℤ) (shared : Instance F) (it : Fields F) (lease_type key : String)
      (rows : List (VenueRow F))
      → shared.n_gpus ≡ n
      → IsLease (lease_type, key)
      → lease_rows builtins now shared it (lease_type, key) ≡ ok rows
      → All (IsLeaseRow now n it) rows
  unfolding lease_rows
  lease_rows-IsLeaseRow now n shared it lease_type key rows e_n lease e =
      need-All _ _ _ rows e (λ price e_price priced. skip_if-All _ _ _ rows priced (λ passes kept.
        append_row-All _ _ rows kept (λ row e_row. subst (IsLeaseRow now n it) (ok_inj e_row) (
          (refl, refl, IsLease-lease_type lease_type key lease, refl),
          key,
          lease,
          price,
          caught-ok (to_float builtins (get key it)) price e_price,
          passes,
          ap (λ n. over (builtins.convert.of_int n) price) e_n,
        ))))

  leases-IsLease : All IsLease leases
  leases-IsLease = (inl (refl, refl), (inr (refl, refl), tt))

  -- The instance type has GPUs, and the row is of one of its leases.
  abbrev pub IsDatacrunchRow : ℕ → Fields F → VenueRow F → Type 0
  IsDatacrunchRow now it row =
      (gpu : Fields F) × (n : ℤ) × (section "gpu" it ≡ ok gpu)
      × (to_int builtins (or_else (get_or "number_of_gpus" (int (pos 0)) gpu) (int (pos 0))) ≡ ok n)
      × (leb_ℤ n (pos 0) ≡ false)
      × IsLeaseRow now n it row

  instance_rows-IsDatacrunchRow :
      (now : ℕ) (it : Fields F) (rows : List (VenueRow F))
      → instance_rows builtins now it ≡ ok rows
      → All (IsDatacrunchRow now it) rows
  unfolding instance_rows
  instance_rows-IsDatacrunchRow now it rows e =
      let (gpu, e_gpu, rest) = >>=-eq-ok (section "gpu" it) _ e in
      let (n, e_n, rest) = >>=-eq-ok (to_int builtins _) _ rest in
      skip_if-All _ _ _ rows rest (λ some_gpus kept.
        let (shared, e_shared, listed) = >>=-eq-ok (instance_of builtins n gpu it) _ kept in
        All-imp (IsLeaseRow now n it) _
          (λ row lease_row. (gpu, n, e_gpu, e_n, some_gpus, lease_row)) rows
          (collect-All _ (lease_rows builtins now shared it) leases
            (λ i (lease_type, key) lease_rows at e_rows.
              lease_rows-IsLeaseRow now n shared it lease_type key lease_rows
                (instance_of-n_gpus n gpu it shared e_shared)
                (All-get_elem? IsLease leases i (lease_type, key) leases-IsLease at) e_rows)
            rows listed))

  -- Each row of the parsed catalogue is of a listed instance type with some number `n` of GPUs above zero,
  -- on demand priced by `price_per_hour` or spot priced by `spot_price`: that field is a number that is
  -- not at or below zero (a NaN passes), and the row's price is the `n`th part of it.
  pub parse_datacrunch_lem :
      (instance_types : List (Json F)) (now : ℕ) (rows : List (VenueRow F))
      → parse_datacrunch builtins instance_types now ≡ ok rows
      → All (IsListed (IsDatacrunchRow now) instance_types) rows
  unfolding parse_datacrunch
  parse_datacrunch_lem instance_types now =
      collect-fields-All (IsDatacrunchRow now) (instance_rows builtins now) instance_types
        (instance_rows-IsDatacrunchRow now)
