-- ===== src/Ingestion/Venues/Hyperstack/Pricebook.antt =====
-- core/ingestion/providers/hyperstack.py: where the price of a row comes from.
use Prim.Native.String.{String}
use package.text.Mathlib.Text.{◌==◌ as str_eq}
use mathlib.Core.Path.{subst}
use compute_quant_lab.Prelude.{
  sym, ◌∙◌, ◌≡◌, refl, ℕ, false, true, Option, none, some, List, [], ◌∷◌, if◌then◌else◌, All,
  All-imp, get_elem?, arith,
}
use compute_quant_lab.Prelude.Float.{Float, lt, nought}
use compute_quant_lab.Prelude.Int.{ℤ, pos, leb_ℤ}
use compute_quant_lab.Prelude.Result.{ok, >>=-eq-ok, ok_inj}
use compute_quant_lab.Utils.Coerce.{opt_int}
use compute_quant_lab.Ingestion.Json.{
  Json, array, object, nil, Fields, fields, fields-object, int, Builtins, get, get_or, or_else,
  iterate, to_int, as_value, truthy,
}
use compute_quant_lab.Ingestion.Venues.Offers.{
  IsListed, VenueRow, lease_of, lease_of-cases, IsFrom, collect-fields-All, skip_if-All, need-All,
  append_row-All,
}
use compute_quant_lab.Ingestion.Venues.Hyperstack.{
  stock_depth, coerce_price, price_at, index_entry, index_from, build_price_index, vram_gb,
  is_spot_type, type_of, hyperstack_row, flavor_rows, group_rows, parse_hyperstack,
}

module _ {F : Type 0} ⦃numbers : Float F⦄ (builtins : Builtins F) where
  -- The price that an entry gives to the name `name`.
  abbrev pub priced : String → Json F → Option F
  priced name (object entry) =
      if truthy (get "name" entry)
      then (if str_eq name (builtins.str (get "name" entry))
          then coerce_price builtins (get "value" entry)
          else none)
      else none
  priced name _ = none

  abbrev pub later_or : Option F → Option F → Option F
  later_or none earlier = earlier
  later_or (some price) earlier = some price

  -- The price of the last entry of the pricebook that gives one to the name.
  abbrev pub last_price : String → List (Json F) → Option F
  last_price name [] = none
  last_price name (entry ∷ pricebook) = later_or (last_price name pricebook) (priced name entry)

  price_at-index_entry :
      (name : String) (index : List (String × F)) (entry : Fields F)
      → price_at name (index_entry builtins index entry)
        ≡ later_or (priced name (object entry)) (price_at name index)
  unfolding index_entry
  price_at-index_entry name index entry = ground arith

  later_or_assoc : (a b c : Option F) → later_or a (later_or b c) ≡ later_or (later_or a b) c
  later_or_assoc none b c = refl
  later_or_assoc (some p) b c = refl

  index_from-last_price :
      (name : String) (index : List (String × F)) (pricebook : List (Json F))
      (built : List (String × F))
      → index_from builtins index pricebook ≡ ok built
      → price_at name built ≡ later_or (last_price name pricebook) (price_at name index)
  unfolding index_from
  index_from-last_price name index [] built e = rw (ok_inj e) refl
  index_from-last_price name index (v ∷ pricebook) built e =
      let (entry, e_entry, rest) = >>=-eq-ok (fields v) _ e in
      rw
        (
          index_from-last_price name (index_entry builtins index entry) pricebook built rest,
          price_at-index_entry name index entry,
          fields-object v entry e_entry,
        )
        (later_or_assoc (last_price name pricebook) (priced name (object entry))
          (price_at name index))

  -- Whatever name is asked for, the index gives the price of the last entry that has one for it.
  pub build_price_index_lem :
      (name : String) (pricebook : List (Json F)) (index : List (String × F))
      → build_price_index builtins pricebook ≡ ok index
      → price_at name index ≡ last_price name pricebook
  unfolding build_price_index
  build_price_index_lem name pricebook index e =
      index_from-last_price name [] pricebook index e ∙ later_or-none (last_price name pricebook)
    where
      later_or-none : (o : Option F) → later_or o none ≡ o
      later_or-none none = refl
      later_or-none (some p) = refl

  abbrev IsPriced : Option F → Type 0
  IsPriced o = (p : F) → o ≡ some p → lt nought p ≡ true

  coerce_price-pos : (v : Json F) → IsPriced (coerce_price builtins v)
  unfolding coerce_price
  coerce_price-pos v p e = ground arith

  priced-pos : (name : String) (v : Json F) → IsPriced (priced name v)
  priced-pos name (object entry) p e = coerce_price-pos (get "value" entry) p (ground arith)
  priced-pos name _ p e = absurd (cc)

  later_or-pos : (a b : Option F) → IsPriced a → IsPriced b → IsPriced (later_or a b)
  later_or-pos none b h k = k
  later_or-pos (some p) b h k = h

  last_price-pos :
      (name : String) (pricebook : List (Json F)) → IsPriced (last_price name pricebook)
  last_price-pos name [] = λ p e. absurd (cc)
  last_price-pos name (v ∷ pricebook) =
      later_or-pos (last_price name pricebook) (priced name v) (last_price-pos name pricebook)
        (priced-pos name v)

  -- The flavor has GPUs; the row has the price that the pricebook gives last to their type, which is
  -- above zero, and the lease that the type's suffix says.
  abbrev pub IsFlavorRow : List (Json F) → ℕ → Fields F → Fields F → VenueRow F → Type 0
  IsFlavorRow pricebook now group flavor row =
      let gpu_raw = type_of builtins group flavor in
      IsFrom "hyperstack" now row
      × (row.lease_type ≡ lease_of (is_spot_type builtins gpu_raw))
      × (n : ℤ) × (to_int builtins (or_else (get_or "gpu_count" (int (pos 0)) flavor) (int (pos 0)))
          ≡ ok n)
      × (leb_ℤ n (pos 0) ≡ false)
      × (p : F) × (last_price gpu_raw pricebook ≡ some p)
      × (lt nought p ≡ true)
      × (row.price_usd_per_hour ≡ some p)

  hyperstack_row_fields :
      (now : ℕ) (group : Fields F) (gpu_raw : String) (p : F) (flavor : Fields F) (row : VenueRow F)
      → hyperstack_row builtins now group gpu_raw p flavor ≡ ok row
      → IsFrom "hyperstack" now row
        × (row.lease_type ≡ lease_of (is_spot_type builtins gpu_raw))
        × (row.price_usd_per_hour ≡ some p)
  unfolding hyperstack_row
  hyperstack_row_fields now group gpu_raw p flavor row e =
      let spot = is_spot_type builtins gpu_raw in
      let (_, _, rest) = >>=-eq-ok (stock_depth builtins (get "stock_available" flavor)) _ e in
      let (_, _, rest) = >>=-eq-ok (vram_gb builtins gpu_raw) _ rest in
      let (_, _, rest) =
        >>=-eq-ok (opt_int builtins.convert (as_value (get "cpu" flavor))) _ rest in
      subst
        (λ row.
          IsFrom "hyperstack" now row
          × (row.lease_type ≡ lease_of spot)
          × (row.price_usd_per_hour ≡ some p))
        (ok_inj rest) ((refl, refl, lease_of-cases spot, refl), refl, refl)

  flavor_rows-IsFlavorRow :
      (pricebook : List (Json F)) (index : List (String × F)) (now : ℕ) (group flavor : Fields F)
      (rows : List (VenueRow F))
      → build_price_index builtins pricebook ≡ ok index
      → flavor_rows builtins index now group flavor ≡ ok rows
      → All (IsFlavorRow pricebook now group flavor) rows
  unfolding flavor_rows
  flavor_rows-IsFlavorRow pricebook index now group flavor rows built e =
      let gpu_raw = type_of builtins group flavor in
      let (n, e_n, rest) = >>=-eq-ok (to_int builtins _) _ e in
      skip_if-All _ _ _ rows rest (λ some_gpus kept. need-All _ _ _ rows kept (λ p e_p priced.
        append_row-All _ _ rows priced (λ row e_row.
          let (from, lease, price) = hyperstack_row_fields now group gpu_raw p flavor row e_row in
          let last : last_price gpu_raw pricebook ≡ some p =
            sym (build_price_index_lem gpu_raw pricebook index built) ∙ e_p in
          (
            from,
            lease,
            n,
            e_n,
            some_gpus,
            p,
            last,
            last_price-pos gpu_raw pricebook p last,
            price,
          ))))

  -- The row is of a flavor that some group lists.
  abbrev pub IsHyperstackRow : List (Json F) → ℕ → Fields F → VenueRow F → Type 0
  IsHyperstackRow pricebook now group row =
      (flavors : List (Json F)) × (j : ℕ) × (flavor : Fields F) × (iterate builtins
          (get_or "flavors" (array nil) group)
        ≡ ok flavors)
      × (get_elem? flavors j ≡ some (object flavor))
      × IsFlavorRow pricebook now group flavor row

  group_rows-IsHyperstackRow :
      (pricebook : List (Json F)) (index : List (String × F)) (now : ℕ) (group : Fields F)
      (rows : List (VenueRow F))
      → build_price_index builtins pricebook ≡ ok index
      → group_rows builtins index now group ≡ ok rows
      → All (IsHyperstackRow pricebook now group) rows
  unfolding group_rows
  group_rows-IsHyperstackRow pricebook index now group rows built e =
      let (flavors, e_flavors, rest) = >>=-eq-ok (iterate builtins _) _ e in
      All-imp _ _ (λ row (j, flavor, at, p). (flavors, j, flavor, e_flavors, at, p)) rows
        (collect-fields-All (IsFlavorRow pricebook now group) (flavor_rows builtins index now group)
          flavors
          (λ flavor rows. flavor_rows-IsFlavorRow pricebook index now group flavor rows built) rows
          rest)

  -- Each row is of a flavor with GPUs that a listed group lists, at the price that the last entry of the
  -- pricebook with a price for the flavor's type of GPU gives, which is above zero and is not divided; it
  -- is spot when that type ends in `-spot`, and else on demand.
  pub parse_hyperstack_lem :
      (flavor_groups pricebook : List (Json F)) (now : ℕ) (rows : List (VenueRow F))
      → parse_hyperstack builtins flavor_groups pricebook now ≡ ok rows
      → All (IsListed (IsHyperstackRow pricebook now) flavor_groups) rows
  unfolding parse_hyperstack
  parse_hyperstack_lem flavor_groups pricebook now rows e =
      let (index, built, rest) = >>=-eq-ok (build_price_index builtins pricebook) _ e in
      collect-fields-All (IsHyperstackRow pricebook now) (group_rows builtins index now)
        flavor_groups
        (λ group rows. group_rows-IsHyperstackRow pricebook index now group rows built) rows rest
