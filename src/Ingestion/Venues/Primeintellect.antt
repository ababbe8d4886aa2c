-- ===== src/Ingestion/Venues/Primeintellect.antt =====
-- core/ingestion/providers/primeintellect.py
use Prim.Native.String.{String, ◌++◌ as append}
use mathlib.Core.Path.{subst}
use compute_quant_lab.Prelude.{
  All, false, refl, ◌≡◌, ℕ, Option, none, some, List, [], if◌then◌else◌, keep, join, map,
}
use compute_quant_lab.Prelude.Float.{Float}
use compute_quant_lab.Prelude.Int.{ℤ, pos, leb_ℤ}
use compute_quant_lab.Prelude.Result.{ok_inj, >>=-eq-ok, Result, ok, ◌>>=◌}
use compute_quant_lab.Ingestion.Json.{
  Json, array, object, end, Fields, fields, int, text, Builtins, get, get_or, or_else, to_float,
  to_int, truthy, number, is_nonpositive, is_dict, elements, values,
}
use compute_quant_lab.Ingestion.Venues.GpuModel.{normalize_gpu_model}
use compute_quant_lab.Ingestion.Venues.Offers.{
  IsListed, lease_of, lease_of-cases, IsFrom, skip_if-All, need-All, append_row-All,
  collect-fields-All, VenueRow, Web, bearer, payload_of, present, over, shown, collect, skip_if,
  need, append_row,
}

module _ {F : Type 0} ⦃numbers : Float F⦄ (builtins : Builtins F) where
  -- The label of a row, by the provider that the offer names.
  unfoldable pub source_of : Json F → String
  source_of provider =
      if truthy provider then append "primeintellect:" (builtins.str provider) else "primeintellect"

  unfoldable pub prime_row : ℕ → ℤ → Option F → Fields F → Result (VenueRow F)
  unfolding source_of
  prime_row snapshotted_at gpu_count on_demand item = do
    gpu_memory_gb ← present (to_float builtins) (get "gpuMemory" item)
    ok (record {
      snapshotted_at = snapshotted_at;
      source = source_of (get "provider" item);
      gpu_model =
          normalize_gpu_model builtins.upper (builtins.str (get_or "gpuType" (text "") item));
      price_usd_per_hour = over (builtins.convert.of_int gpu_count) on_demand;
      lease_type = lease_of (truthy (get "isSpot" item));
      availability = gpu_count;
      region = shown builtins (or_else (get "dataCenter" item) (get "region" item));
      gpu_memory_gb = gpu_memory_gb;
      vcpu = none;
      ram_gb = none;
      disk_gb = none;
      provider_detail = shown builtins (get "provider" item);
      simulated = false;
    })

  unfoldable pub prime_rows : ℕ → Fields F → Result (List (VenueRow F))
  unfolding prime_row
  prime_rows snapshotted_at item = do
    gpu_count ← to_int builtins (or_else (get_or "gpuCount" (int (pos 0)) item) (int (pos 0)))
    skip_if (leb_ℤ gpu_count (pos 0)) (do
      prices ← fields (get_or "prices" (object end) item)
      need (number builtins (get "onDemand" prices)) (λ on_demand.
          skip_if (is_nonpositive on_demand)
            (append_row (prime_row snapshotted_at gpu_count on_demand item))))

  unfoldable pub parse_primeintellect : List (Json F) → ℕ → Result (List (VenueRow F))
  unfolding prime_rows
  parse_primeintellect items snapshotted_at =
      collect (λ item. fields item >>= prime_rows snapshotted_at) items

  -- The offers that a value of the answer lists.
  abbrev pub offers_in : Json F → List (Json F)
  offers_in (array offers) = keep is_dict (elements offers)
  offers_in _ = []

  unfoldable pub fetch_primeintellect : Web F → String → ℕ → Result (List (VenueRow F))
  unfolding parse_primeintellect
  fetch_primeintellect web api_key snapshotted_at = do
    payload ←
        payload_of (web.get "https://api.primeintellect.ai/api/v1/availability" (bearer api_key))
    answer ← fields payload
    parse_primeintellect (join (map offers_in (values answer))) snapshotted_at

  -- The offer has GPUs and a price that is not zero or below; the row has its `n`th, under the label of
  -- the provider that the offer names.
  abbrev pub IsPrimeRow : ℕ → Fields F → VenueRow F → Type 0
  IsPrimeRow now item row =
      IsFrom (source_of (get "provider" item)) now row
      × (row.provider_detail ≡ shown builtins (get "provider" item))
      × (leb_ℤ row.availability (pos 0) ≡ false)
      × (prices : Fields F) × (on_demand : Option F) × (fields (get_or "prices" (object end) item)
          ≡ ok prices)
      × (number builtins (get "onDemand" prices) ≡ some on_demand)
      × (is_nonpositive on_demand ≡ false)
      × (row.price_usd_per_hour ≡ over (builtins.convert.of_int row.availability) on_demand)

  prime_row_fields :
      (now : ℕ) (n : ℤ) (on_demand : Option F) (item : Fields F) (row : VenueRow F)
      → prime_row now n on_demand item ≡ ok row
      → IsFrom (source_of (get "provider" item)) now row
        × (row.provider_detail ≡ shown builtins (get "provider" item))
        × (row.availability ≡ n)
        × (row.price_usd_per_hour ≡ over (builtins.convert.of_int n) on_demand)
  unfolding prime_row
  prime_row_fields now n on_demand item row e =
      let (mem, _, rest) = >>=-eq-ok (present (to_float builtins) _) _ e in
      subst
        (λ row.
          IsFrom (source_of (get "provider" item)) now row
          × (row.provider_detail ≡ shown builtins (get "provider" item))
          × (row.availability ≡ n)
          × (row.price_usd_per_hour ≡ over (builtins.convert.of_int n) on_demand))
        (ok_inj rest)
        ((refl, refl, lease_of-cases (truthy (get "isSpot" item)), refl), refl, refl, refl)

  prime_rows-IsPrimeRow :
      (now : ℕ) (item : Fields F) (rows : List (VenueRow F))
      → prime_rows now item ≡ ok rows
      → All (IsPrimeRow now item) rows
  unfolding prime_rows
  prime_rows-IsPrimeRow now item rows e =
      let (n, e_n, rest) = >>=-eq-ok (to_int builtins _) _ e in
      skip_if-All _ _ _ rows rest (λ some_gpus kept.
        let (prices, e_prices, rest) = >>=-eq-ok (fields _) _ kept in
        need-All _ _ _ rows rest (λ on_demand e_price priced.
          skip_if-All _ _ _ rows priced (λ passes kept. append_row-All _ _ rows kept (λ row e_row.
            let (from, detail, same, price) = prime_row_fields now n on_demand item row e_row in
            (
              from,
              detail,
              rw same some_gpus,
              prices,
              on_demand,
              e_prices,
              e_price,
              passes,
              rw same price,
            )))))

  -- Each row of the parsed items is of a listed item with GPUs and with an on-demand price that is a
  -- number and not at or below zero (a NaN passes); the row's price is that price by the number of GPUs,
  -- which is its availability, and its label is qualified by the provider that the item names, if any.
  pub parse_primeintellect_lem :
      (items : List (Json F)) (now : ℕ) (rows : List (VenueRow F))
      → parse_primeintellect items now ≡ ok rows
      → All (IsListed (IsPrimeRow now) items) rows
  unfolding parse_primeintellect
  parse_primeintellect_lem items now =
      collect-fields-All (IsPrimeRow now) (prime_rows now) items (prime_rows-IsPrimeRow now)
