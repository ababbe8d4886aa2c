-- ===== src/Ingestion/Venues/Cudo.antt =====
-- core/ingestion/providers/cudo.py
use Prim.Native.String.{String}
use package.text.Mathlib.Text.{◌==◌ as str_eq}
use mathlib.Core.Path.{subst}
use compute_quant_lab.Prelude.{
  sym, All, false, refl, inl, arith, ◌≡◌, ℕ, Option, none, some, List, ◌||◌, if◌then◌else◌,
}
use compute_quant_lab.Prelude.Float.{Float}
use compute_quant_lab.Prelude.Int.{pos}
use compute_quant_lab.Prelude.Result.{ok_inj, >>=-eq-ok, Result, ok, ◌>>=◌}
use compute_quant_lab.Ingestion.Json.{
  Json, object, Fields, fields, int, text, array, nil, Builtins, get, get_or, or_else, iterate,
  to_float, to_int, is_null, is_nonpositive,
}
use compute_quant_lab.Ingestion.Venues.GpuModel.{normalize_gpu_model}
use compute_quant_lab.Ingestion.Venues.Offers.{
  IsListed, IsFrom, skip_if-All, need-All, append_row-All, collect-fields-All, VenueRow, Web,
  bearer, payload_of, present, shown, collect, skip_if, need, append_row, caught,
}

module _ {F : Type 0} ⦃numbers : Float F⦄ (builtins : Builtins F) where
  unfoldable pub price_value : Json F → Option (Option F)
  price_value (object price_hr) =
      if is_null (get "value" price_hr)
      then none
      else caught (to_float builtins (get "value" price_hr))
  price_value _ = none

  unfoldable pub cudo_row : ℕ → String → Option F → Fields F → Result (VenueRow F)
  cudo_row snapshotted_at gpu_model price mt = do
    gpu_memory_gb ← present (to_float builtins) (get "gpuMemoryGib" mt)
    availability ← to_int builtins (or_else (get_or "totalGpuFree" (int (pos 0)) mt) (int (pos 0)))
    ok (record {
      snapshotted_at = snapshotted_at;
      source = "cudo";
      gpu_model = normalize_gpu_model builtins.upper gpu_model;
      price_usd_per_hour = price;
      lease_type = "on_demand";
      availability = availability;
      region = shown builtins (get "dataCenterId" mt);
      gpu_memory_gb = gpu_memory_gb;
      vcpu = none;
      ram_gb = none;
      disk_gb = none;
      provider_detail = none;
      simulated = false;
    })

  unfoldable pub cudo_rows : ℕ → Fields F → Result (List (VenueRow F))
  unfolding price_value cudo_row
  cudo_rows snapshotted_at mt =
      let gpu_model = builtins.str (or_else (get_or "gpuModel" (text "") mt) (text "")) in
      need (price_value (get "gpuPriceHr" mt)) (λ price.
        skip_if (str_eq gpu_model "" || is_nonpositive price)
          (append_row (cudo_row snapshotted_at gpu_model price mt)))

  unfoldable pub parse_cudo : List (Json F) → ℕ → Result (List (VenueRow F))
  unfolding cudo_rows
  parse_cudo machine_types snapshotted_at =
      collect (λ mt. fields mt >>= cudo_rows snapshotted_at) machine_types

  unfoldable pub fetch_cudo : Web F → String → ℕ → Result (List (VenueRow F))
  unfolding parse_cudo
  fetch_cudo web api_key snapshotted_at = do
    payload ←
        payload_of (web.get "https://rest.compute.cudo.org/v1/vms/machine-types" (bearer api_key))
    answer ← fields payload
    machine_types ← iterate builtins (get_or "machineTypes" (array nil) answer)
    parse_cudo machine_types snapshotted_at

  -- The machine names its GPU and has a price that is not zero or below, which is the row's.
  abbrev pub IsCudoRow : ℕ → Fields F → VenueRow F → Type 0
  IsCudoRow now mt row =
      let gpu_model = builtins.str (or_else (get_or "gpuModel" (text "") mt) (text "")) in
      IsFrom "cudo" now row
      × (str_eq gpu_model "" ≡ false)
      × (price_value (get "gpuPriceHr" mt) ≡ some row.price_usd_per_hour)
      × (is_nonpositive row.price_usd_per_hour ≡ false)

  cudo_row_fields :
      (now : ℕ) (gpu_model : String) (price : Option F) (mt : Fields F) (row : VenueRow F)
      → cudo_row now gpu_model price mt ≡ ok row
      → IsFrom "cudo" now row × (price ≡ row.price_usd_per_hour)
  unfolding cudo_row
  cudo_row_fields now gpu_model price mt row e =
      let (mem, _, rest) = >>=-eq-ok (present (to_float builtins) _) _ e in
      let (free, _, rest) = >>=-eq-ok (to_int builtins _) _ rest in
      subst (λ row. IsFrom "cudo" now row × (price ≡ row.price_usd_per_hour)) (ok_inj rest)
        ((refl, refl, inl refl, refl), refl)

  cudo_rows-IsCudoRow :
      (now : ℕ) (mt : Fields F) (rows : List (VenueRow F))
      → cudo_rows now mt ≡ ok rows
      → All (IsCudoRow now mt) rows
  unfolding cudo_rows
  cudo_rows-IsCudoRow now mt rows e = need-All _ _ _ rows e (λ price e_price priced.
      skip_if-All _ _ _ rows priced (λ passes kept. append_row-All _ _ rows kept (λ row e_row.
        let (from, same) = cudo_row_fields now _ price mt row e_row in
        (from, ground arith, rw (sym same) e_price, rw (sym same) (ground arith)))))

  -- Each row of the parsed machine types is of a listed type that names its GPU, at that type's price
  -- value, which is a number and not at or below zero (a NaN passes).
  pub parse_cudo_lem :
      (machine_types : List (Json F)) (now : ℕ) (rows : List (VenueRow F))
      → parse_cudo machine_types now ≡ ok rows
      → All (IsListed (IsCudoRow now) machine_types) rows
  unfolding parse_cudo
  parse_cudo_lem machine_types now =
      collect-fields-All (IsCudoRow now) (cudo_rows now) machine_types (cudo_rows-IsCudoRow now)
