-- ===== src/Ingestion/Venues/Datacrunch.antt =====
-- core/ingestion/providers/datacrunch.py
pub mod Catalogue
use Prim.Native.String.{String}
use mathlib.Core.Path.{subst}
use compute_quant_lab.Prelude.{
  sym, All-imp, ◌⊎◌, ap, All-get_elem?, All, false, refl, inl, inr, arith, ◌≡◌, ℕ, Option, none,
  some, List, [], ◌∷◌,
}
use compute_quant_lab.Prelude.Float.{Float}
use compute_quant_lab.Prelude.Int.{ℤ, pos, leb_ℤ}
use compute_quant_lab.Prelude.Result.{
  ok_inj, >>=-eq-ok, Result, ok, ◌>>=◌, or_raise, key_error, type_error, err,
}
use compute_quant_lab.Ingestion.Json.{
  Json, object, Fields, fields, int, text, Builtins, get, get_or, or_else, iterate, to_float,
  to_int, is_nonpositive, find_field,
}
use compute_quant_lab.Ingestion.Venues.GpuModel.{normalize_gpu_model}
use compute_quant_lab.Ingestion.Venues.Offers.{
  IsListed, IsFrom, skip_if-All, need-All, append_row-All, collect-All, collect-fields-All,
  VenueRow, Web, bearer, payload_of, present, over, collect, skip_if, need, append_row, section,
  caught,
}

-- The two leases, each with the field of its price.
abbrev pub leases : List (String × String)
leases = ("on_demand", "price_per_hour") ∷ ("spot", "spot_price") ∷ []

-- What the rows of an instance type share.
pub record Instance (F : Type 0) : Type 0 where
  pub n_gpus : ℤ
  pub model : String
  pub gpu_memory_gb : Option (Option F)
  pub vcpu : Option ℤ
  pub ram_gb : Option (Option F)
  pub disk_gb : Option (Option F)

module _ {F : Type 0} where
  -- `v["access_token"]`
  abbrev pub access_token : Json F → Result (Json F)
  access_token (object answer) = or_raise (find_field "access_token" answer) key_error
  access_token _ = err type_error

module _ {F : Type 0} ⦃numbers : Float F⦄ (builtins : Builtins F) where
  abbrev pub lease_row : ℕ → Instance F → String → Option F → VenueRow F
  lease_row snapshotted_at shared lease_type price = record {
    snapshotted_at = snapshotted_at;
    source = "datacrunch";
    gpu_model = shared.model;
    price_usd_per_hour = over (builtins.convert.of_int shared.n_gpus) price;
    lease_type = lease_type;
    availability = pos 0;
    region = none;
    gpu_memory_gb = shared.gpu_memory_gb;
    vcpu = shared.vcpu;
    ram_gb = shared.ram_gb;
    disk_gb = shared.disk_gb;
    provider_detail = none;
    simulated = false;
  }

  -- One turn of the loop over the leases.
  unfoldable pub lease_rows :
      ℕ → Instance F → Fields F → String × String → Result (List (VenueRow F))
  lease_rows snapshotted_at shared it (lease_type, key) =
      need (caught (to_float builtins (get key it))) (λ price.
        skip_if (is_nonpositive price)
          (append_row (ok (lease_row snapshotted_at shared lease_type price))))

  unfoldable pub instance_of : ℤ → Fields F → Fields F → Result (Instance F)
  unfolding section
  instance_of n_gpus gpu it = do
    memory ← section "gpu_memory" it
    gpu_memory_gb ← present (to_float builtins) (get "size_in_gigabytes" memory)
    cpu ← section "cpu" it
    vcpu ← present (to_int builtins) (get "number_of_cores" cpu)
    ram ← section "memory" it
    ram_gb ← present (to_float builtins) (get "size_in_gigabytes" ram)
    storage ← section "storage" it
    disk_gb ← present (to_float builtins) (get "size_in_gigabytes" storage)
    ok (record {
      n_gpus = n_gpus;
      model =
          normalize_gpu_model builtins.upper (builtins.str (get_or "description" (text "") gpu));
      gpu_memory_gb = gpu_memory_gb;
      vcpu = vcpu;
      ram_gb = ram_gb;
      disk_gb = disk_gb;
    })

  -- One turn of the loop over the instance types.
  unfoldable pub instance_rows : ℕ → Fields F → Result (List (VenueRow F))
  unfolding instance_of lease_rows
  instance_rows snapshotted_at it = do
    gpu ← section "gpu" it
    n_gpus ← to_int builtins (or_else (get_or "number_of_gpus" (int (pos 0)) gpu) (int (pos 0)))
    skip_if (leb_ℤ n_gpus (pos 0)) (do
      shared ← instance_of n_gpus gpu it
      collect (lease_rows snapshotted_at shared it) leases)

  unfoldable pub parse_datacrunch : List (Json F) → ℕ → Result (List (VenueRow F))
  unfolding instance_rows
  parse_datacrunch instance_types snapshotted_at =
      collect (λ it. fields it >>= instance_rows snapshotted_at) instance_types

  unfoldable pub fetch_datacrunch : Web F → String → String → ℕ → Result (List (VenueRow F))
  unfolding parse_datacrunch
  fetch_datacrunch web client_id client_secret snapshotted_at = do
    token ← payload_of (
        web.post "https://api.datacrunch.io/v1/oauth2/token" [] (
          ("grant_type", "client_credentials")
          ∷ ("client_id", client_id)
          ∷ ("client_secret", client_secret)
          ∷ []))
    granted ← access_token token
    payload ←
        payload_of
          (web.get "https://api.datacrunch.io/v1/instance-types" (bearer (builtins.str granted)))
    instance_types ← iterate builtins payload
    parse_datacrunch instance_types snapshotted_at
