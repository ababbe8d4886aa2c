-- ===== src/Tests/Venues.antt =====
-- Runs of the venues' parsers on small payloads, and the witnesses of their theorems.
use Prim.Native.String.{String}
use package.text.Mathlib.Text.{◌==◌ as str_eq}
use compute_quant_lab.Prelude.{
  ◌≡◌, refl, ℕ, true, false, Option, none, some, List, [], ◌∷◌, if◌then◌else◌, All, get_elem?, keep,
  every,
}
use compute_quant_lab.Prelude.Float.{int_float, int-IsOrdered}
use compute_quant_lab.Prelude.Int.{ℤ, pos, quotient}
use compute_quant_lab.Prelude.Result.{ok}
use compute_quant_lab.Utils.Net.{returned, raised, timeout, call_with_retry}
use compute_quant_lab.Utils.Coerce.{opt_int, opt_float}
use compute_quant_lab.Ingestion.Json.{
  Json, Fields, bool, int, float, text, array, object, nil, cons, end, field, Builtins, to_float,
  to_int, iterate,
}
use compute_quant_lab.Ingestion.Providers.{
  GpuPriceProvider, has_key, keyed_fetch, Environ, fetch_all,
}
use compute_quant_lab.Ingestion.Venues.Offers.{
  IsListed, VenueRow, Web, collect, skip_if, need, append_row, given, present, megabytes,
  payload_of, section, lease_of,
}
use compute_quant_lab.Ingestion.Venues.GpuModel.{compact, is_in, normalize_gpu_model}
use compute_quant_lab.Ingestion.Venues.GpuModel.Families.{
  recognised, codes, is_capital_or_digit, IsFamilyOf, normalize_gpu_model_lem,
}
use compute_quant_lab.Ingestion.Venues.Vastai.{
  fetch_vastai, IsVastaiRow, parse_vastai_offers, parse_vastai_offers_lem,
}
use compute_quant_lab.Ingestion.Venues.Runpod.{
  IsRunpodRow, parse_runpod_gpu_types, parse_runpod_gpu_types_lem,
}
use compute_quant_lab.Ingestion.Venues.Cudo.{fetch_cudo}
use compute_quant_lab.Ingestion.Venues.Datacrunch.{parse_datacrunch}
use compute_quant_lab.Ingestion.Venues.Datacrunch.Catalogue.{IsDatacrunchRow, parse_datacrunch_lem}
use compute_quant_lab.Ingestion.Venues.Hyperstack.{
  stock_depth, vram_gb, gpu_for_model, is_spot_type, take_text, parse_hyperstack,
}
use compute_quant_lab.Ingestion.Venues.Hyperstack.Pricebook.{IsHyperstackRow, parse_hyperstack_lem}
use compute_quant_lab.Ingestion.Venues.Registry.{registered}
use compute_quant_lab.Ingestion.Venues.Registry.Labels.{IsObserved, fetch_all-registered}

abbrev of_digits : String → Option (Option ℤ)
of_digits s =
    if str_eq s "6"
    then some (some (pos 6))
    else if str_eq s "80"
    then some (some (pos 80))
    else none

abbrev str : Json ℤ → String
str (text s) = s
str _ = ""

abbrev whole : Builtins ℤ
whole = record {
  convert = record { of_int = λ i. i; of_text = of_digits; truncate = λ i. i; show = λ v. "" };
  int_of_text = λ s. none;
  float_of_decimal = of_digits;
  str = str;
  upper = λ s. s;
  lower = λ s. s;
  chars = λ s. [];
}

abbrev one : Json ℤ → List (Json ℤ)
one v = v ∷ []

abbrev quoted : String → String → ℤ → String → Option ℤ → Option (Option ℤ) → VenueRow ℤ
quoted source gpu_model price lease_type vcpu gpu_memory_gb = record {
  snapshotted_at = 9;
  source = source;
  gpu_model = gpu_model;
  price_usd_per_hour = some price;
  lease_type = lease_type;
  availability = pos 0;
  region = none;
  gpu_memory_gb = gpu_memory_gb;
  vcpu = vcpu;
  ram_gb = none;
  disk_gb = none;
  provider_detail = none;
  simulated = false;
}

-- Names with other marks, and a card that is taken for one of another family.
compact_run : normalize_gpu_model (λ s. s) "NVIDIA A100-SXM4-80GB" ≡ "A100"
unfolding normalize_gpu_model compact is_in
compact_run = refl

workstation_run : normalize_gpu_model (λ s. s) "RTX A4000" ≡ "A40"
unfolding normalize_gpu_model compact is_in
workstation_run = refl

normalize_gpu_model_lem_example :
    (name : String) × (codes name ≡ keep is_capital_or_digit (codes "NVIDIA L40S-48GB"))
    × IsFamilyOf recognised name (normalize_gpu_model (λ s. s) "NVIDIA L40S-48GB")
normalize_gpu_model_lem_example = normalize_gpu_model_lem (λ s. s) "NVIDIA L40S-48GB"

-- Four GPUs for 8, as an integer; an offer that is not rentable.
abbrev rented : Fields ℤ
rented = field "rentable" (bool true) (
    field "num_gpus" (int (pos 4))
      (field "dph_total" (float (some (pos 8))) (field "gpu_name" (text "H100 SXM") end)))

abbrev vast_offers : List (Json ℤ)
vast_offers = object (field "rentable" (bool false) end) ∷ object rented ∷ []

vast_run :
    parse_vastai_offers whole vast_offers 9
    ≡ ok (
        record (quoted "vastai" "H100" (pos 2) "on_demand" none none) { availability = pos 4 } ∷ [])
unfolding parse_vastai_offers collect skip_if append_row given megabytes to_float to_int
    normalize_gpu_model compact is_in quotient
vast_run = refl

parse_vastai_offers_lem_example :
    All
      (IsListed (IsVastaiRow whole 9) vast_offers)
      (record (quoted "vastai" "H100" (pos 2) "on_demand" none none) { availability = pos 4 } ∷ [])
parse_vastai_offers_lem_example = parse_vastai_offers_lem whole vast_offers 9 _ vast_run

-- A price of zero is no quote.
abbrev gpu_types : List (Json ℤ)
gpu_types =
    object (field "securePrice" (int (pos 3)) (field "communityPrice" (int (pos 0)) end))
    ∷ object (
        field "securePrice" (int (pos 3))
          (field "communityPrice" (int (pos 2)) (field "displayName" (text "L40S") end)))
    ∷ []

abbrev runpod_quotes : List (VenueRow ℤ)
runpod_quotes =
    record (quoted "runpod" "" (pos 3) "on_demand" none none) { availability = pos 1 }
    ∷ record (quoted "runpod" "L40S" (pos 2) "on_demand" none none) { availability = pos 1 }
    ∷ []

runpod_run : parse_runpod_gpu_types whole gpu_types 9 ≡ ok runpod_quotes
unfolding parse_runpod_gpu_types collect skip_if append_row present to_float normalize_gpu_model
    compact is_in
runpod_run = refl

parse_runpod_gpu_types_lem_example : All (IsListed (IsRunpodRow whole 9) gpu_types) runpod_quotes
parse_runpod_gpu_types_lem_example =
    parse_runpod_gpu_types_lem whole int-IsOrdered gpu_types 9 runpod_quotes runpod_run

-- A machine of 2 GPUs with a spot price as a text; one whose price is a NaN gets a row.
abbrev instance_types : List (Json ℤ)
instance_types =
    object (
      field "gpu"
        (object (field "number_of_gpus" (int (pos 2)) (field "description" (text "1x V100") end)))
        (field "price_per_hour" (int (pos 8)) (field "spot_price" (text "6") end)))
    ∷ object (
        field "gpu" (object (field "number_of_gpus" (int (pos 1)) end))
          (field "price_per_hour" (float none) end))
    ∷ []

abbrev catalogue : List (VenueRow ℤ)
catalogue =
    quoted "datacrunch" "V100" (pos 4) "on_demand" none none
    ∷ quoted "datacrunch" "V100" (pos 3) "spot" none none
    ∷ record (quoted "datacrunch" "" (pos 0) "on_demand" none none) { price_usd_per_hour = none }
    ∷ []

datacrunch_run : parse_datacrunch whole instance_types 9 ≡ ok catalogue
unfolding parse_datacrunch collect skip_if append_row need section present to_float to_int
    normalize_gpu_model compact is_in quotient
datacrunch_run = refl

parse_datacrunch_lem_example : All (IsListed (IsDatacrunchRow whole 9) instance_types) catalogue
parse_datacrunch_lem_example = parse_datacrunch_lem whole instance_types 9 catalogue datacrunch_run

-- The last price of a name counts; a flavor whose type has no price is left out.
abbrev pricebook : List (Json ℤ)
pricebook =
    object (field "name" (text "H100-80G-spot") (field "value" (text "80") end))
    ∷ object (field "name" (text "vCPU") (field "value" (text "") end))
    ∷ object (field "name" (text "H100-80G-spot") (field "value" (text "6") end))
    ∷ []

abbrev flavor_groups : List (Json ℤ)
flavor_groups =
    object (
      field "gpu" (text "H100-80G-spot") (
        field "flavors"
          (array (
            cons (object (field "gpu_count" (int (pos 8)) (field "cpu" (int (pos 3)) end)))
              (cons (object (field "gpu_count" (int (pos 1)) (field "gpu" (text "L40") end))) nil)))
          end))
    ∷ []

abbrev flavor_quotes : List (VenueRow ℤ)
flavor_quotes = quoted "hyperstack" "H100" (pos 6) "spot" (some (pos 3)) (some (some (pos 80))) ∷ []

hyperstack_run : parse_hyperstack whole flavor_groups pricebook 9 ≡ ok flavor_quotes
unfolding parse_hyperstack collect skip_if append_row need iterate to_int stock_depth vram_gb
    gpu_for_model is_spot_type take_text lease_of opt_int opt_float normalize_gpu_model compact
    is_in
hyperstack_run = refl

parse_hyperstack_lem_example :
    All (IsListed (IsHyperstackRow whole pricebook 9) flavor_groups) flavor_quotes
parse_hyperstack_lem_example =
    parse_hyperstack_lem whole flavor_groups pricebook 9 flavor_quotes hyperstack_run

-- One venue answers, one times out, and the rest have no key.
abbrev env : Environ
env key =
    if str_eq key "VASTAI_API_KEY"
    then some "k"
    else if str_eq key "CUDO_API_KEY"
    then some "k"
    else none

abbrev web : Web ℤ
web = record {
  get = λ url header attempt.
      if str_eq url "https://console.vast.ai/api/v0/bundles/"
      then returned (ok (object (field "offers" (array (cons (object rented) nil)) end)))
      else raised timeout;
  post = λ url params body attempt. raised timeout;
}

fetch_all_run :
    fetch_all env 9 (registered whole web)
    ≡ record (quoted "vastai" "H100" (pos 2) "on_demand" none none) { availability = pos 4 } ∷ []
unfolding fetch_all registered keyed_fetch fetch_vastai fetch_cudo payload_of call_with_retry
    collect skip_if append_row given megabytes to_float to_int iterate normalize_gpu_model compact
    is_in quotient
fetch_all_run = refl

fetch_all-registered_example :
    All
      (λ row.
        (i : ℕ) × (provider : GpuPriceProvider (Option ℤ)) × (get_elem? (registered whole web) i
          ≡ some provider)
        × (every (has_key env) provider.required_env ≡ true)
        × IsObserved provider.name 9 row)
      (fetch_all env 9 (registered whole web))
fetch_all-registered_example = fetch_all-registered whole web int-IsOrdered env 9
