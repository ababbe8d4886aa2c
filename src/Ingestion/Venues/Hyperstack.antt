-- ===== src/Ingestion/Venues/Hyperstack.antt =====
-- core/ingestion/providers/hyperstack.py: the flavors joined with the pricebook. The names of GPUs are
-- ASCII, as far as the digits and the blanks of `_VRAM_RE` go.
pub mod Pricebook
use Prim.Native.Char.{Char, code}
use Prim.Native.String.{String, count, ◌++◌ as append}
use package.text.Mathlib.Text.{◌==◌ as str_eq}
use compute_quant_lab.Prelude.{
  Bool, true, false, ℕ, zero, suc, ◌-◌, Option, none, some, List, [], ◌∷◌, if◌then◌else◌, ◌||◌,
  ◌&&◌, eqb, leb, not,
}
use compute_quant_lab.Prelude.Float.{Float, lt, nought}
use compute_quant_lab.Prelude.Int.{ℤ, pos, leb_ℤ}
use compute_quant_lab.Prelude.Result.{Result, ok, err, ◌>>=◌, or_raise, value_error}
use compute_quant_lab.Utils.Coerce.{opt_float, opt_int}
use compute_quant_lab.Ingestion.Json.{
  Json, bool, array, object, nil, Fields, fields, int, float, text, Builtins, get, get_or, or_else,
  iterate, to_int, as_value, truthy, elements,
}
use compute_quant_lab.Ingestion.Venues.GpuModel.{normalize_gpu_model}
use compute_quant_lab.Ingestion.Venues.Offers.{
  lease_of, VenueRow, Web, payload_of, stored_text, collect, skip_if, need, append_row,
}

-- `s.endswith(suffix)`
unfoldable pub ends_with : String → String → Bool
ends_with suffix String.[] = str_eq suffix String.[]
ends_with suffix (String.◌∷◌ c s) =
    let later = ends_with suffix s in if str_eq suffix (String.◌∷◌ c s) then true else later

-- `s[:n]`
unfoldable pub take_text : ℕ → String → String
take_text zero s = String.[]
take_text (suc n) String.[] = String.[]
take_text (suc n) (String.◌∷◌ c s) = String.◌∷◌ c (take_text n s)

abbrev pub is_digit : Char → Bool
is_digit c = leb b'0' (code c) && leb (code c) b'9'

-- `\s`: the blank, and tab to carriage return.
abbrev pub is_blank : Char → Bool
is_blank c = eqb (code c) b' ' || (leb 9 (code c) && leb (code c) 13)

-- `\s*G`, in either case
unfoldable pub g_follows : String → Bool
g_follows String.[] = false
g_follows (String.◌∷◌ c s) =
    let later = g_follows s in
    if is_blank c then later else (eqb (code c) b'G' || eqb (code c) b'g')

-- `_VRAM_RE.search`, after the digits `run`: the first run of digits that a G follows.
unfoldable pub vram_digits : String → String → Option String
unfolding g_follows
vram_digits run String.[] = none
vram_digits run (String.◌∷◌ c s) =
    let longer = vram_digits (append run (String.◌∷◌ c String.[])) s in
    let fresh = vram_digits "" s in
    if is_digit c
    then longer
    else if not (str_eq run "") && g_follows (String.◌∷◌ c s)
    then some run
    else fresh

module _ {F : Type 0} where
  -- `index.get(name)`, where the last entry of a name stands first.
  abbrev pub price_at : String → List (String × F) → Option F
  price_at name [] = none
  price_at name ((k, price) ∷ index) = if str_eq name k then some price else price_at name index

  -- A value if it is a list, and else no elements.
  abbrev pub listed : Json F → List (Json F)
  listed (array vs) = elements vs
  listed _ = []

  abbrev pub flavor_groups_of : Json F → List (Json F)
  flavor_groups_of (object answer) = listed (get_or "data" (array nil) answer)
  flavor_groups_of _ = []

module _ {F : Type 0} ⦃numbers : Float F⦄ where
  abbrev pub pricebook_of : Json F → List (Json F)
  pricebook_of (array entries) = elements entries
  pricebook_of (object answer) =
      listed (or_else (or_else (get "data" answer) (get "pricebook" answer)) (array nil))
  pricebook_of _ = []

module _ {F : Type 0} ⦃numbers : Float F⦄ (builtins : Builtins F) where
  -- `_availability`
  unfoldable pub stock_depth : Json F → Result ℤ
  stock_depth (bool true) = ok (pos 1)
  stock_depth (bool false) = ok (pos 0)
  stock_depth (int i) = ok i
  stock_depth (float x) = to_int builtins (float x)
  stock_depth _ = ok (pos 0)

  unfoldable pub coerce_price : Json F → Option F
  coerce_price value = elim (builtins.float_of_decimal (builtins.str value)) [
    | none ↦ none
    | some none ↦ none
    | some (some price) ↦ if lt nought price then some price else none
  ]

  -- `index[str(name)] = price`, for an entry with a name and a price
  unfoldable pub index_entry : List (String × F) → Fields F → List (String × F)
  unfolding coerce_price
  index_entry index entry =
      let name = get "name" entry in
      elim (coerce_price (get "value" entry)) [
        | none ↦ index
        | some price ↦ if truthy name then (builtins.str name, price) ∷ index else index
      ]

  -- The loop over the pricebook, with the index built so far.
  unfoldable pub index_from : List (String × F) → List (Json F) → Result (List (String × F))
  unfolding index_entry
  index_from index [] = ok index
  index_from index (v ∷ pricebook) = do
    entry ← fields v
    index_from (index_entry index entry) pricebook

  unfoldable pub build_price_index : List (Json F) → Result (List (String × F))
  unfolding index_from
  build_price_index pricebook = index_from [] pricebook

  -- `_vram_gb`
  unfoldable pub vram_gb : String → Result (Option (Option F))
  unfolding vram_digits
  vram_gb gpu_raw = elim (vram_digits "" gpu_raw) [
    | none ↦ ok none
    | some digits ↦ or_raise (builtins.convert.of_text digits) value_error >>= λ gb. ok (some gb)
  ]

  -- Whether the type of a GPU is of the spot market, and the type without that suffix.
  unfoldable pub is_spot_type : String → Bool
  unfolding ends_with
  is_spot_type gpu_raw = ends_with "-spot" (builtins.lower gpu_raw)

  unfoldable pub gpu_for_model : String → String
  gpu_for_model gpu_raw =
      if is_spot_type gpu_raw then take_text (count gpu_raw - 5) gpu_raw else gpu_raw

  unfoldable pub hyperstack_row : ℕ → Fields F → String → F → Fields F → Result (VenueRow F)
  hyperstack_row snapshotted_at group gpu_raw price flavor = do
    availability ← stock_depth (get "stock_available" flavor)
    gpu_memory_gb ← vram_gb gpu_raw
    vcpu ← opt_int builtins.convert (as_value (get "cpu" flavor))
    ok (record {
      snapshotted_at = snapshotted_at;
      source = "hyperstack";
      gpu_model = normalize_gpu_model builtins.upper (gpu_for_model gpu_raw);
      price_usd_per_hour = some price;
      lease_type = lease_of (is_spot_type gpu_raw);
      availability = availability;
      region = stored_text builtins (or_else (get "region_name" flavor) (get "region_name" group));
      gpu_memory_gb = gpu_memory_gb;
      vcpu = vcpu;
      ram_gb = opt_float builtins.convert (as_value (get "ram" flavor));
      disk_gb = opt_float builtins.convert (as_value (get "disk" flavor));
      provider_detail = none;
      simulated = false;
    })

  -- The type of a flavor's GPU, by itself or by its group.
  abbrev pub type_of : Fields F → Fields F → String
  type_of group flavor =
      builtins.str (or_else (or_else (get "gpu" flavor) (get "gpu" group)) (text ""))

  unfoldable pub flavor_rows :
      List (String × F) → ℕ → Fields F → Fields F → Result (List (VenueRow F))
  unfolding hyperstack_row
  flavor_rows price_index snapshotted_at group flavor = do
    gpu_count ← to_int builtins (or_else (get_or "gpu_count" (int (pos 0)) flavor) (int (pos 0)))
    skip_if (leb_ℤ gpu_count (pos 0)) (
        need (price_at (type_of group flavor) price_index) (λ price.
          append_row (hyperstack_row snapshotted_at group (type_of group flavor) price flavor)))

  unfoldable pub group_rows : List (String × F) → ℕ → Fields F → Result (List (VenueRow F))
  unfolding flavor_rows
  group_rows price_index snapshotted_at group = do
    flavors ← iterate builtins (get_or "flavors" (array nil) group)
    collect (λ v. fields v >>= flavor_rows price_index snapshotted_at group) flavors

  unfoldable pub parse_hyperstack : List (Json F) → List (Json F) → ℕ → Result (List (VenueRow F))
  unfolding build_price_index group_rows
  parse_hyperstack flavor_groups pricebook snapshotted_at = do
    price_index ← build_price_index pricebook
    collect (λ v. fields v >>= group_rows price_index snapshotted_at) flavor_groups

  -- The two calls; when one of them fails, no offers.
  abbrev pub priced_flavors : Result (Json F) → Result (Json F) → ℕ → Result (List (VenueRow F))
  priced_flavors (ok flavors) (ok prices) snapshotted_at =
      parse_hyperstack (flavor_groups_of flavors) (pricebook_of prices) snapshotted_at
  priced_flavors _ _ snapshotted_at = ok []

  unfoldable pub fetch_hyperstack : Web F → String → ℕ → Result (List (VenueRow F))
  unfolding parse_hyperstack
  fetch_hyperstack web api_key snapshotted_at =
      priced_flavors
        (payload_of
          (web.get "https://infrahub-api.nexgencloud.com/v1/core/flavors" ("api_key", api_key)))
        (payload_of
          (web.get "https://infrahub-api.nexgencloud.com/v1/pricebook" ("api_key", api_key)))
        snapshotted_at
