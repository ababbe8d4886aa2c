-- ===== src/Ingestion/Venues/Registry.antt =====
-- core/ingestion/providers/__init__.py, `PROVIDERS`, and the provider classes of the venues.
pub mod Collected
pub mod Labels
use Prim.Native.String.{String}
use compute_quant_lab.Prelude.{ℕ, Option, List, [], ◌∷◌}
use compute_quant_lab.Prelude.Float.{Float}
use compute_quant_lab.Prelude.Result.{Result, ok, err, type_error}
use compute_quant_lab.Ingestion.Json.{Builtins}
use compute_quant_lab.Ingestion.Providers.{GpuPriceProvider, keyed_fetch}
use compute_quant_lab.Ingestion.Venues.Offers.{VenueRow, Web}
use compute_quant_lab.Ingestion.Venues.Vastai.{fetch_vastai}
use compute_quant_lab.Ingestion.Venues.Runpod.{fetch_runpod}
use compute_quant_lab.Ingestion.Venues.Primeintellect.{fetch_primeintellect}
use compute_quant_lab.Ingestion.Venues.Datacrunch.{fetch_datacrunch}
use compute_quant_lab.Ingestion.Venues.Cudo.{fetch_cudo}
use compute_quant_lab.Ingestion.Venues.Hyperstack.{fetch_hyperstack}
use compute_quant_lab.Ingestion.Venues.Tensordock.{fetch_tensordock}

module _ {F : Type 0} where
  -- A `fetch_<venue>` called with the values of its keys: another number of them is a `TypeError`.
  abbrev pub with_key :
      (String → ℕ → Result (List (VenueRow F))) → List String → ℕ → Result (List (VenueRow F))
  with_key fetch (key ∷ []) now = fetch key now
  with_key fetch _ now = err type_error

  abbrev pub with_two_keys :
      (String → String → ℕ → Result (List (VenueRow F)))
      → List String
      → ℕ
      → Result (List (VenueRow F))
  with_two_keys fetch (key ∷ key' ∷ []) now = fetch key key' now
  with_two_keys fetch _ now = err type_error

  -- A subclass of `EnvKeyedProvider`.
  abbrev pub env_keyed :
      String
      → List String
      → (List String → ℕ → Result (List (VenueRow F)))
      → GpuPriceProvider (Option F)
  env_keyed name required_env fetch_fn = record {
    name = name;
    required_env = required_env;
    fetch = keyed_fetch required_env fetch_fn;
  }

module _ {F : Type 0} ⦃numbers : Float F⦄ (builtins : Builtins F) (web : Web F) where
  abbrev pub vastai_provider : GpuPriceProvider (Option F)
  vastai_provider =
      env_keyed "vastai" ("VASTAI_API_KEY" ∷ []) (with_key (fetch_vastai builtins web))

  abbrev pub runpod_provider : GpuPriceProvider (Option F)
  runpod_provider =
      env_keyed "runpod" ("RUNPOD_API_KEY" ∷ []) (with_key (fetch_runpod builtins web))

  abbrev pub primeintellect_provider : GpuPriceProvider (Option F)
  primeintellect_provider =
      env_keyed "primeintellect" ("PRIMEINTELLECT_API_KEY" ∷ [])
        (with_key (fetch_primeintellect builtins web))

  abbrev pub datacrunch_provider : GpuPriceProvider (Option F)
  datacrunch_provider =
      env_keyed "datacrunch" ("DATACRUNCH_CLIENT_ID" ∷ "DATACRUNCH_CLIENT_SECRET" ∷ [])
        (with_two_keys (fetch_datacrunch builtins web))

  abbrev pub cudo_provider : GpuPriceProvider (Option F)
  cudo_provider = env_keyed "cudo" ("CUDO_API_KEY" ∷ []) (with_key (fetch_cudo builtins web))

  abbrev pub hyperstack_provider : GpuPriceProvider (Option F)
  hyperstack_provider =
      env_keyed "hyperstack" ("HYPERSTACK_API_KEY" ∷ []) (with_key (fetch_hyperstack builtins web))

  abbrev pub tensordock_provider : GpuPriceProvider (Option F)
  tensordock_provider =
      env_keyed "tensordock" ("TENSORDOCK_API_KEY" ∷ [])
        (with_key (λ api_key now. ok (fetch_tensordock builtins web api_key now)))

  -- `PROVIDERS`
  unfoldable pub registered : List (GpuPriceProvider (Option F))
  registered =
      vastai_provider ∷ runpod_provider ∷ primeintellect_provider ∷ datacrunch_provider
      ∷ cudo_provider ∷ hyperstack_provider ∷ tensordock_provider ∷ []
