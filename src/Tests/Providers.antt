-- ===== src/Tests/Providers.antt =====
-- core/ingestion: the registries of venues and of energy markets.
use Prim.Native.String.{String}
use text.Mathlib.Text.{◌==◌ as str_eq}
use compute_quant_lab.Prelude.{
  ℕ, ◌≡◌, refl, true, false, none, some, List, [], ◌∷◌, ◌++◌, inr, if◌then◌else◌, every, map,
}
use compute_quant_lab.Prelude.Int.{ℤ, pos}
use compute_quant_lab.Prelude.Result.{Result, ok, err, value_error}
use compute_quant_lab.Ingestion.Protocols.{Snapshot}
use compute_quant_lab.Ingestion.Providers.{
  Environ, has_key, GpuPriceProvider, keyed_fetch, fetch_all, fetch_all-skips,
}
use compute_quant_lab.Ingestion.Energy.{EnergyMarket}

abbrev env : Environ
env key = if str_eq key "VAST_API_KEY" then some "k" else none

abbrev offer : ℕ → String → Snapshot ℤ
offer t source = record {
  snapshotted_at = t;
  source = source;
  gpu_model = "H100";
  price_usd_per_hour = pos 2;
  lease_type = "on_demand";
  availability = pos 1;
  region = none;
  gpu_memory_gb = none;
  vcpu = none;
  ram_gb = none;
  disk_gb = none;
  provider_detail = none;
  simulated = false;
}

abbrev vast : GpuPriceProvider ℤ
vast = record {
  name = "vastai";
  required_env = "VAST_API_KEY" ∷ [];
  fetch = λ env now. ok (offer now "vastai" ∷ []);
}

abbrev down : GpuPriceProvider ℤ
down = record { name = "cudo"; required_env = []; fetch = λ env now. err value_error }

abbrev keyless : GpuPriceProvider ℤ
keyless = record {
  name = "shadeform";
  required_env = "SHADEFORM_API_KEY" ∷ [];
  fetch = keyed_fetch ("SHADEFORM_API_KEY" ∷ []) (λ keys now. ok (offer now "shadeform" ∷ []));
}

fetch_all_run : fetch_all env 9 (down ∷ vast ∷ keyless ∷ []) ≡ offer 9 "vastai" ∷ []
unfolding fetch_all
fetch_all_run = refl

fetch_all-skips_example :
    fetch_all env 9 ((vast ∷ []) ++ (down ∷ (keyless ∷ [])))
    ≡ fetch_all env 9 ((vast ∷ []) ++ (keyless ∷ []))
fetch_all-skips_example =
    fetch_all-skips env 9 down (vast ∷ []) (keyless ∷ []) (inr (value_error, refl))

env-has_key : every (has_key env) ("VAST_API_KEY" ∷ []) ≡ true
unfolding has_key
env-has_key = refl

abbrev called : List String → ℕ → Result (List (Snapshot ℤ))
called keys now = ok (map (λ key. offer now key) keys)

abbrev ercot : EnergyMarket ℕ
ercot = record { required_env = []; connector = 1 }

abbrev pjm : EnergyMarket ℕ
pjm = record { required_env = "PJM_API_KEY" ∷ []; connector = 2 }
