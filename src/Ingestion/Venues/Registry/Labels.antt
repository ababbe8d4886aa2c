-- ===== src/Ingestion/Venues/Registry/Labels.antt =====
-- core/ingestion/providers/__init__.py, `fetch_all` over `PROVIDERS`: whose rows are collected.
use Prim.Native.String.{String, ◌++◌ as append}
use mathlib.Core.Path.{subst}
use compute_quant_lab.Prelude.{
  ◌≡◌, ◌⊎◌, inl, inr, ℕ, false, true, Option, some, List, [], ◌∷◌, All, All-imp, get_elem?,
  All-get_elem?, every, arith, Bool-cases,
}
use compute_quant_lab.Prelude.Float.{Float, IsOrdered}
use compute_quant_lab.Prelude.Result.{Result, ok, err, >>=-eq-ok, ok_inj}
use compute_quant_lab.Ingestion.Json.{Json, fields, Builtins, get, iterate, truthy}
use compute_quant_lab.Ingestion.Providers.{
  GpuPriceProvider, Environ, has_key, keyed_fetch, read_keys, fetch_all,
}
use compute_quant_lab.Ingestion.Venues.Offers.{VenueRow, Web, IsFrom, payload_of, section, shown}
use compute_quant_lab.Ingestion.Venues.Vastai.{fetch_vastai, parse_vastai_offers_lem}
use compute_quant_lab.Ingestion.Venues.Runpod.{fetch_runpod, parse_runpod_gpu_types_lem}
use compute_quant_lab.Ingestion.Venues.Primeintellect.{
  source_of, fetch_primeintellect, parse_primeintellect_lem,
}
use compute_quant_lab.Ingestion.Venues.Datacrunch.{access_token, fetch_datacrunch}
use compute_quant_lab.Ingestion.Venues.Datacrunch.Catalogue.{parse_datacrunch_lem}
use compute_quant_lab.Ingestion.Venues.Cudo.{fetch_cudo, parse_cudo_lem}
use compute_quant_lab.Ingestion.Venues.Hyperstack.{
  fetch_hyperstack, priced_flavors, flavor_groups_of, pricebook_of,
}
use compute_quant_lab.Ingestion.Venues.Hyperstack.Pricebook.{parse_hyperstack_lem}
use compute_quant_lab.Ingestion.Venues.Tensordock.{
  fetch_tensordock, hostnodes_listed, parse_tensordock_lem,
}
use compute_quant_lab.Ingestion.Venues.Registry.{env_keyed, registered, with_key, with_two_keys}
use compute_quant_lab.Ingestion.Venues.Registry.Collected.{contribution-All, fetch_into-All}

keyed_fetch-ok :
    {F : Type 0} (required_env : List String)
    (fetch_fn : List String → ℕ → Result (List (VenueRow F))) (env : Environ) (now : ℕ)
    (rows : List (VenueRow F))
    → keyed_fetch required_env fetch_fn env now ≡ ok rows
    → (keys : List String) × (fetch_fn keys now ≡ ok rows)
unfolding keyed_fetch
keyed_fetch-ok required_env fetch_fn env now rows e =
    let (keys, _, rest) = >>=-eq-ok (read_keys env required_env) _ e in (keys, rest)

-- A row that the venue `name` can give: under its name, or under its name and the provider that it
-- relays, which the row names as well.
abbrev pub IsLabelled : {F : Type 0} → String → VenueRow F → Type 0
IsLabelled name row =
    (row.source ≡ name)
    ⊎ ((detail : String) × (row.source ≡ append (append name ":") detail)
        × (row.provider_detail ≡ some detail))

abbrev pub IsObserved : {F : Type 0} → String → ℕ → VenueRow F → Type 0
IsObserved name now row =
    (row.snapshotted_at ≡ now)
    × IsLabelled name row
    × ((row.lease_type ≡ "on_demand") ⊎ (row.lease_type ≡ "spot"))
    × (row.simulated ≡ false)

module _ {F : Type 0} where
  IsFrom-IsObserved :
      (name : String) (now : ℕ) (row : VenueRow F) → IsFrom name now row → IsObserved name now row
  IsFrom-IsObserved name now row (at, from, lease, real) = (at, inl from, lease, real)

  -- A provider whose rows are all its own.
  abbrev pub IsHonest : GpuPriceProvider (Option F) → Type 0
  IsHonest provider =
      (env : Environ) (now : ℕ) (rows : List (VenueRow F))
      → provider.fetch env now ≡ ok rows
      → All (IsObserved provider.name now) rows

  abbrev IsFetch : String → (String → ℕ → Result (List (VenueRow F))) → Type 0
  IsFetch name fetch =
      (key : String) (now : ℕ) (rows : List (VenueRow F))
      → fetch key now ≡ ok rows
      → All (IsObserved name now) rows

  with_key-IsObserved :
      (name : String) (fetch : String → ℕ → Result (List (VenueRow F)))
      → IsFetch name fetch
      → (keys : List String) (now : ℕ) (rows : List (VenueRow F))
      → with_key fetch keys now ≡ ok rows
      → All (IsObserved name now) rows
  with_key-IsObserved name fetch each [] now rows e = absurd (cc)
  with_key-IsObserved name fetch each (key ∷ []) now rows e = each key now rows e
  with_key-IsObserved name fetch each (key ∷ key' ∷ keys) now rows e = absurd (cc)

module _ {F : Type 0} ⦃numbers : Float F⦄ (builtins : Builtins F) (web : Web F) where
  vastai-IsFetch : IsFetch "vastai" (fetch_vastai builtins web)
  unfolding fetch_vastai
  vastai-IsFetch key now rows e =
      let (payload, _, rest) = >>=-eq-ok (payload_of _) _ e in
      let (answer, _, rest) = >>=-eq-ok (fields payload) _ rest in
      let (offers, _, rest) = >>=-eq-ok (iterate builtins _) _ rest in
      All-imp _ _ (λ row (_, _, _, (_, _, _, _, p)). IsFrom-IsObserved "vastai" now row p.0) rows
        (parse_vastai_offers_lem builtins offers now rows rest)

  runpod-IsFetch : IsOrdered F → IsFetch "runpod" (fetch_runpod builtins web)
  unfolding fetch_runpod
  runpod-IsFetch laws key now rows e =
      let (payload, _, rest) = >>=-eq-ok (payload_of _) _ e in
      let (answer, _, rest) = >>=-eq-ok (fields payload) _ rest in
      let (inner, _, rest) = >>=-eq-ok (section "data" answer) _ rest in
      let (gpu_types, _, rest) = >>=-eq-ok (iterate builtins _) _ rest in
      All-imp _ _ (λ row (_, _, _, p). IsFrom-IsObserved "runpod" now row p.0) rows
        (parse_runpod_gpu_types_lem builtins laws gpu_types now rows rest)

  cudo-IsFetch : IsFetch "cudo" (fetch_cudo builtins web)
  unfolding fetch_cudo
  cudo-IsFetch key now rows e =
      let (payload, _, rest) = >>=-eq-ok (payload_of _) _ e in
      let (answer, _, rest) = >>=-eq-ok (fields payload) _ rest in
      let (machine_types, _, rest) = >>=-eq-ok (iterate builtins _) _ rest in
      All-imp _ _ (λ row (_, _, _, p). IsFrom-IsObserved "cudo" now row p.0) rows
        (parse_cudo_lem builtins machine_types now rows rest)

  source_of-IsLabelled :
      (provider : Json F) (row : VenueRow F)
      → row.source ≡ source_of builtins provider
      → row.provider_detail ≡ shown builtins provider
      → IsLabelled "primeintellect" row
  unfolding source_of
  source_of-IsLabelled provider row e detail = elim (Bool-cases (truthy provider)) [
    | inl named ↦ inr (builtins.str provider, ground arith, ground arith)
    | inr unnamed ↦ inl (ground arith)
  ]

  primeintellect-IsFetch : IsFetch "primeintellect" (fetch_primeintellect builtins web)
  unfolding fetch_primeintellect
  primeintellect-IsFetch key now rows e =
      let (payload, _, rest) = >>=-eq-ok (payload_of _) _ e in
      let (answer, _, rest) = >>=-eq-ok (fields payload) _ rest in
      All-imp _ _
        (λ row (_, item, _, p).
          let (at, from, lease, real) = p.0 in
          (at, source_of-IsLabelled (get "provider" item) row from p.1, lease, real))
        rows (parse_primeintellect_lem builtins _ now rows rest)

  hyperstack-IsFetch : IsFetch "hyperstack" (fetch_hyperstack builtins web)
  unfolding fetch_hyperstack
  hyperstack-IsFetch key now rows e = priced_flavors-IsObserved (payload_of _) (payload_of _) e
    where
      priced_flavors-IsObserved :
          (flavors prices : Result (Json F))
          → priced_flavors builtins flavors prices now ≡ ok rows
          → All (IsObserved "hyperstack" now) rows
      priced_flavors-IsObserved (ok flavors) (ok prices) e =
          All-imp _ _
            (λ row (_, _, _, (_, _, _, _, _, p)). IsFrom-IsObserved "hyperstack" now row p.0) rows
            (parse_hyperstack_lem builtins (flavor_groups_of flavors) (pricebook_of prices) now rows
              e)
      priced_flavors-IsObserved (err x) prices e = subst (All _) (ok_inj e) tt
      priced_flavors-IsObserved (ok flavors) (err x) e = subst (All _) (ok_inj e) tt

  tensordock-IsFetch : IsFetch "tensordock" (λ key now. ok (fetch_tensordock builtins web key now))
  unfolding fetch_tensordock
  tensordock-IsFetch key now rows e = subst (All (IsObserved "tensordock" now)) (ok_inj e) (
      All-imp _ _ (λ row (_, _, _, p). IsFrom-IsObserved "tensordock" now row p.0) _
        (parse_tensordock_lem builtins (hostnodes_listed (payload_of _)) now))

  datacrunch-IsObserved :
      (keys : List String) (now : ℕ) (rows : List (VenueRow F))
      → with_two_keys (fetch_datacrunch builtins web) keys now ≡ ok rows
      → All (IsObserved "datacrunch" now) rows
  unfolding fetch_datacrunch
  datacrunch-IsObserved [] now rows e = absurd (cc)
  datacrunch-IsObserved (id ∷ []) now rows e = absurd (cc)
  datacrunch-IsObserved (id ∷ secret ∷ key ∷ keys) now rows e = absurd (cc)
  datacrunch-IsObserved (id ∷ secret ∷ []) now rows e =
      let (token, _, rest) = >>=-eq-ok (payload_of _) _ e in
      let (granted, _, rest) = >>=-eq-ok (access_token token) _ rest in
      let (payload, _, rest) = >>=-eq-ok (payload_of _) _ rest in
      let (instance_types, _, rest) = >>=-eq-ok (iterate builtins payload) _ rest in
      All-imp _ _ (λ row (_, _, _, (_, _, _, _, _, p)). IsFrom-IsObserved "datacrunch" now row p.0)
        rows (parse_datacrunch_lem builtins instance_types now rows rest)

  keyed-IsHonest :
      (name : String) (required_env : List String)
      (fetch_fn : List String → ℕ → Result (List (VenueRow F)))
      → ((keys : List String) (now : ℕ) (rows : List (VenueRow F))
          → fetch_fn keys now ≡ ok rows
          → All (IsObserved name now) rows)
      → IsHonest (env_keyed name required_env fetch_fn)
  keyed-IsHonest name required_env fetch_fn each env now rows e =
      let (keys, called) = keyed_fetch-ok required_env fetch_fn env now rows e in
      each keys now rows called

  registered-IsHonest : IsOrdered F → All IsHonest (registered builtins web)
  unfolding registered
  registered-IsHonest laws = (
    keyed-IsHonest _ _ _ (with_key-IsObserved _ _ vastai-IsFetch),
    (
      keyed-IsHonest _ _ _ (with_key-IsObserved _ _ (runpod-IsFetch laws)),
      (
        keyed-IsHonest _ _ _ (with_key-IsObserved _ _ primeintellect-IsFetch),
        (
          keyed-IsHonest _ _ _ datacrunch-IsObserved,
          (
            keyed-IsHonest _ _ _ (with_key-IsObserved _ _ cudo-IsFetch),
            (
              keyed-IsHonest _ _ _ (with_key-IsObserved _ _ hyperstack-IsFetch),
              (keyed-IsHonest _ _ _ (with_key-IsObserved _ _ tensordock-IsFetch), tt),
            ),
          ),
        ),
      ),
    ),
  )

  -- Whatever the venues answer and whichever of them fail, a row that `fetch_all` collects is of a
  -- registered venue whose keys are all set: it is at the instant asked for, under the venue's name or
  -- under that name and the provider that the row says it relays, on demand or spot, and not simulated.
  pub fetch_all-registered :
      (laws : IsOrdered F) (env : Environ) (now : ℕ)
      → All
          (λ row.
            (i : ℕ) × (provider : GpuPriceProvider (Option F)) × (get_elem?
                (registered builtins web)
                i
              ≡ some provider)
            × (every (has_key env) provider.required_env ≡ true)
            × IsObserved provider.name now row)
          (fetch_all env now (registered builtins web))
  unfolding fetch_all
  fetch_all-registered laws env now =
      fetch_into-All _ env now (registered builtins web) [] tt (λ i provider at.
        contribution-All _ env now provider (λ keyed rows e.
          All-imp _ _ (λ row p. (i, provider, at, keyed, p)) rows
            (All-get_elem? IsHonest (registered builtins web) i provider (registered-IsHonest laws)
              at env now rows e)))
