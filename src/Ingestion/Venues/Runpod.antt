-- ===== src/Ingestion/Venues/Runpod.antt =====
-- core/ingestion/providers/runpod.py
use Prim.Native.String.{String}
use mathlib.Core.Path.{subst}
use compute_quant_lab.Prelude.{
  inr, ◌⊎◌, All, Bool, true, false, refl, inl, arith, ◌≡◌, ℕ, Option, none, some, List, [], ◌∷◌,
  if◌then◌else◌,
}
use compute_quant_lab.Prelude.Float.{IsOrdered, le_refl, le_of_not_le, ◌≼◌, Float, nought, lt}
use compute_quant_lab.Prelude.Int.{pos}
use compute_quant_lab.Prelude.Result.{ok_inj, >>=-eq-ok, Result, ok, err, ◌>>=◌, value_error}
use compute_quant_lab.Ingestion.Json.{
  Json, Fields, fields, text, array, nil, Builtins, get, get_or, or_else, iterate, to_float, number,
}
use compute_quant_lab.Ingestion.Venues.GpuModel.{normalize_gpu_model}
use compute_quant_lab.Ingestion.Venues.Offers.{
  IsListed, IsFrom, skip_if-All, append_row-All, collect-fields-All, VenueRow, Web, payload_of,
  present, collect, skip_if, append_row, section,
}

-- `_RUNPOD_QUERY`
abbrev pub runpod_query : String
runpod_query = "{ gpuTypes { id displayName memoryInGb securePrice communityPrice } }"

module _ {F : Type 0} where
  abbrev pub listed : Option F → List F → List F
  listed none ps = ps
  listed (some p) ps = p ∷ ps

  abbrev pub is_empty : List F → Bool
  is_empty [] = true
  is_empty (p ∷ ps) = false

module _ {F : Type 0} ⦃numbers : Float F⦄ where
  -- `min(prices)`
  unfoldable pub lowest : List F → Result F
  lowest [] = err value_error
  lowest (p ∷ []) = ok p
  lowest (p ∷ q ∷ ps) = do m ← lowest (q ∷ ps); ok (if numbers.le p m then p else m)

module _ {F : Type 0} ⦃numbers : Float F⦄ (builtins : Builtins F) where
  -- A quote that is a number above zero.
  unfoldable pub quote : Json F → Option F
  quote v = elim (number builtins v) [
    | none ↦ none
    | some none ↦ none
    | some (some p) ↦ if lt nought p then some p else none
  ]

  -- The secure and the community price, where they are quoted.
  unfoldable pub runpod_prices : Fields F → List F
  unfolding quote
  runpod_prices gpu =
      listed (quote (get "securePrice" gpu)) (listed (quote (get "communityPrice" gpu)) [])

  unfoldable pub runpod_row : ℕ → List F → Fields F → Result (VenueRow F)
  unfolding lowest
  runpod_row snapshotted_at prices gpu = do
    gpu_memory_gb ← present (to_float builtins) (get "memoryInGb" gpu)
    price ← lowest prices
    ok (record {
      snapshotted_at = snapshotted_at;
      source = "runpod";
      gpu_model =
          normalize_gpu_model builtins.upper (builtins.str (get_or "displayName" (text "") gpu));
      price_usd_per_hour = some price;
      lease_type = "on_demand";
      availability = pos 1;
      region = none;
      gpu_memory_gb = gpu_memory_gb;
      vcpu = none;
      ram_gb = none;
      disk_gb = none;
      provider_detail = none;
      simulated = false;
    })

  unfoldable pub runpod_rows : ℕ → Fields F → Result (List (VenueRow F))
  unfolding runpod_prices runpod_row
  runpod_rows snapshotted_at gpu =
      let prices = runpod_prices gpu in
      skip_if (is_empty prices) (append_row (runpod_row snapshotted_at prices gpu))

  unfoldable pub parse_runpod_gpu_types : List (Json F) → ℕ → Result (List (VenueRow F))
  unfolding runpod_rows
  parse_runpod_gpu_types gpu_types snapshotted_at =
      collect (λ gpu. fields gpu >>= runpod_rows snapshotted_at) gpu_types

  unfoldable pub fetch_runpod : Web F → String → ℕ → Result (List (VenueRow F))
  unfolding parse_runpod_gpu_types
  fetch_runpod web api_key snapshotted_at = do
    payload ← payload_of (
        web.post "https://api.runpod.io/graphql" (("api_key", api_key) ∷ [])
          (("query", runpod_query) ∷ []))
    answer ← fields payload
    inner ← section "data" answer
    gpu_types ← iterate builtins (or_else (get "gpuTypes" inner) (array nil))
    parse_runpod_gpu_types gpu_types snapshotted_at

  quote-pos : (v : Json F) (p : F) → quote v ≡ some p → lt nought p ≡ true
  unfolding quote
  quote-pos v p e = ground arith

  module _ (laws : IsOrdered F) where
    -- The lowest of at most two quotes is one of them, and no other is below it.
    least_of_two :
        (a b : Option F) (m : F)
        → lowest (listed a (listed b [])) ≡ ok m
        → ((a ≡ some m) ⊎ (b ≡ some m)) × ((q : F) → (a ≡ some q) ⊎ (b ≡ some q) → m ≼ q)
    unfolding lowest
    least_of_two none none m e = absurd (cc)
    least_of_two none (some q) m e = ground (arith, le_refl laws q)
    least_of_two (some p) none m e = ground (arith, le_refl laws p)
    least_of_two (some p) (some q) m e =
        ground (arith, le_refl laws p, le_refl laws q, le_of_not_le laws p q)

  -- The row is priced at the lower of the quotes above zero.
  abbrev pub IsRunpodRow : ℕ → Fields F → VenueRow F → Type 0
  IsRunpodRow now gpu row =
      let secure = quote (get "securePrice" gpu) in
      let community = quote (get "communityPrice" gpu) in
      IsFrom "runpod" now row
      × (row.availability ≡ pos 1)
      × (p : F) × (row.price_usd_per_hour ≡ some p)
      × (lt nought p ≡ true)
      × ((secure ≡ some p) ⊎ (community ≡ some p))
      × ((q : F) → (secure ≡ some q) ⊎ (community ≡ some q) → p ≼ q)

  module _ (laws : IsOrdered F) where
    quoted-pos :
        (a b : Json F) (p : F) → (quote a ≡ some p) ⊎ (quote b ≡ some p) → lt nought p ≡ true
    quoted-pos a b p (inl e) = quote-pos a p e
    quoted-pos a b p (inr e) = quote-pos b p e

    runpod_row-IsRunpodRow :
        (now : ℕ) (gpu : Fields F) (row : VenueRow F)
        → runpod_row now (runpod_prices gpu) gpu ≡ ok row
        → IsRunpodRow now gpu row
    unfolding runpod_row runpod_prices
    runpod_row-IsRunpodRow now gpu row e =
        let secure = get "securePrice" gpu in
        let community = get "communityPrice" gpu in
        let (mem, _, rest) = >>=-eq-ok (present (to_float builtins) _) _ e in
        let (p, e_p, rest) =
          >>=-eq-ok (lowest (listed (quote secure) (listed (quote community) []))) _ rest in
        let (one, least_one) = least_of_two laws (quote secure) (quote community) p e_p in
        subst (IsRunpodRow now gpu) (ok_inj rest) (
          (refl, refl, inl refl, refl),
          refl,
          p,
          refl,
          quoted-pos secure community p one,
          one,
          least_one,
        )

    runpod_rows-IsRunpodRow :
        (now : ℕ) (gpu : Fields F) (rows : List (VenueRow F))
        → runpod_rows now gpu ≡ ok rows
        → All (IsRunpodRow now gpu) rows
    unfolding runpod_rows
    runpod_rows-IsRunpodRow now gpu rows e = skip_if-All _ _ _ rows e (λ quoted kept.
        append_row-All _ _ rows kept (λ row e_row. runpod_row-IsRunpodRow now gpu row e_row))

    -- Each row of the parsed GPU types is of a listed type, on demand, and is priced at one of the type's
    -- two quotes, secure and community, that is a number above zero; no other such quote of the type is
    -- lower.
    pub parse_runpod_gpu_types_lem :
        (gpu_types : List (Json F)) (now : ℕ) (rows : List (VenueRow F))
        → parse_runpod_gpu_types gpu_types now ≡ ok rows
        → All (IsListed (IsRunpodRow now) gpu_types) rows
    unfolding parse_runpod_gpu_types
    parse_runpod_gpu_types_lem gpu_types now =
        collect-fields-All (IsRunpodRow now) (runpod_rows now) gpu_types
          (runpod_rows-IsRunpodRow now)
