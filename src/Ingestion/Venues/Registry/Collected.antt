-- ===== src/Ingestion/Venues/Registry/Collected.antt =====
-- core/ingestion/providers/__init__.py, `fetch_all`: what its loop keeps of each provider's rows.
use compute_quant_lab.Prelude.{
  ◌≡◌, refl, inl, inr, ℕ, suc, true, Option, some, List, [], ◌∷◌, ◌++◌, All, All-append, get_elem?,
  every, Bool-cases,
}
use compute_quant_lab.Prelude.Result.{ok, Result-cases}
use compute_quant_lab.Ingestion.Providers.{
  GpuPriceProvider, Environ, has_key, contribution, fetch_into,
}
use compute_quant_lab.Ingestion.Venues.Offers.{VenueRow}

-- What holds of the rows of each provider that is called holds of all that is collected.
module _ {F : Type 0} (P : VenueRow F → Type 0) (env : Environ) (now : ℕ) where
  pub contribution-All :
      (provider : GpuPriceProvider (Option F))
      → (every (has_key env) provider.required_env ≡ true
          → (rows : List (VenueRow F)) → provider.fetch env now ≡ ok rows
          → All P rows)
      → All P (contribution env now provider)
  unfolding contribution
  contribution-All provider each = elim (Bool-cases (every (has_key env) provider.required_env)) [
    | inr missing ↦ rw missing tt
    | inl keyed ↦ elim (Result-cases (provider.fetch env now)) [
      | inl (rows, e) ↦ rw (keyed, e) (each keyed rows e)
      | inr (raised, e) ↦ rw (keyed, e) tt
    ]
  ]

  pub fetch_into-All :
      (providers : List (GpuPriceProvider (Option F))) (out : List (VenueRow F))
      → All P out
      → ((i : ℕ) (provider : GpuPriceProvider (Option F))
          → get_elem? providers i ≡ some provider
          → All P (contribution env now provider))
      → All P (fetch_into env now out providers)
  unfolding fetch_into
  fetch_into-All [] out h each = h
  fetch_into-All (provider ∷ providers) out h each =
      fetch_into-All providers (out ++ contribution env now provider)
        (All-append P out (contribution env now provider) h (each 0 provider refl))
        (λ i. each (suc i))
