-- ===== src/Ingestion/Providers.antt =====
-- core/ingestion/providers/__init__.py, `fetch_all`, and core/ingestion/providers/base.py,
-- `EnvKeyedProvider`. The environment is a function, and the venues are a list of providers.
use Prim.Native.String.{String}
use text.Mathlib.Text.{◌==◌ as str_eq}
use mathlib.Core.List.{append-nil}
use compute_quant_lab.Prelude.{
  ℕ, zero, suc, get_elem?, ◌≡◌, refl, ap, ◌⊎◌, inl, inr, Bool, true, false, not, Option, none, some,
  List, [], ◌∷◌, ◌++◌, arith, if◌then◌else◌, every, map,
}
use compute_quant_lab.Prelude.Result.{
  Result, Exception, ok, err, ◌>>=◌, or_raise, traverse, key_error,
}
use compute_quant_lab.Ingestion.Protocols.{Snapshot}

-- `os.environ`
abbrev pub Environ : Type 0
Environ = String → Option String

-- `bool(os.environ.get(key))`: an empty value counts as missing.
unfoldable pub has_key : Environ → String → Bool
has_key env key = elim (env key) [ none ↦ false | some value ↦ not (str_eq value "") ]

-- `fetch` takes the environment and the instant.
pub record GpuPriceProvider (F : Type 0) : Type 0 where
  pub name : String
  pub required_env : List String
  pub fetch : Environ → ℕ → Result (List (Snapshot F))

-- `os.environ[key]` for each key
unfoldable pub read_keys : Environ → List String → Result (List String)
read_keys env = traverse (λ key. or_raise (env key) key_error)

-- `EnvKeyedProvider.fetch`
unfoldable pub keyed_fetch :
    {F : Type 0}
    → List String
    → (List String → ℕ → Result (List (Snapshot F)))
    → Environ
    → ℕ
    → Result (List (Snapshot F))
unfolding read_keys
keyed_fetch required_env fetch_fn env now = do keys ← read_keys env required_env; fetch_fn keys now

module _ {F : Type 0} where
  -- What one provider adds: nothing if a key is missing or if its `fetch` raises.
  unfoldable pub contribution : Environ → ℕ → GpuPriceProvider F → List (Snapshot F)
  unfolding has_key
  contribution env now provider =
      if every (has_key env) provider.required_env
      then (elim (provider.fetch env now) [ ok snapshots ↦ snapshots | err exc ↦ [] ])
      else []

  -- The loop over the providers, with `out` collected so far.
  unfoldable pub fetch_into :
      Environ → ℕ → List (Snapshot F) → List (GpuPriceProvider F) → List (Snapshot F)
  unfolding contribution
  fetch_into env now out [] = out
  fetch_into env now out (provider ∷ providers) =
      fetch_into env now (out ++ contribution env now provider) providers

  unfoldable pub fetch_all : Environ → ℕ → List (GpuPriceProvider F) → List (Snapshot F)
  unfolding fetch_into
  fetch_all env now providers = fetch_into env now [] providers

  fetch_into-cons :
      (env : Environ) (now : ℕ) (out : List (Snapshot F)) (p : GpuPriceProvider F)
      (before after : List (GpuPriceProvider F))
      → contribution env now p ≡ []
      → fetch_into env now out (before ++ (p ∷ after)) ≡ fetch_into env now out (before ++ after)
  unfolding fetch_into
  fetch_into-cons env now out p [] after h =
      ap (λ l. fetch_into env now l after) (rw h (append-nil out))
  fetch_into-cons env now out p (q ∷ before) after h =
      fetch_into-cons env now (out ++ contribution env now q) p before after h

  contribution-nil :
      (env : Environ) (now : ℕ) (p : GpuPriceProvider F)
      → (every (has_key env) p.required_env ≡ false) ⊎ ((x : Exception) × (p.fetch env now ≡ err x))
      → contribution env now p ≡ []
  unfolding contribution
  contribution-nil env now p (inl missing) = rw missing
  contribution-nil env now p (inr (x, e)) = ground arith

has_key_unset :
    (env : Environ) (key : String)
    → (env key ≡ none) ⊎ (env key ≡ some "")
    → has_key env key ≡ false
unfolding has_key
has_key_unset env key (inl missing) = ground arith
has_key_unset env key (inr empty) = rw (empty, has_key) refl

every-unset :
    (env : Environ) (keys : List String) (i : ℕ) (key : String)
    → get_elem? keys i ≡ some key
    → (env key ≡ none) ⊎ (env key ≡ some "")
    → every (has_key env) keys ≡ false
every-unset env [] i key at h = absurd (cc)
every-unset env (k ∷ keys) zero key at h = ground (arith, has_key_unset env key h)
every-unset env (k ∷ keys) (suc i) key at h = ground (arith, every-unset env keys i key at h)

module _ {F : Type 0} where
  -- A venue that requires a key which is missing or empty in the environment, or whose fetch raises,
  -- changes nothing of what the other venues give, wherever it stands in the registry.
  pub fetch_all-skips :
      (env : Environ) (now : ℕ) (p : GpuPriceProvider F) (before after : List (GpuPriceProvider F))
      → ((i : ℕ) × (key : String) × (get_elem? p.required_env i ≡ some key)
          × ((env key ≡ none) ⊎ (env key ≡ some "")))
        ⊎ ((x : Exception) × (p.fetch env now ≡ err x))
      → fetch_all env now (before ++ (p ∷ after)) ≡ fetch_all env now (before ++ after)
  unfolding fetch_all
  fetch_all-skips env now p before after (inl (i, key, at, unset)) =
      fetch_into-cons env now [] p before after
        (contribution-nil env now p (inl (every-unset env p.required_env i key at unset)))
  fetch_all-skips env now p before after (inr raises) =
      fetch_into-cons env now [] p before after (contribution-nil env now p (inr raises))

has_key-some :
    (env : Environ) (key : String) → has_key env key ≡ true → (v : String) × (env key ≡ some v)
unfolding has_key
has_key-some env key h = ground arith

read_keys_total :
    (env : Environ) (required_env : List String)
    → every (has_key env) required_env ≡ true
    → (keys : List String) × (map some keys ≡ map env required_env)
      × (read_keys env required_env ≡ ok keys)
unfolding read_keys
read_keys_total env [] h = ([], refl, refl)
read_keys_total env (key ∷ rest) h =
    let here : has_key env key ≡ true = ground arith in
    let there : every (has_key env) rest ≡ true = ground arith in
    let (v, e) = has_key-some env key here in
    let (keys, same, read) = read_keys_total env rest there in (v ∷ keys, cc, rw (e, read))

-- When every required key is set to a value that is not empty, reading the keys raises no
-- `KeyError`: the venue is called, with the values of all its keys in order.
pub keyed_fetch-gated :
    {F : Type 0} (env : Environ) (now : ℕ) (required_env : List String)
    (fetch_fn : List String → ℕ → Result (List (Snapshot F)))
    → every (has_key env) required_env ≡ true
    → (keys : List String) × (map some keys ≡ map env required_env)
      × (keyed_fetch required_env fetch_fn env now ≡ fetch_fn keys now)
unfolding keyed_fetch
keyed_fetch-gated env now required_env fetch_fn h =
    let (keys, same, read) = read_keys_total env required_env h in (keys, same, rw read)
