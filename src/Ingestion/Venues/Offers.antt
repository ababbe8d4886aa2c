-- ===== src/Ingestion/Venues/Offers.antt =====
-- What the modules of the venues under core/ingestion/providers share: the loop that collects the rows of
-- the offers, the optional fields of a row, and the retried call of a venue's endpoint. The HTTP client
-- is a parameter: an answer may still fail to decode as JSON.
use Prim.Native.String.{String, ◌++◌ as append}
use mathlib.Core.Path.{subst}
use compute_quant_lab.Prelude.{
  ℕ, ◌≡◌, ◌⊎◌, inl, inr, refl, Bool, true, false, Option, none, some, List, [], ◌∷◌, ◌++◌,
  if◌then◌else◌, All, All-append, All-imp, arith, get_elem?, suc, ap, ◌∙◌,
}
use compute_quant_lab.Prelude.Float.{Float}
use compute_quant_lab.Prelude.Result.{Result, ok, err, ◌>>=◌, ok_inj, >>=-eq-ok, request_error}
use compute_quant_lab.Utils.Net.{Outcome, returned, raised, call_with_retry, default_max_retries}
use compute_quant_lab.Ingestion.Protocols.{Snapshot}
use compute_quant_lab.Ingestion.Json.{
  null, text, end, get, or_else, Json, Fields, fields, fields-object, object, Builtins, truthy,
  is_null, to_float,
}

-- `requests.get` with one header and `requests.post` with its parameters and its body: each attempt's
-- outcome, status check included, and for an answer what its `json()` gives.
pub record Web (F : Type 0) : Type 0 where
  pub get : String → String × String → ℕ → Outcome (Result (Json F))
  pub post :
      String → List (String × String) → List (String × String) → ℕ → Outcome (Result (Json F))

abbrev pub bearer : String → String × String
bearer api_key = ("Authorization", append "Bearer " api_key)

-- A price or a size that may be NaN.
abbrev pub VenueRow : Type 0 → Type 0
VenueRow F = Snapshot (Option F)

module _ {F : Type 0} where
  -- What `call_with_retry` returns, or that it raises.
  abbrev pub reply : Option (Outcome (Result (Json F)) × ℕ) → Result (Json F)
  reply none = err request_error
  reply (some (returned payload, n)) = payload
  reply (some (raised failure, n)) = err request_error

  unfoldable pub payload_of : (ℕ → Outcome (Result (Json F))) → Result (Json F)
  payload_of call = reply (call_with_retry call default_max_retries)

  -- `f(v) if v is not None else None`
  unfoldable pub present : {A : Type 0} → (Json F → Result A) → Json F → Result (Option A)
  present f v = if is_null v then ok none else (f v >>= λ a. ok (some a))

-- `try: f(v)` where what `f` can raise is caught
abbrev pub caught : {A : Type 0} → Result A → Option A
caught (ok a) = some a
caught (err e) = none

-- `(d.get(k) or {})`, where its `get` is called next
unfoldable pub section : {F : Type 0} ⦃numbers : Float F⦄ → String → Fields F → Result (Fields F)
section key v = fields (or_else (get key v) (object end))

module _ {F : Type 0} ⦃numbers : Float F⦄ where
  -- `f(v) if v else None`
  unfoldable pub given : {A : Type 0} → (Json F → Result A) → Json F → Result (Option A)
  given f v = if truthy v then (f v >>= λ a. ok (some a)) else ok none

  -- `x / d`
  abbrev pub over : F → Option F → Option F
  over d none = none
  over d (some x) = some (numbers.div x d)

  -- `float(v) / 1024.0`
  unfoldable pub megabytes : Builtins F → Json F → Result (Option F)
  megabytes builtins v = do x ← to_float builtins v; ok (over (numbers.of_nat 1024) x)

  -- A text or `None` that a row stores as it stands; of another value, which the declared type excludes,
  -- its `str`, as the store writes it.
  abbrev pub stored_text : Builtins F → Json F → Option String
  stored_text builtins null = none
  stored_text builtins (text s) = some s
  stored_text builtins v = some (builtins.str v)

  -- `str(v) if v else None`
  abbrev pub shown : Builtins F → Json F → Option String
  shown builtins v = if truthy v then some (builtins.str v) else none

-- `"spot" if is_spot else "on_demand"`
unfoldable pub lease_of : Bool → String
lease_of is_spot = if is_spot then "spot" else "on_demand"

pub lease_of-cases :
    (is_spot : Bool) → (lease_of is_spot ≡ "on_demand") ⊎ (lease_of is_spot ≡ "spot")
unfolding lease_of
lease_of-cases true = inr refl
lease_of-cases false = inl refl

-- A row of the venue `name`, seen at `now`.
abbrev pub IsFrom : {F : Type 0} → String → ℕ → VenueRow F → Type 0
IsFrom name now row =
    (row.snapshotted_at ≡ now)
    × (row.source ≡ name)
    × ((row.lease_type ≡ "on_demand") ⊎ (row.lease_type ≡ "spot"))
    × (row.simulated ≡ false)

module _ {X Y : Type 0} where
  -- `for x in xs: out.append(...)`, where one turn gives the rows that it appends.
  unfoldable pub collect : (X → Result (List Y)) → List X → Result (List Y)
  collect rows_of [] = ok []
  collect rows_of (x ∷ xs) = do rows ← rows_of x; rest ← collect rows_of xs; ok (rows ++ rest)

  -- What holds of the rows of each turn holds of all that is collected.
  pub collect-All {κ} :
      (P : Y → Type κ) (rows_of : X → Result (List Y)) (xs : List X)
      → ((i : ℕ) (x : X) (rows : List Y)
          → get_elem? xs i ≡ some x
          → rows_of x ≡ ok rows
          → All P rows)
      → (out : List Y) → collect rows_of xs ≡ ok out
      → All P out
  unfolding collect
  collect-All P rows_of [] each out e = ground arith
  collect-All P rows_of (x ∷ xs) each out e =
      let (rows, e_rows, rest) = >>=-eq-ok (rows_of x) _ e in
      let (later, e_later, rest) = >>=-eq-ok (collect rows_of xs) _ rest in
      let later_All = collect-All P rows_of xs (λ i y ys. each (suc i) y ys) later e_later in
      subst (All P) (ok_inj rest) (All-append P rows later (each 0 x rows refl e_rows) later_All)

module _ {Y : Type 0} where
  -- `if c: continue`
  unfoldable pub skip_if : Bool → Result (List Y) → Result (List Y)
  skip_if true rest = ok []
  skip_if false rest = rest

  -- `if o is None: continue`, for the rest of a turn that uses it
  unfoldable pub need : {X : Type 0} → Option X → (X → Result (List Y)) → Result (List Y)
  need none rest = ok []
  need (some x) rest = rest x

  -- `out.append(...)`
  unfoldable pub append_row : Result Y → Result (List Y)
  append_row row = row >>= λ y. ok (y ∷ [])

  pub skip_if-All {κ} :
      (P : Y → Type κ) (skipped : Bool) (rest : Result (List Y)) (rows : List Y)
      → skip_if skipped rest ≡ ok rows
      → (skipped ≡ false → rest ≡ ok rows → All P rows)
      → All P rows
  unfolding skip_if
  skip_if-All P true rest rows e each = subst (All P) (ok_inj e) tt
  skip_if-All P false rest rows e each = each refl e

  pub need-All {κ} :
      {X : Type 0} (P : Y → Type κ) (o : Option X) (rest : X → Result (List Y)) (rows : List Y)
      → need o rest ≡ ok rows
      → ((x : X) → o ≡ some x → rest x ≡ ok rows → All P rows)
      → All P rows
  unfolding need
  need-All P none rest rows e each = subst (All P) (ok_inj e) tt
  need-All P (some x) rest rows e each = each x refl e

  pub append_row-All {κ} :
      (P : Y → Type κ) (row : Result Y) (rows : List Y)
      → append_row row ≡ ok rows
      → ((y : Y) → row ≡ ok y → P y)
      → All P rows
  unfolding append_row
  append_row-All P row rows e each =
      let (y, e_y, rest) = >>=-eq-ok row _ e in subst (All P) (ok_inj rest) (each y e_y, tt)

-- Some `dict` that is listed has the property with the row.
abbrev pub IsListed : {F Y : Type 0} → (Fields F → Y → Type 0) → List (Json F) → Y → Type 0
IsListed P offers row =
    (i : ℕ) × (offer : Fields _) × (get_elem? offers i ≡ some (object offer)) × P offer row

module _ {F : Type 0} {Y : Type 0} where
  -- The same over offers that have to be `dict`s.
  pub collect-fields-All :
      (P : Fields F → Y → Type 0) (rows_of : Fields F → Result (List Y)) (offers : List (Json F))
      → ((offer : Fields F) (rows : List Y) → rows_of offer ≡ ok rows → All (P offer) rows)
      → (out : List Y) → collect (λ v. fields v >>= rows_of) offers ≡ ok out
      → All (IsListed P offers) out
  collect-fields-All P rows_of offers each = collect-All _ _ offers (λ i v rows at e.
      let (offer, e_offer, e_rows) = >>=-eq-ok (fields v) rows_of e in
      All-imp (P offer) _ (λ row p. (i, offer, at ∙ ap some (fields-object v offer e_offer), p))
        rows (each offer rows e_rows))
