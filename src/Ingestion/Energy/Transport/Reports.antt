-- ===== src/Ingestion/Energy/Transport/Reports.antt =====
-- core/ingestion/energy/ercot_transport.py under ercot.py: the load report of the hosted service.
use Prim.Native.String.{String}
use compute_quant_lab.Prelude.{
  ℕ, zero, suc, ◌≡◌, refl, Option, none, List, [], ◌∷◌, All, length, replicate, arith,
}
use mathlib.Core.Path.{subst}
use compute_quant_lab.Prelude.Float.{Float}
use compute_quant_lab.Prelude.Result.{ok, >>=-eq-ok}
use compute_quant_lab.Ingestion.Providers.{Environ}
use compute_quant_lab.Ingestion.Energy.Ercot.{
  Frame, Row, Pandas, LoadForecast, names, column, rows_of, load_forecasts, instants, capacities,
  parse_load_forecast,
}
use compute_quant_lab.Ingestion.Energy.Transport.{
  GridstatusIoTransport, Hosted, get_dataset, published_to_canonical, hosted_forecast_to_canonical,
  fetch, fetch_load_forecast,
}

-- A forecast with no capacity, and so with no margin.
abbrev pub IsUnreserved : {F : Type 0} → LoadForecast F → Type 0
IsUnreserved l = (l.forecast_capacity_mw ≡ none) × (l.reserve_margin_mw ≡ none)

rows_of-All :
    {V : Type 0} (P : V → Type 0) (ps ss es : List ℕ) (vs : List V)
    → All P vs
    → All (λ r. P r.value) (rows_of ps ss es vs)
rows_of-All P [] ss es vs h = tt
rows_of-All P (p ∷ ps) [] es vs h = tt
rows_of-All P (p ∷ ps) (s ∷ ss) [] vs h = tt
rows_of-All P (p ∷ ps) (s ∷ ss) (e ∷ es) [] h = tt
rows_of-All P (p ∷ ps) (s ∷ ss) (e ∷ es) (v ∷ vs) (h, hs) = (h, rows_of-All P ps ss es vs hs)

module _ {F : Type 0} ⦃float : Float F⦄ where
  load_forecasts-IsUnreserved :
      (loads : List (Option F)) (n : ℕ) → All IsUnreserved (load_forecasts loads (replicate n none))
  load_forecasts-IsUnreserved [] n = tt
  load_forecasts-IsUnreserved (l ∷ loads) zero = tt
  load_forecasts-IsUnreserved (l ∷ loads) (suc n) =
      ((refl, refl), load_forecasts-IsUnreserved loads n)

module _ {C F : Type 0} ⦃float : Float F⦄ (hosted : Hosted C) (pandas : Pandas C F) where
  published_names :
      (name canonical : String) (raw df : Frame C)
      → published_to_canonical hosted name canonical raw ≡ ok df
      → names df ≡ "Publish Time" ∷ "Interval Start" ∷ "Interval End" ∷ canonical ∷ []
  unfolding published_to_canonical
  published_names name canonical raw df e = ground arith

  no_capacities :
      (df : Frame C) (n : ℕ)
      → names df ≡ "Publish Time" ∷ "Interval Start" ∷ "Interval End" ∷ "System Total" ∷ []
      → capacities pandas df n ≡ ok (replicate n none)
  no_capacities df n named = rw named refl

  -- The load report of the hosted service has no capacity, and none is made up: in every row that
  -- is read from it, the capacity and the margin are NaN, given that a sort only moves the rows.
  pub parse_load_forecast-fetch :
      ((P : Row (LoadForecast F) → Type 0) (rows : List (Row (LoadForecast F)))
        → All P rows
        → All P (pandas.sort_published rows))
      → (env : Environ) (self self' : GridstatusIoTransport C) (start end : ℕ) (df : Frame C)
        (rows : List (Row (LoadForecast F)))
      → fetch_load_forecast hosted env self start end ≡ ok (df, self')
      → parse_load_forecast pandas df ≡ ok rows
      → All (λ r. IsUnreserved r.value) rows
  unfolding fetch parse_load_forecast
  parse_load_forecast-fetch moves env self self' start end df rows fetched parsed =
      let ((raw, kept), _, rest) =
        >>=-eq-ok (get_dataset hosted env self "ercot_load_forecast" _) _ fetched in
      let (frame, canonical, done) = >>=-eq-ok (hosted_forecast_to_canonical hosted raw) _ rest in
      let same : frame ≡ df = ground (arith, done) in
      let named : names df
          ≡ "Publish Time" ∷ "Interval Start" ∷ "Interval End" ∷ "System Total" ∷ [] =
        rw⁻¹ same (published_names "load_forecast" "System Total" raw frame canonical) in
      let (published, _, p₁) = >>=-eq-ok (instants pandas df "Publish Time") _ parsed in
      let (starts, _, p₂) = >>=-eq-ok (instants pandas df _) _ p₁ in
      let (ends, _, p₃) = >>=-eq-ok (instants pandas df "Interval End") _ p₂ in
      let (c, _, p₄) = >>=-eq-ok (column df _) _ p₃ in
      let (loads, _, p₅) = >>=-eq-ok (pandas.to_float c) _ p₄ in
      let (caps, made, p₆) = >>=-eq-ok (capacities pandas df (length loads)) _ p₅ in
      let absent : caps ≡ replicate (length loads) none =
        ground (arith, made, no_capacities df (length loads) named) in
      let read : pandas.sort_published (rows_of published starts ends (load_forecasts loads caps))
          ≡ rows =
        ground (arith, p₆) in
      subst (All (λ r. IsUnreserved r.value)) read (
        moves (λ r. IsUnreserved r.value)
          (rows_of published starts ends (load_forecasts loads caps))
          (rows_of-All IsUnreserved published starts ends (load_forecasts loads caps)
            (rw absent (load_forecasts-IsUnreserved loads (length loads)))))
