-- ===== src/Ingestion/Energy/Ercot.antt =====
-- core/ingestion/energy/ercot.py: the parsers of the reports, and the market of Texas. A data frame is
-- the list of its named columns; what pandas does with a column or with rows is a parameter.
pub mod AsOf
use Prim.Native.String.{String}
use text.Mathlib.Text.{◌==◌ as str_eq}
use compute_quant_lab.Prelude.{
  ℕ, ◌-◌, ◌+◌, Bool, Option, none, some, List, [], ◌∷◌, any, keep, map, length, replicate, leb, ltb,
  not, if◌then◌else◌,
}
use compute_quant_lab.Prelude.Float.{Float}
use compute_quant_lab.Prelude.Result.{
  Result, ok, err, ◌>>=◌, ◌>>◌, raise_if, key_error, value_error, overflow_error,
}
use compute_quant_lab.Features.{minus}
use compute_quant_lab.Ingestion.ComputeIndex.{mem}

-- Instants as pandas reads them: without a zone, or with one, which fixes them in UTC.
pub data Times : Type 0 where
  naive : List ℕ → Times
  zoned : List ℕ → Times

abbrev pub Frame : Type 0 → Type 0
Frame C = List (String × C)

-- One row of a report: when it was published, for which interval, and what it says.
pub record Row (V : Type 0) : Type 0 where
  pub publish_time : ℕ
  pub interval_start : ℕ
  pub interval_end : ℕ
  pub value : V

pub record Pandas (C F : Type 0) : Type 1 where
  -- `pd.to_datetime`, `astype(float)` and the texts of a column
  pub to_datetime : C → Result Times
  pub to_float : C → Result (List (Option F))
  pub to_text : C → List String
  -- the entries where a mask holds
  pub select : List Bool → C → C
  -- `tz_localize("US/Central", …)`, as instants of UTC
  pub localize : List ℕ → Result (List ℕ)
  pub sort_index : List (ℕ × Option F) → List (ℕ × Option F)
  -- `sort_values(["publish_time", "interval_start"])` and `sort_values("interval_start")`
  pub sort_published : {V : Type 0} → List (Row V) → List (Row V)
  pub sort_starts : {V : Type 0} → List (Row V) → List (Row V)
  -- `df.loc[df.groupby("interval_start")["publish_time"].idxmax()]`
  pub latest_rows : {V : Type 0} → List (Row V) → List (Row V)
  -- `merge(…, on="interval_start", how="left")`
  pub left_merge : {V W : Type 0} → List (Row V) → List (Row W) → List (Row (V × Option W))

pub record LoadForecast (F : Type 0) : Type 0 where
  pub forecast_load_mw : Option F
  pub forecast_capacity_mw : Option F
  pub reserve_margin_mw : Option F

-- What a transport answers.
pub record ErcotTransport (C : Type 0) : Type 0 where
  pub fetch_rtm_spp : ℕ → ℕ → String → Result (Frame C)
  pub fetch_load_forecast : ℕ → ℕ → Result (Frame C)
  pub fetch_system_adequacy : ℕ → ℕ → Result (Frame C)
  pub fetch_net_load_forecast : ℕ → ℕ → Result (Frame C)

-- `_ASOF_FETCH_LOOKBACK` and `_ASOF_FETCH_HORIZON`: two days of microseconds.
abbrev pub two_days : ℕ
two_days = 172800000000

abbrev pub names : {C : Type 0} → Frame C → List String
names df = map (λ entry. entry.0) df

-- `df[name]`
abbrev pub column : {C : Type 0} → Frame C → String → Result C
column [] name = err key_error
column ((n, c) ∷ df) name = if str_eq n name then ok c else column df name

-- `df.columns[-1]`, of a frame that has columns
abbrev pub last_name : List String → String
last_name [] = ""
last_name (n ∷ []) = n
last_name (n ∷ n' ∷ ns) = last_name (n' ∷ ns)

abbrev pub time_column : {C : Type 0} → Frame C → String
time_column df = if mem "Interval Start" (names df) then "Interval Start" else "Time"

-- The columns of a frame put together, row by row.
abbrev pub rows_of : {V : Type 0} → List ℕ → List ℕ → List ℕ → List V → List (Row V)
rows_of [] starts ends values = []
rows_of (p ∷ ps) [] ends values = []
rows_of (p ∷ ps) (s ∷ ss) [] values = []
rows_of (p ∷ ps) (s ∷ ss) (e ∷ es) [] = []
rows_of (p ∷ ps) (s ∷ ss) (e ∷ es) (v ∷ vs) =
    record { publish_time = p; interval_start = s; interval_end = e; value = v }
    ∷ rows_of ps ss es vs

-- `_latest_known_per_interval`, its first step
abbrev pub known_at : {V : Type 0} → ℕ → List (Row V) → List (Row V)
known_at as_of rows = keep (λ r. leb r.publish_time as_of) rows

module _ {F : Type 0} ⦃float : Float F⦄ where
  abbrev pub load_forecast : Option F → Option F → LoadForecast F
  load_forecast load capacity = record {
    forecast_load_mw = load;
    forecast_capacity_mw = capacity;
    reserve_margin_mw = minus capacity load;
  }

  abbrev pub load_forecasts : List (Option F) → List (Option F) → List (LoadForecast F)
  load_forecasts [] capacities = []
  load_forecasts (l ∷ ls) [] = []
  load_forecasts (l ∷ ls) (c ∷ cs) = load_forecast l c ∷ load_forecasts ls cs

  -- `diff()`: the change from each entry to the next, NaN for the first.
  abbrev pub ramp : Option F → List (Option F) → List (Option F)
  ramp before [] = []
  ramp before (x ∷ xs) = minus x before ∷ ramp x xs

module _ {C F : Type 0} ⦃float : Float F⦄ (pandas : Pandas C F) where
  open pandas use {
    to_datetime, to_float, to_text, select, localize, sort_index, sort_published, sort_starts,
    latest_rows, left_merge,
  }

  -- `_to_utc(pd.to_datetime(df[name]))`
  abbrev pub to_utc : Times → Result (List ℕ)
  to_utc (naive ts) = localize ts
  to_utc (zoned ts) = ok ts

  unfoldable pub instants : Frame C → String → Result (List ℕ)
  instants df name = do c ← column df name; times ← to_datetime c; to_utc times

  unfoldable pub parse_rtm_spp : Frame C → String → Result (List (ℕ × Option F))
  parse_rtm_spp df location = do
    locations ←
        (if mem "Location" (names df) then (do c ← column df "Location"; ok (to_text c)) else ok [])
    raise_if (not (mem location locations)) value_error
    let mask = map (λ l. str_eq l location) locations
    times ← column df (time_column df)
    stamps ← to_datetime (select mask times)
    idx ← to_utc stamps
    prices ← column df "SPP"
    values ← to_float (select mask prices)
    ok (sort_index (pairs idx values))
    where
      pairs : List ℕ → List (Option F) → List (ℕ × Option F)
      pairs [] vs = []
      pairs (t ∷ ts) [] = []
      pairs (t ∷ ts) (v ∷ vs) = (t, v) ∷ pairs ts vs

  -- The body that `parse_system_adequacy` and `parse_net_load_forecast` share, up to the column.
  unfoldable pub parse_report : String → Frame C → Result (List (Row (Option F)))
  parse_report name df = do
    published ← instants df "Publish Time"
    starts ← instants df (time_column df)
    ends ← instants df "Interval End"
    c ← column df name
    values ← to_float c
    ok (sort_published (rows_of published starts ends values))

  abbrev pub parse_system_adequacy : Frame C → Result (List (Row (Option F)))
  parse_system_adequacy = parse_report "Available Capacity Generation"

  abbrev pub parse_net_load_forecast : Frame C → Result (List (Row (Option F)))
  parse_net_load_forecast = parse_report "Net Load"

  -- The capacities of a load report: from a column that gives them, or NaN.
  abbrev pub capacities : Frame C → ℕ → Result (List (Option F))
  capacities df n =
      if mem "forecast_capacity_mw" (names df)
      then (do c ← column df "forecast_capacity_mw"; to_float c)
      else if mem "Available Capacity" (names df)
      then (do c ← column df "Available Capacity"; to_float c)
      else ok (replicate n none)

  unfoldable pub parse_load_forecast : Frame C → Result (List (Row (LoadForecast F)))
  parse_load_forecast df = do
    published ← instants df "Publish Time"
    starts ← instants df (time_column df)
    ends ← instants df "Interval End"
    c ← column df (if mem "System Total" (names df) then "System Total" else last_name (names df))
    loads ← to_float c
    caps ← capacities df (length loads)
    ok (sort_published (rows_of published starts ends (load_forecasts loads caps)))

  -- `_latest_known_per_interval`: the rows known, as they are if there are none.
  abbrev pub latest_of : {V : Type 0} → List (Row V) → List (Row V)
  latest_of [] = []
  latest_of (r ∷ rs) = latest_rows (r ∷ rs)

  unfoldable pub latest_known_per_interval : {V : Type 0} → List (Row V) → ℕ → List (Row V)
  latest_known_per_interval rows as_of = latest_of (known_at as_of rows)

  -- One row of the join: the load, the capacity if there is one, and the margin.
  abbrev pub joined : Row (LoadForecast F × Option (Option F)) → Row (LoadForecast F)
  joined r = record {
    publish_time = r.publish_time;
    interval_start = r.interval_start;
    interval_end = r.interval_end;
    value =
        load_forecast r.value.0.forecast_load_mw (elim (r.value.1) [ none ↦ none | some c ↦ c ]);
  }

  unfoldable pub rtm_price : ErcotTransport C → ℕ → ℕ → String → Result (List (ℕ × Option F))
  rtm_price transport start end location = do
    df ← transport.fetch_rtm_spp start end location
    parse_rtm_spp df location

  unfoldable pub reserve_forecast : ErcotTransport C → ℕ → ℕ → Result (List (Row (LoadForecast F)))
  reserve_forecast transport start end = do
    df ← transport.fetch_load_forecast start end
    parse_load_forecast df

  unfoldable pub reserve_forecast_as_of :
      ErcotTransport C → ℕ → Result (List (Row (LoadForecast F)))
  reserve_forecast_as_of transport as_of = do
    raise_if (ltb as_of two_days) overflow_error
    load_frame ← transport.fetch_load_forecast (as_of - two_days) (as_of + two_days)
    load ← parse_load_forecast load_frame
    cap_frame ← transport.fetch_system_adequacy (as_of - two_days) (as_of + two_days)
    cap ← parse_system_adequacy cap_frame
    let out =
        left_merge (latest_known_per_interval load as_of) (latest_known_per_interval cap as_of)
    ok (sort_starts (map joined out))

  -- The rows with the net load of each, and its ramp.
  unfoldable pub net_load_gradient_as_of :
      ErcotTransport C → ℕ → Result (List (Row (Option F)) × List (Option F))
  net_load_gradient_as_of transport as_of = do
    raise_if (ltb as_of two_days) overflow_error
    frame ← transport.fetch_net_load_forecast (as_of - two_days) (as_of + two_days)
    rows ← parse_net_load_forecast frame
    let out = sort_starts (latest_known_per_interval rows as_of)
    ok (out, ramp none (map (λ r. r.value) out))
