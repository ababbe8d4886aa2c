-- ===== src/Ingestion/Energy/Transport.antt =====
-- core/ingestion/energy/ercot_transport.py, and how `ErcotMarket` of ercot.py finds its transport. The
-- clients of the two services are parameters; a transport that opens its client lazily keeps it.
-- `_get_iso` of the direct transport is such a client that needs no key.
pub mod Reports
use Prim.Native.String.{String}
use text.Mathlib.Text.{◌==◌ as str_eq}
use compute_quant_lab.Prelude.{
  ℕ, Bool, Option, none, some, List, [], ◌∷◌, if◌then◌else◌, ◌≡◌, refl, arith,
}
use compute_quant_lab.Prelude.Result.{
  Result, ok, err, ◌>>=◌, runtime_error, request_error, not_implemented_error,
}
use compute_quant_lab.Utils.Net.{Outcome, returned, raised, call_with_retry, default_max_retries}
use compute_quant_lab.Ingestion.Providers.{Environ, has_key}
use compute_quant_lab.Ingestion.Energy.Ercot.{Frame, column, ErcotTransport}

-- `DEFAULT_GRIDSTATUS_LIMIT`
abbrev pub default_gridstatus_limit : ℕ
default_gridstatus_limit = 10000

-- The arguments of `get_dataset` after its name.
pub record Query : Type 0 where
  pub start : String
  pub end : String
  pub filter : Option (String × String)
  pub limit : ℕ

-- A client of the hosted service: what each attempt at a query gives.
abbrev pub Client : Type 0 → Type 0
Client C = String → Query → ℕ → Outcome (Frame C)

pub record GridstatusIoTransport (C : Type 0) : Type 0 where
  pub api_key : Option String
  pub client : Option (Client C)
  pub limit : ℕ

abbrev pub truthy : Option String → Option String
truthy none = none
truthy (some s) = if str_eq s "" then none else some s

-- `a or b`
abbrev pub or_else : Option String → Option String → Option String
or_else none b = b
or_else (some a) b = some a

-- What the module takes from pandas and from the service.
pub record Hosted (C : Type 0) : Type 0 where
  pub grid_status_client : String → Client C
  -- `pd.Timestamp(ts).strftime("%Y-%m-%d")`
  pub date_str : ℕ → String
  -- `pd.to_datetime(column, utc=True)` and `astype(float)`
  pub utc_column : C → Result C
  pub float_column : C → Result C

module _ {C : Type 0} (hosted : Hosted C) where
  open hosted use {grid_status_client, date_str, utc_column, float_column}

  -- `GridstatusIoTransport.__init__`
  unfoldable pub make : Option String → Option (Client C) → Option ℕ → GridstatusIoTransport C
  make api_key client limit = record {
    api_key = api_key;
    client = client;
    limit = elim limit [ none ↦ default_gridstatus_limit | some n ↦ n ];
  }

  unfoldable pub get_client :
      Environ → GridstatusIoTransport C → Result (Client C × GridstatusIoTransport C)
  get_client env self = elim (self.client) [
    | some client ↦ ok (client, self)
    | none ↦ elim (or_else (truthy self.api_key) (truthy (env "GRIDSTATUS_API_KEY"))) [
      | none ↦ err runtime_error
      | some key ↦
          ok (grid_status_client key, record self { client = some (grid_status_client key) })
    ]
  ]

  -- The answer of the retried call; a call that is given up raises.
  abbrev pub answer : Option (Outcome (Frame C) × ℕ) → Result (Frame C)
  answer none = err request_error
  answer (some (returned df, n)) = ok df
  answer (some (raised failure, n)) = err request_error

  unfoldable pub get_dataset :
      Environ
      → GridstatusIoTransport C
      → String
      → Query
      → Result (Frame C × GridstatusIoTransport C)
  unfolding get_client call_with_retry
  get_dataset env self dataset query = do
    (client, self') ← get_client env self
    df ← answer (call_with_retry (client dataset query) default_max_retries)
    ok (df, self')

  -- A column of the answer under its canonical name.
  abbrev pub renamed : (C → Result C) → Frame C → String → String → Result (String × C)
  renamed convert df name canonical = do c ← column df name; c' ← convert c; ok (canonical, c')

  unfoldable pub hosted_rtm_to_canonical : Frame C → Result (Frame C)
  hosted_rtm_to_canonical df = do
    start ← renamed utc_column df "interval_start_utc" "Interval Start"
    end ← renamed utc_column df "interval_end_utc" "Interval End"
    location ← renamed ok df "location" "Location"
    spp ← renamed float_column df "spp" "SPP"
    ok (start ∷ end ∷ location ∷ spp ∷ [])

  -- The three forecasts, which differ in the column that they give.
  unfoldable pub published_to_canonical : String → String → Frame C → Result (Frame C)
  published_to_canonical name canonical df = do
    publish ← renamed utc_column df "publish_time_utc" "Publish Time"
    start ← renamed utc_column df "interval_start_utc" "Interval Start"
    end ← renamed utc_column df "interval_end_utc" "Interval End"
    value ← renamed float_column df name canonical
    ok (publish ∷ start ∷ end ∷ value ∷ [])

  abbrev pub hosted_forecast_to_canonical : Frame C → Result (Frame C)
  hosted_forecast_to_canonical = published_to_canonical "load_forecast" "System Total"

  abbrev pub hosted_adequacy_to_canonical : Frame C → Result (Frame C)
  hosted_adequacy_to_canonical =
      published_to_canonical "available_capacity_generation" "Available Capacity Generation"

  abbrev pub hosted_net_load_to_canonical : Frame C → Result (Frame C)
  hosted_net_load_to_canonical = published_to_canonical "net_load_forecast" "Net Load"

  -- One `fetch_…`: the frame, and the transport with its client.
  unfoldable pub fetch :
      String
      → (Frame C → Result (Frame C))
      → Option (String × String)
      → Environ
      → GridstatusIoTransport C
      → ℕ
      → ℕ
      → Result (Frame C × GridstatusIoTransport C)
  unfolding get_dataset
  fetch dataset canonical filter env self start end = do
    (raw, self') ←
        get_dataset env self dataset (record {
          start = date_str start;
          end = date_str end;
          filter = filter;
          limit = self.limit;
        })
    df ← canonical raw
    ok (df, self')

  abbrev pub fetch_rtm_spp :
      Environ
      → GridstatusIoTransport C
      → ℕ
      → ℕ
      → String
      → Result (Frame C × GridstatusIoTransport C)
  fetch_rtm_spp env self start end location =
      fetch "ercot_spp_real_time_15_min" hosted_rtm_to_canonical (some ("location", location)) env
        self start end

  abbrev pub fetch_load_forecast :
      Environ → GridstatusIoTransport C → ℕ → ℕ → Result (Frame C × GridstatusIoTransport C)
  fetch_load_forecast = fetch "ercot_load_forecast" hosted_forecast_to_canonical none

  abbrev pub fetch_system_adequacy :
      Environ → GridstatusIoTransport C → ℕ → ℕ → Result (Frame C × GridstatusIoTransport C)
  fetch_system_adequacy = fetch "ercot_short_term_system_adequacy" hosted_adequacy_to_canonical none

  abbrev pub fetch_net_load_forecast :
      Environ → GridstatusIoTransport C → ℕ → ℕ → Result (Frame C × GridstatusIoTransport C)
  fetch_net_load_forecast = fetch "ercot_net_load_forecast" hosted_net_load_to_canonical none

-- `ErcotMarket`: the transport that was given to it, and the one that it has found.
pub record ErcotMarket (T : Type 0) : Type 0 where
  pub injected : Option T
  pub resolved : Option T

module _ {T : Type 0} (hosted_transport direct_transport : T) where
  -- `ErcotMarket._transport`: the transport, and the market afterwards.
  unfoldable pub transport : Environ → ErcotMarket T → T × ErcotMarket T
  unfolding has_key
  transport env self = elim (self.injected) [
    | some given ↦ (given, self)
    | none ↦ elim (self.resolved) [
      | some found ↦ (found, self)
      | none ↦
          let found =
            if has_key env "GRIDSTATUS_API_KEY" then hosted_transport else direct_transport in
          (found, record self { resolved = some found })
    ]
  ]

  -- The market keeps its transport: once it was asked for, it is found again whatever the
  -- environment has become, and the market does not change any more.
  pub transport-kept :
      (env env' : Environ) (self : ErcotMarket T)
      → transport env' (transport env self).1 ≡ ((transport env self).0, (transport env self).1)
  unfolding transport
  transport-kept env env' self = ground arith
