-- ===== src/Tests/Ercot.antt =====
-- core/ingestion/energy/ercot.py: reports of whole numbers, one column for each list of them.
use compute_quant_lab.Prelude.{
  ℕ, zero, suc, ◌+◌, ◌≡◌, ◌≢◌, ◌≤◌, inl, inr, refl, Option, none, some, List, [], ◌∷◌, All,
  get_elem?, map, eqb, arith, Bool-cases, if◌then◌else◌,
}
use compute_quant_lab.Prelude.Float.{int_float}
use compute_quant_lab.Prelude.Int.{ℤ, pos, ◌-ℤ◌}
use compute_quant_lab.Prelude.Result.{ok, err, not_implemented_error, runtime_error}
use compute_quant_lab.Ingestion.Energy.Ercot.{
  zoned, Frame, Row, Pandas, LoadForecast, ErcotTransport, two_days, instants, parse_report,
  parse_load_forecast, parse_system_adequacy, latest_known_per_interval, reserve_forecast_as_of,
}
use compute_quant_lab.Ingestion.Energy.Ercot.AsOf.{
  left_of, IsJoined, IsPandas, IsForecast, reserve_forecast_as_of_lem,
}
use compute_quant_lab.Utils.Net.{Outcome, returned, raised, timeout}
use compute_quant_lab.Ingestion.Providers.{Environ}
use compute_quant_lab.Ingestion.Energy.Transport
use compute_quant_lab.Ingestion.Energy.Transport.{
  Client, GridstatusIoTransport, Hosted, get_client, get_dataset, published_to_canonical, fetch,
  fetch_load_forecast,
}

abbrev Column : Type 0
Column = List ℕ

abbrev find_at : {W : Type 0} → ℕ → List (Row W) → Option W
find_at start [] = none
find_at start (c ∷ cs) = if eqb c.interval_start start then some c.value else find_at start cs

abbrev with_match : {V W : Type 0} → List (Row W) → Row V → Row (V × Option W)
with_match others r = record {
  publish_time = r.publish_time;
  interval_start = r.interval_start;
  interval_end = r.interval_end;
  value = (r.value, find_at r.interval_start others);
}

abbrev left_join : {V W : Type 0} → List (Row V) → List (Row W) → List (Row (V × Option W))
left_join [] others = []
left_join (r ∷ rows) others = with_match others r ∷ left_join rows others

abbrev pandas : Pandas Column ℤ
pandas = record {
  to_datetime = λ c. ok (zoned c);
  to_float = λ c. ok (map (λ n. some (pos n)) c);
  to_text = λ c. [];
  select = λ mask c. c;
  localize = λ ts. ok ts;
  sort_index = λ rows. rows;
  sort_published = λ rows. rows;
  sort_starts = λ rows. rows;
  latest_rows = λ rows. rows;
  left_merge = left_join;
}

find_at-IsJoined :
    {W : Type 0} (Q : Row W → Type 0) (start : ℕ) (cs : List (Row W))
    → All Q cs
    → IsJoined Q start (find_at start cs)
find_at-IsJoined Q start [] h = tt
find_at-IsJoined Q start (c ∷ cs) (q, qs) = elim (Bool-cases (eqb c.interval_start start)) [
  | inl e ↦ rw e (c, q, ground arith, refl)
  | inr e ↦ rw e (find_at-IsJoined Q start cs qs)
]

find_at-none :
    {W : Type 0} (start : ℕ) (cs : List (Row W))
    → find_at start cs ≡ none
    → All (λ c. c.interval_start ≢ start) cs
find_at-none start [] e = tt
find_at-none start (c ∷ cs) e = elim (Bool-cases (eqb c.interval_start start)) [
  | inl same ↦ absurd (ground arith)
  | inr other ↦ (ground arith, find_at-none start cs (ground arith))
]

left_join-All :
    {V W : Type 0} (P : Row V → Type 0) (Q : Row W → Type 0) (rows : List (Row V))
    (others : List (Row W))
    → All P rows
    → All Q others
    → All (λ r. P (left_of r) × IsJoined Q r.interval_start r.value.1) (left_join rows others)
left_join-All P Q [] others h q = tt
left_join-All P Q (r ∷ rows) others (h, hs) q =
    ((h, find_at-IsJoined Q r.interval_start others q), left_join-All P Q rows others hs q)

left_join-absent :
    {V W : Type 0} (rows : List (Row V)) (others : List (Row W))
    → All
        (λ r. r.value.1 ≡ none → All (λ c. c.interval_start ≢ r.interval_start) others)
        (left_join rows others)
left_join-absent [] others = tt
left_join-absent (r ∷ rows) others =
    (find_at-none r.interval_start others, left_join-absent rows others)

left_join-get_elem? :
    {V W : Type 0} (rows : List (Row V)) (others : List (Row W)) (i : ℕ) (r : Row V)
    → get_elem? rows i ≡ some r
    → (j : ℕ) × (joined : Row (V × Option W)) × (get_elem? (left_join rows others) j ≡ some joined)
      × (left_of joined ≡ r)
left_join-get_elem? [] others i r e = absurd (cc)
left_join-get_elem? (x ∷ rows) others zero r e =
    let same : x ≡ r = cc in (0, with_match others x, refl, same)
left_join-get_elem? (x ∷ rows) others (suc i) r e =
    let (j, joined, found, same) = left_join-get_elem? rows others i r e in
    (suc j, joined, found, same)

pandas-IsPandas : IsPandas pandas
pandas-IsPandas = record {
  sort_starts-All = λ P rows h. h;
  sort_starts_cover = λ rows i r e. (i, e);
  latest_rows-All = λ P rows h. h;
  latest_rows_cover = λ rows i r e. (i, r, e, refl, omega arith);
  left_merge-All = left_join-All;
  left_merge_absent = left_join-absent;
  left_merge_cover = left_join-get_elem?;
}

-- The second load is published too late, and the second interval has no capacity yet.
abbrev load_frame : Frame Column
load_frame =
    ("Publish Time", two_days ∷ (two_days + 9) ∷ two_days ∷ [])
    ∷ ("Interval Start", 500 ∷ 500 ∷ 600 ∷ [])
    ∷ ("Interval End", 600 ∷ 600 ∷ 700 ∷ [])
    ∷ ("System Total", 40 ∷ 45 ∷ 50 ∷ [])
    ∷ []

abbrev cap_frame : Frame Column
cap_frame =
    ("Publish Time", two_days ∷ [])
    ∷ ("Interval Start", 500 ∷ [])
    ∷ ("Interval End", 600 ∷ [])
    ∷ ("Available Capacity Generation", 70 ∷ [])
    ∷ []

abbrev transport : ErcotTransport Column
transport = record {
  fetch_rtm_spp = λ start end location. err not_implemented_error;
  fetch_load_forecast = λ start end. ok load_frame;
  fetch_system_adequacy = λ start end. ok cap_frame;
  fetch_net_load_forecast = λ start end. err not_implemented_error;
}

abbrev forecast : Option ℤ → Option ℤ → Option ℤ → LoadForecast ℤ
forecast load capacity margin = record {
  forecast_load_mw = load;
  forecast_capacity_mw = capacity;
  reserve_margin_mw = margin;
}

abbrev row : {V : Type 0} → ℕ → ℕ → V → Row V
row published start value = record {
  publish_time = published;
  interval_start = start;
  interval_end = start + 100;
  value = value;
}

abbrev load_rows : List (Row (LoadForecast ℤ))
load_rows =
    row two_days 500 (forecast (some (pos 40)) none none)
    ∷ row (two_days + 9) 500 (forecast (some (pos 45)) none none)
    ∷ row two_days 600 (forecast (some (pos 50)) none none)
    ∷ []

abbrev cap_rows : List (Row (Option ℤ))
cap_rows = row two_days 500 (some (pos 70)) ∷ []

loads_read : parse_load_forecast pandas load_frame ≡ ok load_rows
unfolding parse_load_forecast instants
loads_read = refl

capacities_read : parse_system_adequacy pandas cap_frame ≡ ok cap_rows
unfolding parse_report instants
capacities_read = refl

forecast_run :
    reserve_forecast_as_of pandas transport (two_days + 5)
    ≡ ok (
        row two_days 500 (forecast (some (pos 40)) (some (pos 70)) (some (pos 30)))
        ∷ row two_days 600 (forecast (some (pos 50)) none none)
        ∷ [])
unfolding reserve_forecast_as_of parse_load_forecast parse_report instants latest_known_per_interval
    ◌-ℤ◌
forecast_run = refl

reserve_forecast_as_of_lem_example :
    (out : List (Row (LoadForecast ℤ))) × (reserve_forecast_as_of pandas transport (two_days + 5)
      ≡ ok out)
    × All (IsForecast load_rows cap_rows (two_days + 5)) out
    × ((i : ℕ) (l : Row (LoadForecast ℤ))
        → get_elem? load_rows i ≡ some l
        → l.publish_time ≤ two_days + 5
        → (j : ℕ) × (r : Row (LoadForecast ℤ)) × (get_elem? out j ≡ some r)
          × (r.interval_start ≡ l.interval_start)
          × (l.publish_time ≤ r.publish_time))
reserve_forecast_as_of_lem_example =
    reserve_forecast_as_of_lem pandas pandas-IsPandas transport (two_days + 5) load_frame cap_frame
      load_rows cap_rows (omega arith) refl loads_read refl capacities_read

-- The hosted service fails once and then answers.
abbrev hosted_frame : Frame Column
hosted_frame =
    ("publish_time_utc", 7 ∷ [])
    ∷ ("interval_start_utc", 500 ∷ [])
    ∷ ("interval_end_utc", 600 ∷ [])
    ∷ ("load_forecast", 40 ∷ [])
    ∷ []

abbrev attempt : ℕ → Outcome (Frame Column)
attempt zero = raised timeout
attempt (suc n) = returned hosted_frame

abbrev client : Client Column
client dataset query n = attempt n

abbrev hosted : Hosted Column
hosted = record {
  grid_status_client = λ key. client;
  date_str = λ t. "2026-06-01";
  utc_column = λ c. ok c;
  float_column = λ c. ok c;
}

abbrev no_environment : Environ
no_environment name = none

abbrev keyed : GridstatusIoTransport Column
keyed = record { api_key = some "k"; client = none; limit = 10000 }

abbrev connected : GridstatusIoTransport Column
connected = record { api_key = some "k"; client = some client; limit = 10000 }

abbrev canonical_frame : Frame Column
canonical_frame =
    ("Publish Time", 7 ∷ [])
    ∷ ("Interval Start", 500 ∷ [])
    ∷ ("Interval End", 600 ∷ [])
    ∷ ("System Total", 40 ∷ [])
    ∷ []

limit_kept : Transport.make hosted (some "k") none none ≡ keyed
unfolding Transport.make
limit_kept = refl

no_key :
    fetch_load_forecast hosted no_environment (Transport.make hosted (some "") none none) 0 9
    ≡ err runtime_error
unfolding fetch Transport.make
no_key = refl

fetched : fetch_load_forecast hosted no_environment keyed 0 9 ≡ ok (canonical_frame, connected)
unfolding fetch published_to_canonical
fetched = refl

hosted_rows :
    parse_load_forecast pandas canonical_frame
    ≡ ok (row 7 500 (forecast (some (pos 40)) none none) ∷ [])
unfolding parse_load_forecast instants
hosted_rows = refl
