-- ===== src/Ingestion/Energy/Ercot/AsOf.antt =====
-- core/ingestion/energy/ercot.py, `reserve_forecast_as_of`: nothing published later enters.
use compute_quant_lab.Prelude.{
  ℕ, zero, suc, ◌+◌, ◌-◌, ◌≡◌, ◌≢◌, ◌≤◌, ◌⊎◌, inl, inr, refl, sym, ap, ◌∙◌, true, false, Option,
  none, some, List, [], ◌∷◌, All, All-imp, All-get_elem?, get_elem?, keep, keep-All, keep_passes,
  keep-get_elem?, leb, ltb, map, arith,
}
use mathlib.Core.Path.{subst}
use compute_quant_lab.Prelude.Float.{Float}
use compute_quant_lab.Prelude.Result.{ok}
use compute_quant_lab.Features.{minus}
use compute_quant_lab.Ingestion.Energy.Ercot.{
  Frame, Row, Pandas, LoadForecast, ErcotTransport, two_days, known_at, latest_of,
  parse_load_forecast, parse_system_adequacy, latest_known_per_interval, joined,
  reserve_forecast_as_of,
}

-- A row of a join without what was joined to it.
abbrev pub left_of : {V W : Type 0} → Row (V × Option W) → Row V
left_of r = record {
  publish_time = r.publish_time;
  interval_start = r.interval_start;
  interval_end = r.interval_end;
  value = r.value.0;
}

-- What was joined is nothing, or the value of a row of the same interval.
abbrev pub IsJoined : {W : Type 0} → (Row W → Type 0) → ℕ → Option W → Type 0
IsJoined Q start none = Unit
IsJoined {W} Q start (some w) = (c : Row W) × Q c × (c.interval_start ≡ start) × (c.value ≡ w)

-- What pandas documents: a sort only moves the rows, `idxmax` gives for each group one of its rows
-- with the largest `publish_time`, and a left join keeps each row of the left, with a row of the
-- right of the same interval where there is one.
pub record IsPandas {C F : Type 0} (pandas : Pandas C F) : Type 1 where
  pub sort_starts-All :
      {V : Type 0} (P : Row V → Type 0) (rows : List (Row V))
      → All P rows
      → All P (pandas.sort_starts rows)
  pub sort_starts_cover :
      {V : Type 0} (rows : List (Row V)) (i : ℕ) (r : Row V)
      → get_elem? rows i ≡ some r
      → (j : ℕ) × (get_elem? (pandas.sort_starts rows) j ≡ some r)
  pub latest_rows-All :
      {V : Type 0} (P : Row V → Type 0) (rows : List (Row V))
      → All P rows
      → All P (pandas.latest_rows rows)
  pub latest_rows_cover :
      {V : Type 0} (rows : List (Row V)) (i : ℕ) (r : Row V)
      → get_elem? rows i ≡ some r
      → (j : ℕ) × (s : Row V) × (get_elem? (pandas.latest_rows rows) j ≡ some s)
        × (s.interval_start ≡ r.interval_start)
        × (r.publish_time ≤ s.publish_time)
  pub left_merge-All :
      {V W : Type 0} (P : Row V → Type 0) (Q : Row W → Type 0) (rows : List (Row V))
      (others : List (Row W))
      → All P rows
      → All Q others
      → All
          (λ r. P (left_of r) × IsJoined Q r.interval_start r.value.1)
          (pandas.left_merge rows others)
  pub left_merge_absent :
      {V W : Type 0} (rows : List (Row V)) (others : List (Row W))
      → All
          (λ r. r.value.1 ≡ none → All (λ c. c.interval_start ≢ r.interval_start) others)
          (pandas.left_merge rows others)
  pub left_merge_cover :
      {V W : Type 0} (rows : List (Row V)) (others : List (Row W)) (i : ℕ) (r : Row V)
      → get_elem? rows i ≡ some r
      → (j : ℕ) × (joined : Row (V × Option W)) × (get_elem? (pandas.left_merge rows others) j
          ≡ some joined)
        × (left_of joined ≡ r)

-- A row of the report that was published by `as_of`.
abbrev pub IsKnown : {V : Type 0} → List (Row V) → ℕ → Row V → Type 0
IsKnown rows as_of r = (i : ℕ) × (get_elem? rows i ≡ some r) × (r.publish_time ≤ as_of)

entries-All : {V : Type 0} (rows : List V) → All (λ r. (i : ℕ) × (get_elem? rows i ≡ some r)) rows
entries-All [] = tt
entries-All (x ∷ rows) = (
  (0, refl),
  All-imp (λ r. (i : ℕ) × (get_elem? rows i ≡ some r))
      (λ r. (i : ℕ) × (get_elem? (x ∷ rows) i ≡ some r)) (λ r found. (suc found.0, found.1)) rows
      (entries-All rows),
)

map-All :
    {A B : Type 0} (f : A → B) (P : B → Type 0) (xs : List A)
    → All (λ x. P (f x)) xs
    → All P (map f xs)
map-All f P [] h = tt
map-All f P (x ∷ xs) (h, hs) = (h, map-All f P xs hs)

map-get_elem? :
    {A B : Type 0} (f : A → B) (xs : List A) (i : ℕ) (x : A)
    → get_elem? xs i ≡ some x
    → get_elem? (map f xs) i ≡ some (f x)
map-get_elem? f [] i x e = absurd (cc)
map-get_elem? f (y ∷ xs) zero x e = cc
map-get_elem? f (y ∷ xs) (suc i) x e = map-get_elem? f xs i x e

All-both :
    {V : Type 0} (P Q : V → Type 0) (xs : List V) → All P xs → All Q xs → All (λ x. P x × Q x) xs
All-both P Q [] p q = tt
All-both P Q (x ∷ xs) (p, ps) (q, qs) = ((p, q), All-both P Q xs ps qs)

known_at-IsKnown :
    {V : Type 0} (rows : List (Row V)) (as_of : ℕ) → All (IsKnown rows as_of) (known_at as_of rows)
known_at-IsKnown rows as_of =
    let p = λ (r : Row _). leb r.publish_time as_of in
    All-imp (λ r. ((i : ℕ) × (get_elem? rows i ≡ some r)) × (p r ≡ true)) (IsKnown rows as_of)
      (λ r h. (h.0.0, h.0.1, ground (arith, h.1))) (keep p rows)
      (All-both (λ r. (i : ℕ) × (get_elem? rows i ≡ some r)) (λ r. p r ≡ true) (keep p rows)
        (keep-All (λ r. (i : ℕ) × (get_elem? rows i ≡ some r)) p rows (entries-All rows))
        (keep_passes p rows))

module _ {F : Type 0} ⦃float : Float F⦄ where
  -- What a row of the forecast stands for: a load that was published by `as_of`, with the margin
  -- of a capacity that was published by then for the same interval, or with none if there was none.
  pub record IsForecast (load : List (Row (LoadForecast F))) (cap : List (Row (Option F)))
      (as_of : ℕ) (r : Row (LoadForecast F)) : Type 0 where
    pub from_load :
        (l : Row (LoadForecast F)) × IsKnown load as_of l
        × (r.publish_time ≡ l.publish_time)
        × (r.interval_start ≡ l.interval_start)
        × (r.value.forecast_load_mw ≡ l.value.forecast_load_mw)
    pub from_capacity :
        ((c : Row (Option F)) × IsKnown cap as_of c
          × (c.interval_start ≡ r.interval_start)
          × (c.value ≡ r.value.forecast_capacity_mw))
        ⊎ ((r.value.forecast_capacity_mw ≡ none)
            × ((j : ℕ) (c : Row (Option F))
                → get_elem? cap j ≡ some c
                → c.publish_time ≤ as_of
                → c.interval_start ≢ r.interval_start))
    pub margin :
        r.value.reserve_margin_mw ≡ minus r.value.forecast_capacity_mw r.value.forecast_load_mw

module _ {C F : Type 0} ⦃float : Float F⦄ (pandas : Pandas C F) (laws : IsPandas pandas) where
  open laws use {latest_rows-All, latest_rows_cover}

  latest_of-All :
      {V : Type 0} (P : Row V → Type 0) (rows : List (Row V))
      → All P rows
      → All P (latest_of pandas rows)
  latest_of-All P [] h = tt
  latest_of-All P (r ∷ rows) h = latest_rows-All P (r ∷ rows) h

  latest_of_cover :
      {V : Type 0} (rows : List (Row V)) (i : ℕ) (r : Row V)
      → get_elem? rows i ≡ some r
      → (j : ℕ) × (s : Row V) × (get_elem? (latest_of pandas rows) j ≡ some s)
        × (s.interval_start ≡ r.interval_start)
        × (r.publish_time ≤ s.publish_time)
  latest_of_cover [] i r e = absurd (cc)
  latest_of_cover (x ∷ rows) i r e = latest_rows_cover (x ∷ rows) i r e

  newest-IsKnown :
      {V : Type 0} (rows : List (Row V)) (as_of : ℕ)
      → All (IsKnown rows as_of) (latest_known_per_interval pandas rows as_of)
  unfolding latest_known_per_interval
  newest-IsKnown rows as_of =
      latest_of-All (IsKnown rows as_of) (known_at as_of rows) (known_at-IsKnown rows as_of)

  newest_cover :
      {V : Type 0} (rows : List (Row V)) (as_of i : ℕ) (r : Row V)
      → get_elem? rows i ≡ some r
      → r.publish_time ≤ as_of
      → (j : ℕ) × (s : Row V) × (get_elem? (latest_known_per_interval pandas rows as_of) j ≡ some s)
        × (s.interval_start ≡ r.interval_start)
        × (r.publish_time ≤ s.publish_time)
  unfolding latest_known_per_interval
  newest_cover rows as_of i r e h =
      let (k, e') = keep-get_elem? (λ r. leb r.publish_time as_of) rows i r e (ground arith) in
      latest_of_cover (known_at as_of rows) k r e'

  -- No known capacity is left if none of the latest ones has the interval.
  none_known :
      (cap : List (Row (Option F))) (as_of start : ℕ)
      → All (λ c. c.interval_start ≢ start) (latest_known_per_interval pandas cap as_of)
      → (j : ℕ) (c : Row (Option F)) → get_elem? cap j ≡ some c
      → c.publish_time ≤ as_of
      → c.interval_start ≢ start
  none_known cap as_of start h j c e known same =
      let (k, s, e', start_s, _) = newest_cover cap as_of j c e known in
      All-get_elem? (λ c. c.interval_start ≢ start) (latest_known_per_interval pandas cap as_of) k s
        h e' (start_s ∙ same)

  joined-IsForecast :
      (load : List (Row (LoadForecast F))) (cap : List (Row (Option F))) (as_of : ℕ)
      (publish start end : ℕ) (forecast : LoadForecast F) (capacity : Option (Option F))
      → let r : Row (LoadForecast F × Option (Option F)) = record {
        publish_time = publish;
        interval_start = start;
        interval_end = end;
        value = (forecast, capacity);
      } in
        IsKnown load as_of (left_of r)
        → IsJoined (IsKnown cap as_of) start capacity
        → (capacity ≡ none
            → All (λ c. c.interval_start ≢ start) (latest_known_per_interval pandas cap as_of))
        → IsForecast load cap as_of (joined pandas r)
  joined-IsForecast load cap as_of publish start end forecast none known j absent = record {
    from_load = (
      left_of {W = Option F} (record {
        publish_time = publish;
        interval_start = start;
        interval_end = end;
        value = (forecast, none);
      }),
      known,
      refl,
      refl,
      refl,
    );
    from_capacity = inr (refl, none_known cap as_of start (absent refl));
    margin = refl;
  }
  joined-IsForecast load cap as_of publish start end forecast (some x) known (c, k, same, is)
        absent =
      record {
        from_load = (
          left_of {W = Option F} (record {
            publish_time = publish;
            interval_start = start;
            interval_end = end;
            value = (forecast, some x);
          }),
          known,
          refl,
          refl,
          refl,
        );
        from_capacity = inl (c, k, same, is);
        margin = refl;
      }

  -- With an `as_of` late enough for its window, and two reports that are read, there is a forecast.
  -- Each of its rows is a load that was published by `as_of`. Its capacity is one that was published
  -- by then for the same interval, and its margin that capacity less the load; both are NaN if no
  -- such capacity is known. For each load that was published by `as_of` there is a row of its
  -- interval that was published no earlier. All this given what pandas documents.
  pub reserve_forecast_as_of_lem :
      (transport : ErcotTransport C) (as_of : ℕ) (load_frame cap_frame : Frame C)
      (load : List (Row (LoadForecast F))) (cap : List (Row (Option F)))
      → two_days ≤ as_of
      → transport.fetch_load_forecast (as_of - two_days) (as_of + two_days) ≡ ok load_frame
      → parse_load_forecast pandas load_frame ≡ ok load
      → transport.fetch_system_adequacy (as_of - two_days) (as_of + two_days) ≡ ok cap_frame
      → parse_system_adequacy pandas cap_frame ≡ ok cap
      → (out : List (Row (LoadForecast F))) × (reserve_forecast_as_of pandas transport as_of
          ≡ ok out)
        × All (IsForecast load cap as_of) out
        × ((i : ℕ) (l : Row (LoadForecast F))
            → get_elem? load i ≡ some l
            → l.publish_time ≤ as_of
            → (j : ℕ) × (r : Row (LoadForecast F)) × (get_elem? out j ≡ some r)
              × (r.interval_start ≡ l.interval_start)
              × (l.publish_time ≤ r.publish_time))
  unfolding reserve_forecast_as_of
  reserve_forecast_as_of_lem transport as_of load_frame cap_frame load cap late e₁ e₂ e₃ e₄ =
      let loads = latest_known_per_interval pandas load as_of in
      let caps = latest_known_per_interval pandas cap as_of in
      let merged = pandas.left_merge loads caps in
      let in_time : ltb as_of two_days ≡ false = ground arith in
      let sound =
        laws.left_merge-All (IsKnown load as_of) (IsKnown cap as_of) loads caps
          (newest-IsKnown load as_of) (newest-IsKnown cap as_of) in
      let forecasts =
        All-imp _ (λ r. IsForecast load cap as_of (joined pandas r))
          (λ r h.
            joined-IsForecast load cap as_of r.publish_time r.interval_start r.interval_end
              r.value.0 r.value.1 h.0.0 h.0.1 h.1)
          merged (All-both _ _ merged sound (laws.left_merge_absent loads caps)) in
      (
        pandas.sort_starts (map (joined pandas) merged),
        rw (in_time, e₁, e₂, e₃, e₄) refl,
        laws.sort_starts-All (IsForecast load cap as_of) (map (joined pandas) merged)
            (map-All (joined pandas) (IsForecast load cap as_of) merged forecasts),
        λ i l e known.
            let (j, s, e', same, later) = newest_cover load as_of i l e known in
            let (k, r, e'', left) = laws.left_merge_cover loads caps j s e' in
            let (m, found) =
              laws.sort_starts_cover (map (joined pandas) merged) k (joined pandas r)
                (map-get_elem? (joined pandas) merged k r e'') in
            (
              m,
              joined pandas r,
              found,
              ap (λ (r : Row _). r.interval_start) left ∙ same,
              subst (λ p. l.publish_time ≤ p) (sym (ap (λ (r : Row _). r.publish_time) left)) later,
            ),
      )
