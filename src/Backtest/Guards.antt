-- ===== src/Backtest/Guards.antt =====
-- core/backtest/guards.py, `GuardedView`, and the interface that it implements,
-- core/backtest/protocols.py, `PointInTimeView`.
use compute_quant_lab.Prelude.{
  ℕ, ◌+◌, ◌≡◌, refl, some, List, take, length, get_elem?, not, arith, ◌<◌, ◌≤◌, get_elem?-lt, ◌&&◌,
}
use compute_quant_lab.Prelude.Int.{ℤ, pos, negsuc, ltb_ℤ, leb_ℤ, pos_part}
use compute_quant_lab.Prelude.Result.{
  Result, ok, err, ◌>>◌, raise_if, or_raise, index_error, look_ahead_error,
}

-- All that a strategy can call on a view.
pub record PointInTimeView (F : Type 0) : Type 0 where
  pub t : ℕ
  pub history : List F
  pub latest : Result F
  pub at : ℤ → Result F

pub record GuardedView (F : Type 0) : Type 0 where
  pub series : List F
  pub t : ℕ

module _ {F : Type 0} where
  -- `GuardedView.__init__`
  unfoldable pub make : List F → ℤ → Result (GuardedView F)
  make series t = do
    raise_if (not (leb_ℤ (pos 0) t && ltb_ℤ t (pos (length series)))) index_error
    ok (record { series = series; t = pos_part t })

  unfoldable pub history : GuardedView F → List F
  history v = take (v.t + 1) v.series

  unfoldable pub latest : GuardedView F → Result F
  latest v = or_raise (get_elem? v.series v.t) index_error

  unfoldable pub at : GuardedView F → ℤ → Result F
  at v i = do
    raise_if (ltb_ℤ i (pos 0)) index_error
    raise_if (ltb_ℤ (pos v.t) i) look_ahead_error
    or_raise (get_elem? v.series (pos_part i)) index_error

  -- The view as a strategy sees it.
  unfoldable pub view : GuardedView F → PointInTimeView F
  unfolding history latest at
  view v = record { t = v.t; history = history v; latest = latest v; at = at v }

  make_lem :
      (series : List F) (t : ℕ) {v : GuardedView F}
      → make series (pos t) ≡ ok v
      → (t < length series) × (v.series ≡ series) × (v.t ≡ t)
  unfolding make
  make_lem series t made = ground arith

  -- On a view that was made, `at` gives the value at an index up to `t`; beyond `t` it raises a
  -- `LookAheadError`, and below zero an `IndexError`.
  pub at_guarded :
      (series : List F) (t i : ℕ) {v : GuardedView F}
      → make series (pos t) ≡ ok v
      → (i ≤ t → (x : F) × (get_elem? series i ≡ some x) × (at v (pos i) ≡ ok x))
        × (t < i → at v (pos i) ≡ err look_ahead_error)
        × (at v (negsuc i) ≡ err index_error)
  unfolding at
  at_guarded series t i {v} made =
      let (within, same, now) = make_lem series t made in
      (
        λ h. let (x, e) = get_elem?-lt series i (omega arith) in (x, e, ground arith),
        ground arith,
        ground arith,
      )

  -- At an instant of the series the view can be made.
  pub make-ok :
      (series : List F) (t : ℕ)
      → t < length series
      → (v : GuardedView F) × (make series (pos t) ≡ ok v) × (v.series ≡ series) × (v.t ≡ t)
  unfolding make
  make-ok series t h = (record { series = series; t = t }, ground arith, refl, refl)

  -- Nothing that a strategy reads of such a view is missing.
  pub view-ok :
      (series : List F) (t : ℕ) {v : GuardedView F}
      → make series (pos t) ≡ ok v
      → (x : F) × (get_elem? series t ≡ some x)
        × ((view v).t ≡ t)
        × ((view v).history ≡ take (t + 1) series)
        × ((view v).latest ≡ ok x)
  unfolding view latest history
  view-ok series t made =
      let (within, same, now) = make_lem series t made in
      let (x, e) = get_elem?-lt series t within in (x, e, now, take_agree same now, ground arith)
    where
      take_agree : {s s' : List F} {n n' : ℕ} → s ≡ s' → n ≡ n' → take (n + 1) s ≡ take (n' + 1) s'
      take_agree p q = cc
