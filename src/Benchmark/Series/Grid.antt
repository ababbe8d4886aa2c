-- ===== src/Benchmark/Series/Grid.antt =====
-- projects/13_compute_benchmark/src/benchmark/index_series.py, `daily_fix_grid`.
use native.Mathlib.Decide.{ℕ_discrete}
use compute_quant_lab.Prelude.{
  ℕ, zero, suc, ◌+◌, ◌-◌, ◌*◌, ◌/◌, ◌≡◌, ◌≤◌, ◌<◌, inl, inr, refl, true, List, [], ◌∷◌, All, any,
  eqb, leb, arith, ◌&&◌, Bool-cases,
}
use compute_quant_lab.Prelude.Int.{ℤ}
use compute_quant_lab.Prelude.Result.{ok}
use compute_quant_lab.Ingestion.Protocols.{aware}
use compute_quant_lab.Benchmark.Series.{day_length, grid_from, daily_fix_grid}

-- The entries grow, and each is at least `low`.
abbrev pub IsIncreasing : ℕ → List ℕ → Type 0
IsIncreasing low [] = Unit
IsIncreasing low (t ∷ ts) = (low ≤ t) × IsIncreasing (t + 1) ts

-- A fix instant between the bounds.
abbrev pub IsFix : ℕ → ℕ → ℕ → ℕ → Type 0
IsFix start end fix_time t =
    (start ≤ t) × (t ≤ end) × ((day : ℕ) × (t ≡ day * day_length + fix_time))

module _ (start end fix_time : ℕ) where
  weaken : (low low' : ℕ) (ts : List ℕ) → low ≤ low' → IsIncreasing low' ts → IsIncreasing low ts
  weaken low low' [] h p = tt
  weaken low low' (t ∷ ts) h p = (omega (arith, p.0), p.1)

  grid_from-IsIncreasing :
      (left day : ℕ)
      → IsIncreasing (day * day_length + fix_time) (grid_from start end fix_time left day)
  unfolding grid_from
  grid_from-IsIncreasing zero day = tt
  grid_from-IsIncreasing (suc left) day =
      let later = grid_from-IsIncreasing left (day + 1) in
      let t = day * day_length + fix_time in
      elim (Bool-cases (leb start t && leb t end)) [
        | inl e ↦ rw e (omega arith, weaken (t + 1) _ _ (omega arith) later)
        | inr e ↦ rw e (weaken t _ _ (omega arith) later)
      ]

  grid_from-IsFix :
      (left day : ℕ) → All (IsFix start end fix_time) (grid_from start end fix_time left day)
  unfolding grid_from
  grid_from-IsFix zero day = tt
  grid_from-IsFix (suc left) day =
      let t = day * day_length + fix_time in
      elim (Bool-cases (leb start t && leb t end)) [
        | inl e ↦ rw e ((ground arith, ground arith, (day, refl)), grid_from-IsFix left (day + 1))
        | inr e ↦ rw e (grid_from-IsFix left (day + 1))
      ]

  grid_from_complete :
      (left day d : ℕ)
      → day ≤ d
      → d < day + left
      → start ≤ d * day_length + fix_time
      → d * day_length + fix_time ≤ end
      → any (eqb (d * day_length + fix_time)) (grid_from start end fix_time left day) ≡ true
  unfolding grid_from
  grid_from_complete zero day d h h' low high = absurd (omega arith)
  grid_from_complete (suc left) day d h h' low high = elim (ℕ_discrete day d) [
    | yes same ↦ rw same at_day
    | no other ↦
        let later = grid_from_complete left (day + 1) d (omega arith) (omega arith) low high in
        ground (arith, later)
  ]
    where
      at_day :
          any (eqb (d * day_length + fix_time)) (grid_from start end fix_time (suc left) d) ≡ true
      at_day = ground arith

-- The grid of two aware bounds holds exactly the instants between them, bounds included, at which
-- some day shows the fix time, each once and in order of time, for a fix time within the day. It
-- runs over enough days.
pub daily_fix_grid_lem :
    (start end fix_time : ℕ) (offset offset' : ℤ)
    → fix_time < day_length
    → (grid : List ℕ) × (daily_fix_grid (aware start offset) (aware end offset') fix_time ≡ ok grid)
      × IsIncreasing 0 grid
      × All (IsFix start end fix_time) grid
      × ((t : ℕ) → IsFix start end fix_time t → any (eqb t) grid ≡ true)
unfolding daily_fix_grid
daily_fix_grid_lem start end fix_time offset offset' h =
    let first = start / day_length in
    let left = end / day_length + 1 - first in
    (
      grid_from start end fix_time left first,
      refl,
      weaken start end fix_time 0 _ _ (omega arith)
          (grid_from-IsIncreasing start end fix_time left first),
      grid_from-IsFix start end fix_time left first,
      λ t fix.
          let (day, at_day) = fix.2 in
          rw at_day (
            grid_from_complete start end fix_time left first day (omega (arith, fix, at_day))
              (omega (arith, fix, at_day)) (omega (arith, fix, at_day))
              (omega (arith, fix, at_day))),
    )
