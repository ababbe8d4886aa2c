-- ===== src/Signals/Runs.antt =====
-- core/signals/mean_reversion.py under core/backtest/engine.py: whole runs of the band.
use compute_quant_lab.Prelude.{
  ℕ, zero, suc, ◌+◌, ◌≡◌, ◌≤◌, ◌⊎◌, inl, inr, refl, List, [], ◌∷◌, length, ltb, eqb, arith,
  if◌then◌else◌, Bool-cases,
}
use compute_quant_lab.Prelude.Float.{Float, nought, feq, IsOrdered}
use compute_quant_lab.Prelude.Result.{ok}
use compute_quant_lab.Backtest.Guards.{PointInTimeView, view, make-ok, view-ok}
use compute_quant_lab.Backtest.Engine.{positions_from, generate_positions}
use compute_quant_lab.Signals.MeanReversion.{
  MeanReversionSignal, decide, latest_values, signal, IsPosition, IsMove, decide_lem,
}

-- The positions that follow one another from `p` on.
abbrev pub IsPath : {F : Type 0} ⦃float : Float F⦄ → F → List F → Type 0
IsPath p [] = Unit
IsPath p (q ∷ qs) = IsPosition q × IsMove p q × IsPath q qs

module _ {F : Type 0} ⦃float : Float F⦄ (mean std : List F → F) (self : MeanReversionSignal F) where
  -- The position that a call at `t` starts from.
  abbrev start : ℕ → F → F
  start t kept = if eqb t 0 then nought else kept

  start_next : (t : ℕ) (q : F) → start (t + 1) q ≡ q
  start_next t q = ground arith

  -- A call of a view with a latest price keeps the position, or decides on the score.
  signal_cases :
      (kept : F) (v : PointInTimeView F) (x : F)
      → v.latest ≡ ok x
      → (signal mean std self kept v ≡ ok (start v.t kept, start v.t kept))
        ⊎ ((z : F) × (signal mean std self kept v
              ≡ ok (decide self z (start v.t kept), decide self z (start v.t kept))))
  unfolding signal
  signal_cases kept v x now = elim (Bool-cases (ltb (length v.history) self.lookback)) [
    | inl short ↦ inl (rw short refl)
    | inr long ↦
        let recent = latest_values self.lookback v.history in
        elim (Bool-cases (feq (std recent) nought)) [
          | inl flat ↦ inl (rw (long, flat) refl)
          | inr varies ↦
              inr (float.div (float.sub x (mean recent)) (std recent), rw (long, varies, now) refl)
        ]
  ]

  -- At the first instant the state that an earlier run left does not matter.
  signal_reset :
      (s s' : F) (v : PointInTimeView F)
      → v.t ≡ 0
      → signal mean std self s v ≡ signal mean std self s' v
  unfolding signal
  signal_reset s s' v first = rw (first) refl

  -- Two runs over the same series of at least one price, whatever the state that the signal is
  -- found in, give the same positions and leave the same state.
  pub generate_positions-reset :
      (x : F) (xs : List F) (s s' : F)
      → generate_positions (x ∷ xs) (signal mean std self) s
        ≡ generate_positions (x ∷ xs) (signal mean std self) s'
  unfolding generate_positions positions_from
  generate_positions-reset x xs s s' =
      let (v, made, whole, first) = make-ok (x ∷ xs) 0 (omega arith) in
      let (y, e, now, seen, last) = view-ok (x ∷ xs) 0 made in
      rw (made, signal_reset s s' (view v) now) refl

  module _ (laws : IsOrdered F) where
    signal_lem :
        (kept : F) (v : PointInTimeView F) (x : F)
        → v.latest ≡ ok x
        → IsPosition (start v.t kept)
        → (q : F) × (signal mean std self kept v ≡ ok (q, q))
          × IsPosition q
          × IsMove (start v.t kept) q
    signal_lem kept v x now h = elim (signal_cases kept v x now) [
      | inl same ↦ (start v.t kept, same, h, inr (inr refl))
      | inr (z, e) ↦
          let (at_most, moved) = decide_lem laws self z (start v.t kept) h in
          (decide self z (start v.t kept), e, at_most, moved)
    ]

    positions_from_lem :
        (prices : List F) (left t : ℕ) (s : F)
        → t + left ≤ length prices
        → IsPosition (start t s)
        → (ps : List F) × (s' : F) × (positions_from prices (signal mean std self) t left s
            ≡ ok (ps, s'))
          × IsPath (start t s) ps
    unfolding positions_from
    positions_from_lem prices zero t s h within = ([], s, refl, tt)
    positions_from_lem prices (suc left) t s h within =
        let (v, made, whole, same) = make-ok prices t (omega arith) in
        let (x, e, now, seen, last) = view-ok prices t made in
        let (q, decided, one, moved) = signal_lem s (view v) x last (rw now within) in
        let (ps, s', run, path) =
          positions_from_lem prices left (t + 1) q (omega arith) (rw (start_next t q) one) in
        (
          q ∷ ps,
          s',
          rw (made, decided, run) refl,
          (one, rw now at moved, rw (start_next t q) at path),
        )

    -- A run of the band over any series succeeds, from any state that an earlier run left. Each of
    -- its positions is -1, 0 or 1, the first is taken from flat, and none is followed by the
    -- opposite one.
    pub generate_positions-IsPath :
        (prices : List F) (s : F)
        → (ps : List F) × (s' : F) × (generate_positions prices (signal mean std self) s
            ≡ ok (ps, s'))
          × IsPath nought ps
    unfolding generate_positions
    generate_positions-IsPath prices s =
        positions_from_lem prices (length prices) 0 s (omega arith) (inr (inl refl))
