-- ===== src/Signals/FuturesBasis.antt =====
-- core/signals/futures_basis.py, `FuturesBasisSignal`. numpy's `diff`, mean and sample deviation are
-- parameters.
use Prim.Native.String.{String}
use compute_quant_lab.Prelude.{
  ℕ, ◌+◌, ◌-◌, ◌≡◌, ◌<◌, inl, inr, sym, true, List, length, drop, get_elem?, ltb, arith,
  if◌then◌else◌, Bool-cases,
}
use compute_quant_lab.Prelude.Float.{Float, nought, unit, neg, feq, IsOrdered}
use compute_quant_lab.Prelude.Int.{ℤ, pos, ltb_ℤ, pos_part}
use compute_quant_lab.Prelude.Result.{
  Result, ok, ◌>>=◌, ◌>>◌, raise_if, or_raise, traverse, value_error, index_error, >>=-eq-ok,
}
use compute_quant_lab.Backtest.Guards.{PointInTimeView}
use compute_quant_lab.Pricing.Futures.{Math, CarryModel, price}
use compute_quant_lab.Signals.{SignalProvenance, clip_unit, clip_unit-within}

ok-pair :
    {A B : Type 0} {a a' : A} {b b' : B}
    → ◌≡◌ {A = Result (A × B)} (ok (a, b)) (ok (a', b'))
    → (a ≡ a') × (b' ≡ b)
ok-pair e = (cc, cc)

pub record FuturesBasisSignal (F : Type 0) : Type 0 where
  pub model : CarryModel F
  pub rate : F
  pub tau : F
  pub lookback : ℕ
  pub provenance : SignalProvenance

module _ {F : Type 0} ⦃float : Float F⦄ where
  unfoldable pub make : F → ℤ → CarryModel F → F → String → Result (FuturesBasisSignal F)
  make tau_years lookback model rate name = do
    raise_if (float.le tau_years nought) value_error
    raise_if (ltb_ℤ lookback (pos 2)) value_error
    ok (record {
      model = model;
      rate = rate;
      tau = tau_years;
      lookback = pos_part lookback;
      provenance = record { name = name; simulated = model.simulated };
    })

module _ {F : Type 0} ⦃float : Float F⦄ (math : Math F) (diff : List F → List F)
    (mean std : List F → F) where
  unfoldable pub basis : FuturesBasisSignal F → F → Result F
  unfolding price
  basis self spot = do quote ← price math self.model self.rate spot self.tau; ok quote.basis

  -- The signal from the basis changes on.
  unfoldable pub score : List F → Result F
  score delta = if feq (std delta) nought then ok nought else do
    last ← or_raise (get_elem? delta (length delta - 1)) index_error
    ok (clip_unit (float.div (float.sub last (mean delta)) (std delta)))

  unfoldable pub signal :
      {S : Type 0} → FuturesBasisSignal F → S → PointInTimeView F → Result (F × S)
  unfolding basis score
  signal self s view = if ltb (length view.history) (self.lookback + 1) then ok (nought, s) else do
    values ← traverse (basis self) (drop (length view.history - (self.lookback + 1)) view.history)
    z ← score (diff values)
    ok (z, s)

  module _ (laws : IsOrdered F) (below : float.le (neg unit) unit ≡ true)
      (low : float.le (neg unit) nought ≡ true) (high : float.le nought unit ≡ true) where
    score-within :
        (delta : List F) {x : F}
        → score delta ≡ ok x
        → (float.le (neg unit) x ≡ true) × (float.le x unit ≡ true)
    unfolding score
    score-within delta {x} e = elim (Bool-cases (feq (std delta) nought)) [
      | inl flat ↦ (ground (arith, low, high), ground (arith, low, high))
      | inr varies ↦
          let e' : (or_raise (get_elem? delta (length delta - 1)) index_error
                >>= (λ last. ok (clip_unit (float.div (float.sub last (mean delta)) (std delta)))))
              ≡ ok x =
            rw varies at e in
          let (last, _, made) =
            >>=-eq-ok (or_raise (get_elem? delta (length delta - 1)) index_error) _ e' in
          let (above, beneath, _) =
            clip_unit-within laws below (float.div (float.sub last (mean delta)) (std delta)) in
          (ground (arith, made, above), ground (arith, made, beneath))
    ]

    -- In an ordered arithmetic with -1 ≤ 0 ≤ 1, a view that the signal gives lies in [-1, 1], the
    -- state is kept, and with fewer than `lookback + 1` prices the signal is flat.
    pub signal-within :
        {S : Type 0} (self : FuturesBasisSignal F) (s s' : S) (view : PointInTimeView F) {x : F}
        → signal self s view ≡ ok (x, s')
        → (float.le (neg unit) x ≡ true)
          × (float.le x unit ≡ true)
          × (s' ≡ s)
          × (length view.history < self.lookback + 1 → x ≡ nought)
    unfolding signal
    signal-within self s s' view {x} e =
        elim (Bool-cases (ltb (length view.history) (self.lookback + 1))) [
          | inl short ↦
              let (same, kept) = ok-pair (rw short at e) in
              (rw same at low, rw same at high, kept, λ h. sym same)
          | inr long ↦
              let window = drop (length view.history - (self.lookback + 1)) view.history in
              let (values, _, e₁) = >>=-eq-ok (traverse (basis self) window) _ (rw long at e) in
              let (z, scored, e₂) = >>=-eq-ok (score (diff values)) _ e₁ in
              let (same, kept) = ok-pair e₂ in
              let (a, b) = score-within (diff values) scored in
              (rw same at a, rw same at b, kept, λ h. absurd (ground arith))
        ]
