-- ===== src/Desk/Execution/Parity.antt =====
-- projects/10_portfolio_execution/src/execution.py: "parity with `reference_loop.accumulate`".
use compute_quant_lab.Prelude.{
  ℕ, suc, ◌+◌, ◌≡◌, ◌∙◌, refl, sym, ap, List, [], ◌∷◌, length, length-map, map, if◌then◌else◌,
  arith,
}
use compute_quant_lab.Prelude.Float.{Float, nought, abs, feq}
use compute_quant_lab.Prelude.Result.{ok, >>=-eq-ok}
use compute_quant_lab.Backtest.Loop.{bps, market_return, accumulate_from, accumulate}
use compute_quant_lab.Backtest.Loop.Returns.{period_return}
use compute_quant_lab.Backtest.Metrics.{diff}
use compute_quant_lab.Desk.Portfolio.{zip_with, elementwise-zip_with}
use compute_quant_lab.Desk.Execution
use compute_quant_lab.Desk.Execution.{ExecutionModel, cost, apply}

-- Zero and multiplication of IEEE 754, for finite numbers.
pub record HasZero (F : Type 0) ⦃float : Float F⦄ : Type 0 where
  pub mul_comm : (x y : F) → float.mul x y ≡ float.mul y x
  pub mul-nought : (x : F) → float.mul x nought ≡ nought
  pub add-nought : (x : F) → float.add x nought ≡ x
  pub sub-nought : (x : F) → float.sub x nought ≡ x
  pub div-nought : float.div nought (bps {F = F}) ≡ nought

module _ {F : Type 0} ⦃float : Float F⦄ (laws : HasZero F) where
  open float use {add, sub, mul, div}

  cost_linear :
      (self : ExecutionModel F) (delta : F)
      → self.impact_kappa ≡ nought
      → cost self delta ≡ mul (abs delta) self.linear_rate
  unfolding cost
  cost_linear self delta flat =
      let linear = mul self.linear_rate (abs delta) in
      ap (λ kappa. add linear (mul kappa (mul delta delta))) flat
      ∙ ap (add linear) (laws.mul_comm nought (mul delta delta) ∙ laws.mul-nought (mul delta delta))
      ∙ laws.add-nought linear
      ∙ laws.mul_comm self.linear_rate (abs delta)

  gross_entry : (held position move : F) → period_return held position move nought ≡ mul held move
  gross_entry held position move =
      ap (sub (mul held move)) (laws.mul-nought (abs (sub position held)))
      ∙ laws.sub-nought (mul held move)

  net_from :
      (prices : List F) (self : ExecutionModel F) (t : ℕ) (held : F) (trades : ℕ)
      (positions gross : List F) (n : ℕ)
      → self.impact_kappa ≡ nought
      → accumulate_from prices nought t held trades positions ≡ ok (gross, n)
      → (accumulate_from prices self.linear_rate t held trades positions
          ≡ ok (zip_with sub gross (map (cost self) (diff held positions)), n))
        × (length gross ≡ length positions)
  unfolding accumulate_from
  net_from prices self t held trades [] gross n flat e =
      let none_left : gross ≡ [] = ground (arith, e) in
      let same : trades ≡ n = ground (arith, e) in rw (none_left, same) (refl, refl)
  net_from prices self t held trades (p ∷ positions) gross n flat e =
      let (move, e₁, e₂) = >>=-eq-ok (market_return prices t) _ e in
      let trades' = if feq (sub p held) nought then trades else trades + 1 in
      let ((rest, n'), e₃, e₄) =
        >>=-eq-ok (accumulate_from prices nought (t + 1) p trades' positions) _ e₂ in
      let (later, size) = net_from prices self (t + 1) p trades' positions rest n' flat e₃ in
      let entry = gross_entry held p move in
      let out : gross ≡ mul held move ∷ rest = ground (arith, e₄, entry) in
      let same : n' ≡ n = ground (arith, e₄) in
      rw (e₁, later, out, same, cost_linear self (sub p held) flat) (refl, ap suc size)

  length-diff : (held : F) (positions : List F) → length (diff held positions) ≡ length positions
  length-diff held [] = refl
  length-diff held (p ∷ positions) = ap suc (length-diff p positions)

  -- Without impact, the desk's accounting of a run without costs succeeds, and its net returns are
  -- those of the engine's own loop at the same fees and slippage, in an arithmetic where zero and
  -- multiplication behave as those of finite floating point numbers.
  pub apply-accumulate :
      (positions prices gross : List F) (fees_bps slippage_bps impact_kappa : F) (n : ℕ)
      {model : ExecutionModel F}
      → impact_kappa ≡ nought
      → Execution.make fees_bps slippage_bps impact_kappa ≡ ok model
      → accumulate positions prices nought nought ≡ ok (gross, n)
      → (net costs : List F) × (apply model gross positions ≡ ok (net, costs))
        × (length costs ≡ length positions)
        × (accumulate positions prices fees_bps slippage_bps ≡ ok (net, n))
  unfolding accumulate apply Execution.make
  apply-accumulate positions prices gross fees slippage kappa n {model} flat made e =
      let flat' : model.impact_kappa ≡ nought = ground (arith, made) in
      let rate : model.linear_rate ≡ div (add fees slippage) bps = ground (arith, made) in
      let free : div (add nought nought) (bps {F = F}) ≡ nought =
        ap (λ x. div x bps) (laws.add-nought nought) ∙ laws.div-nought in
      let costs = map (cost model) (diff nought positions) in
      let gross_run = ap (λ r. accumulate_from prices r 0 nought 0 positions) (sym free) ∙ e in
      let (run, size) = net_from prices model 0 nought 0 positions gross n flat' gross_run in
      let charged =
        length-map (cost model) (diff nought positions) ∙ length-diff nought positions in
      (
        zip_with sub gross costs,
        costs,
        rw (elementwise-zip_with sub gross costs (size ∙ sym charged)) refl,
        charged,
        ap (λ r. accumulate_from prices r 0 nought 0 positions) (sym rate) ∙ run,
      )
