-- ===== src/Service/Alerts/Delivery.antt =====
-- projects/14_service/src/alerts.py, `AlertEngine.evaluate`: what is delivered.
use mathlib.Core.List.{append-nil, append_assoc}
use compute_quant_lab.Prelude.{
  ℕ, ◌≡◌, refl, ap, ◌∙◌, Option, none, some, List, [], ◌∷◌, ◌++◌, map, keep, Bool-cases, inl, inr,
}
use compute_quant_lab.Prelude.Result.{ok}
use compute_quant_lab.Service.Views.{MarketView}
use compute_quant_lab.Service.Recommendation.{ProcurementSignal, SignalSource}
use compute_quant_lab.Service.Alerts.{Rule, AlertEvent, event_of, fire, evaluate}

module _ {F : Type 0} where
  -- The events of the rules that match, in the order of the rules.
  abbrev pub events : ProcurementSignal F → ℕ → List (Rule F) → List (AlertEvent F)
  events signal fired_at rules =
      map (event_of signal fired_at) (keep (λ rule. rule.matches signal) rules)

  fire_lem :
      (signal : ProcurementSignal F) (fired_at : ℕ) (rules : List (Rule F))
      (notified fired : List (AlertEvent F))
      → fire signal fired_at rules notified fired
        ≡ (notified ++ events signal fired_at rules, fired ++ events signal fired_at rules)
  unfolding fire
  fire_lem signal fired_at [] notified fired = rw (append-nil notified, append-nil fired) refl
  fire_lem signal fired_at (rule ∷ rules) notified fired =
      let event = event_of signal fired_at rule in
      let more =
        fire_lem signal fired_at rules (notified ++ (event ∷ [])) (fired ++ (event ∷ [])) in
      let same = fire_lem signal fired_at rules notified fired in
      elim (Bool-cases (rule.matches signal)) [
        | inl e ↦ rw e (more ∙ simp append_assoc)
        | inr e ↦ rw e same
      ]

  -- An evaluation fires one event for each rule that matches the recommendation, in the order of the
  -- rules, stamped with `now` or else with the instant of the market. The notifier gets exactly
  -- these, after what it had.
  pub evaluate_lem :
      (source : SignalSource F) (market : MarketView F) (rules : List (Rule F)) (now : Option ℕ)
      (notified : List (AlertEvent F)) {signal : ProcurementSignal F}
      → source.assess market ≡ ok signal
      → let fired = events signal (elim now [ none ↦ market.as_of | some t ↦ t ]) rules in
        evaluate source market rules now notified ≡ ok (notified ++ fired, fired)
  unfolding evaluate
  evaluate_lem source market rules now notified {signal} e =
      rw e
        (ap ok (fire_lem signal (elim now [ none ↦ market.as_of | some t ↦ t ]) rules notified []))
