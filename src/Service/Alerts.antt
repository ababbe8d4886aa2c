-- ===== src/Service/Alerts.antt =====
-- projects/14_service/src/alerts.py: the alert engine. The labels of the rules, texts made of their
-- parameters, are a field of each rule; the notifier is the list of the events that it was given.
pub mod Delivery
use Prim.Native.String.{String}
use compute_quant_lab.Prelude.{
  ℕ, Bool, true, false, Option, none, some, List, [], ◌∷◌, ◌++◌, if◌then◌else◌,
}
use compute_quant_lab.Prelude.Float.{Float}
use compute_quant_lab.Prelude.Result.{Result, ok, ◌>>=◌}
use compute_quant_lab.Service.Views.{MarketView}
use compute_quant_lab.Service.Recommendation.{
  Action, wait, rent_now, ProcurementSignal, SignalSource,
}

pub record Rule (F : Type 0) : Type 0 where
  pub label : String
  pub matches : ProcurementSignal F → Bool

module _ {F : Type 0} ⦃float : Float F⦄ where
  -- `PriceBelow(threshold)`
  abbrev pub price_below : String → F → Rule F
  price_below label threshold = record {
    label = label;
    matches = λ signal. float.le signal.reference_price threshold;
  }

abbrev pub same_action : Action → Action → Bool
same_action wait wait = true
same_action rent_now rent_now = true
same_action _ _ = false

-- `ActionIs(action)`
abbrev pub action_is : {F : Type 0} → String → Action → Rule F
action_is label action = record {
  label = label;
  matches = λ signal. same_action signal.action action;
}

pub record AlertEvent (F : Type 0) : Type 0 where
  pub gpu_model : String
  pub venue : String
  pub reference_price : F
  pub action : Action
  pub rule_label : String
  pub fired_at : ℕ

module _ {F : Type 0} where
  abbrev pub event_of : ProcurementSignal F → ℕ → Rule F → AlertEvent F
  event_of signal fired_at rule = record {
    gpu_model = signal.gpu_model;
    venue = signal.venue;
    reference_price = signal.reference_price;
    action = signal.action;
    rule_label = rule.label;
    fired_at = fired_at;
  }

  -- The loop over the rules: what the notifier holds, and what has fired so far.
  unfoldable pub fire :
      ProcurementSignal F
      → ℕ
      → List (Rule F)
      → List (AlertEvent F)
      → List (AlertEvent F)
      → List (AlertEvent F) × List (AlertEvent F)
  fire signal fired_at [] notified fired = (notified, fired)
  fire signal fired_at (rule ∷ rules) notified fired =
      let event = event_of signal fired_at rule in
      let rest = fire signal fired_at rules (notified ++ (event ∷ [])) (fired ++ (event ∷ [])) in
      let unchanged = fire signal fired_at rules notified fired in
      if rule.matches signal then rest else unchanged

  -- `AlertEngine.evaluate`: the notifier afterwards, and the result.
  unfoldable pub evaluate :
      SignalSource F
      → MarketView F
      → List (Rule F)
      → Option ℕ
      → List (AlertEvent F)
      → Result (List (AlertEvent F) × List (AlertEvent F))
  unfolding fire
  evaluate source market rules now notified = do
    signal ← source.assess market
    let fired_at : ℕ = elim now [ none ↦ market.as_of | some t ↦ t ]
    ok (fire signal fired_at rules notified [])
