-- ===== src/Policy/Tests.antt =====
-- Applications of the theorems on layers (src/common/policy/layer_profile.cpp) and on the evolution
-- cycle (include/agenticdsl/evolution/transition_guard.h).
use hydra_forge.Prelude.{◌≡◌, ◌≢◌, ◌↔◌, true, false, [], none}
use hydra_forge.Prelude.Int.{pos}
use hydra_forge.Governance.{ReviewTrace, poor, acceptable}
use hydra_forge.Budget.Controller.{BudgetController, exceeded}
use hydra_forge.Policy.{
  harness, can_transition, Reward, attributed, sentinel_trace, negative, evaluate_readiness,
}
use hydra_forge.Policy.Readiness.{evaluate_readiness_iff}

abbrev judge : ReviewTrace → Reward
judge trace = record { quality = acceptable; scalar = pos 0 }

abbrev controller : BudgetController
controller = record {
  budget = none;
  termination_target = [];
  cost_tracker = record { total_cost = 0; tokens_consumed = 0; last_call_cost = 0 };
}

evaluate_readiness_iff_example :
    let v = evaluate_readiness harness attributed judge controller 0 in
    let reward = judge sentinel_trace in
    ((v.can_proceed ≡ true) ↔ (
      (attributed ≡ attributed)
      × (reward.quality ≢ poor)
      × (negative reward.scalar ≡ false)
      × (exceeded controller 0 ≡ false)))
    × (can_transition harness v.recommended_next ≡ true)
evaluate_readiness_iff_example = evaluate_readiness_iff harness attributed judge controller 0
