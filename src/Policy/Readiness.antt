-- ===== src/Policy/Readiness.antt =====
-- The cycle of evolution states and the verdict on a step of it (transition_guard.h).
use hydra_forge.Prelude.{ℕ, ◌≡◌, ◌≢◌, ◌↔◌, true, false, arith}
use hydra_forge.Governance.{ReviewTrace, poor}
use hydra_forge.Budget.Controller.{BudgetController, exceeded}
use hydra_forge.Policy.{
  EvolutionState, can_transition, recommended, Reward, negative, AttributionVerdict, attributed,
  sentinel_trace, evaluate_readiness,
}

-- Each state has exactly one successor, which is the one that `evaluate_readiness` recommends.
pub can_transition_iff :
    (from to : EvolutionState) → (can_transition from to ≡ true) ↔ (to ≡ recommended from)
unfolding can_transition recommended
can_transition_iff from to = ground arith

-- The verdict lets a cycle proceed exactly if the result is attributed, the reward is neither poor nor
-- negative, and the budget is not exceeded; the recommended state is a legal next one either way.
pub evaluate_readiness_iff :
    (current : EvolutionState) (verdict : AttributionVerdict) (evaluate : ReviewTrace → Reward)
    (budget : BudgetController) (now : ℕ)
    → let v = evaluate_readiness current verdict evaluate budget now in
      let reward = evaluate sentinel_trace in
      ((v.can_proceed ≡ true) ↔ (
        (verdict ≡ attributed)
        × (reward.quality ≢ poor)
        × (negative reward.scalar ≡ false)
        × (exceeded budget now ≡ false)))
      × (can_transition current v.recommended_next ≡ true)
unfolding evaluate_readiness can_transition recommended
evaluate_readiness_iff current verdict evaluate budget now = ground arith
