-- ===== src/Budget/Tests.antt =====
-- Applications of the theorems on the budget (src/core/types/budget.h) and on its controller
-- (src/modules/budget/budget_controller.cpp).
use hydra_forge.Prelude.{ℕ, ◌+◌, ◌≤◌, ◌≡◌, ◌≢◌, Bool, true, false, List, [], ◌∷◌, arith, All, some}
use hydra_forge.Prelude.Int.{ℤ, pos, negsuc}
use hydra_forge.Prelude.Text.{Text, codes}
use hydra_forge.Budget.{ExecutionBudget, done, overflow}
use hydra_forge.Budget.Race.{run, arriving, grants, run-le-limit, run-counts-grants}
use hydra_forge.Budget.Controller.{BudgetController}

-- Three threads in turn, with one spurious failure.
abbrev schedule : List (ℕ × Bool)
schedule = (0, false) ∷ (1, false) ∷ (0, true) ∷ (1, false) ∷ (2, false) ∷ (0, false) ∷ []

run-le-limit_example :
    ((run (pos 1) schedule (arriving 3 0)).used ≤ 1)
    × All (λ p. p ≢ done overflow) (run (pos 1) schedule (arriving 3 0)).phases
run-le-limit_example = run-le-limit 1 3 0 schedule (omega arith) (omega arith)

run-counts-grants_example :
    (run (pos 1) schedule (arriving 3 0)).used
    ≡ 0 + grants (run (pos 1) schedule (arriving 3 0)).phases
run-counts-grants_example = run-counts-grants (pos 1) 3 0 schedule

abbrev budget : ExecutionBudget
budget = record {
  max_nodes = pos 1;
  max_llm_calls = pos 0;
  max_duration_sec = pos 2;
  max_subgraph_depth = negsuc 0;
  max_snapshots = negsuc 0;
  snapshot_max_size_kb = 512;
  max_evolution_llm_calls = negsuc 0;
  nodes_used = 0;
  llm_calls_used = 0;
  subgraph_depth_used = 0;
  evolution_llm_calls_used = 0;
  start_time = 0;
}

abbrev controller : BudgetController
controller = record {
  budget = some budget;
  termination_target = [];
  cost_tracker = record { total_cost = 9; tokens_consumed = 9; last_call_cost = 9 };
}

abbrev made : List (ℤ × Text)
made = (pos 10, codes "gpt-4") ∷ (negsuc 0, codes "gpt-4") ∷ (pos 3, codes "local") ∷ []
