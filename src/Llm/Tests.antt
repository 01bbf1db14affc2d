-- ===== src/Llm/Tests.antt =====
-- A stream of two chunks and then the end; a budget that others charge meanwhile.
use hydra_forge.Prelude.{ℕ, zero, suc, ◌≡◌, [], ◌∷◌, Option, none, some, length}
use hydra_forge.Prelude.Int.{pos}
use hydra_forge.Prelude.Text.{Text, codes, contains}
use hydra_forge.Budget.Controller.{BudgetController, cost_per_token_for}
use hydra_forge.Llm.{track, comply}
use hydra_forge.Llm.Laws.{read, others, total, life, life-total, logged, logged-comply}

-- The state is the number of readings.
abbrev two_chunks : ℕ → Option Text × ℕ
two_chunks zero = (some (codes "ab"), 1)
two_chunks (suc zero) = (some (codes "c"), 2)
two_chunks (suc (suc n)) = (none, 2)

abbrev controller : BudgetController
controller = record {
  budget = none;
  termination_target = [];
  cost_tracker = record { total_cost = 5; tokens_consumed = 0; last_call_cost = 0 };
}

life-total_example :
    total (
      life two_chunks
        (read ∷ others ((pos 10, codes "gpt-4") ∷ []) ∷ read ∷ read ∷ read ∷ [])
        (track 0 (codes "gpt-4") (pos 100))
        (some (controller)))
    ≡ some 330005
unfolding cost_per_token_for contains
life-total_example =
    life-total two_chunks (read ∷ others ((pos 10, codes "gpt-4") ∷ []) ∷ read ∷ read ∷ read ∷ []) 0
      (codes "gpt-4") (pos 100) (controller)

logged-comply_example :
    logged two_chunks length 4 (comply 0 7 (codes "m")) (some [])
    ≡ some (record { completion_hash = 3; prompt_hash = 7; model = codes "m" } ∷ [])
logged-comply_example = logged-comply two_chunks length 4 0 7 (codes "m") []
