-- ===== src/Budget/Controller.antt =====
-- `BudgetController` of src/modules/budget: an optional budget behind the interface that the
-- scheduler uses, and the cost tracker. A cost is a whole number of 1e-8 USD: each price of
-- `cost_per_token_for` is one, so the sums are exact where the `double`s of the source round.
-- `tokens_consumed` is the bit pattern of its 32-bit atomic. Each operation that the source guards
-- by `cost_mutex_` is one step.
use hydra_forge.Prelude.{
  ℕ, ◌+◌, ◌*◌, ◌%◌, ◌≡◌, Bool, false, ◌||◌, List, [], ◌∷◌, Option, none, some, arith, if◌then◌else◌,
}
use hydra_forge.Prelude.Int.{ℤ, pos, negsuc}
use hydra_forge.Prelude.Text.{Text, codes, contains}
use hydra_forge.Budget
use hydra_forge.Budget.{ExecutionBudget, Phase, done, granted, moved}

pub record CostTracker : Type 0 where
  pub total_cost : ℕ
  pub tokens_consumed : ℕ
  pub last_call_cost : ℕ

pub record BudgetController : Type 0 where
  pub budget : Option ExecutionBudget
  pub termination_target : Text
  pub cost_tracker : CostTracker

abbrev pub word32 : ℕ
word32 = 4294967296

-- The price of a token, by the first family whose name the model's name contains.
unfoldable pub cost_per_token_for : Text → ℕ
cost_per_token_for model =
    if contains (codes "llama") model
      || contains (codes "gguf") model
      || contains (codes "local") model
    then 0
    else if contains (codes "gpt-4o-mini") model
    then 15
    else if contains (codes "gpt-3.5") model || contains (codes "gpt-3.5-turbo") model
    then 200
    else if contains (codes "gpt-4") model
    then 3000
    else 100

abbrev no_cost : CostTracker
no_cost = record { total_cost = 0; tokens_consumed = 0; last_call_cost = 0 }

-- The optional is moved in, and its clock starts `now`.
moved_in : Option ExecutionBudget → ℕ → Option ExecutionBudget
unfolding moved
moved_in none now = none
moved_in (some b) now = some (moved b now)

pub create : Option ExecutionBudget → ℕ → BudgetController
unfolding moved_in
create initial_budget now = record {
  budget = moved_in initial_budget now;
  termination_target = codes "/__system__/budget_exceeded";
  cost_tracker = no_cost;
}

-- With no budget every request is granted.
delegate : (ExecutionBudget → ExecutionBudget × Phase) → BudgetController → BudgetController × Phase
delegate f c = elim c.budget [
  | none ↦ (c, done granted)
  | some b ↦ let r = f b in (record c { budget = some r.0 }, r.1)
]

pub try_consume_node : BudgetController → BudgetController × Phase
unfolding delegate
try_consume_node = delegate Budget.try_consume_node

pub try_consume_llm_call : BudgetController → BudgetController × Phase
unfolding delegate
try_consume_llm_call = delegate Budget.try_consume_llm_call

pub try_consume_subgraph_depth : BudgetController → BudgetController × Phase
unfolding delegate
try_consume_subgraph_depth = delegate Budget.try_consume_subgraph_depth

pub try_consume_evolution_llm_call : BudgetController → BudgetController × Phase
unfolding delegate
try_consume_evolution_llm_call = delegate Budget.try_consume_evolution_llm_call

unfoldable pub exceeded : BudgetController → ℕ → Bool
exceeded c now = elim c.budget [ none ↦ false | some b ↦ Budget.exceeded b now ]

pub evolution_budget_exceeded : BudgetController → Bool
evolution_budget_exceeded c = elim c.budget [
  | none ↦ false
  | some b ↦ Budget.evolution_budget_exceeded b
]

pub set_termination_target : Text → BudgetController → BudgetController
set_termination_target target c = record c { termination_target = target }

pub get_termination_target : BudgetController → ℕ → Option Text
unfolding exceeded
get_termination_target c now = if exceeded c now then some c.termination_target else none

pub set_budget : Option ExecutionBudget → ℕ → BudgetController → BudgetController
unfolding moved_in
set_budget budget now c = record c { budget = moved_in budget now }

-- A negative count is ignored. The atomic addition wraps.
pub record_llm_call : ℤ → Text → BudgetController → BudgetController
unfolding cost_per_token_for
record_llm_call (negsuc _) model c = c
record_llm_call (pos tokens) model c =
    let call_cost = cost_per_token_for model * tokens in
    record c {
      cost_tracker = record {
        total_cost = c.cost_tracker.total_cost + call_cost;
        tokens_consumed = (c.cost_tracker.tokens_consumed + tokens) % word32;
        last_call_cost = call_cost;
      };
    }

pub reset : BudgetController → BudgetController
reset c = record c { cost_tracker = no_cost }

pub reset_evolution_cycle_counter : BudgetController → BudgetController
reset_evolution_cycle_counter c = elim c.budget [
  | none ↦ c
  | some b ↦ record c { budget = some (Budget.reset_evolution_cycle_counter b) }
]

-- Both only write a log line.
pub begin_evolution_cycle : Text → BudgetController → BudgetController
begin_evolution_cycle cycle_id c = c

pub end_evolution_cycle : Text → Bool → BudgetController → BudgetController
end_evolution_cycle cycle_id success c = c

pub record_calls : List (ℤ × Text) → BudgetController → BudgetController
record_calls [] c = c
record_calls ((tokens, model) ∷ calls) c = record_calls calls (record_llm_call tokens model c)

-- What a list of calls costs: each call its tokens at its model's price, a negative count nothing.
abbrev pub bill : List (ℤ × Text) → ℕ
bill [] = 0
bill ((negsuc _, model) ∷ calls) = bill calls
bill ((pos tokens, model) ∷ calls) = cost_per_token_for model * tokens + bill calls

-- The tokens of the calls whose count is not negative.
abbrev pub tokens_of : List (ℤ × Text) → ℕ
tokens_of [] = 0
tokens_of ((negsuc _, model) ∷ calls) = tokens_of calls
tokens_of ((pos tokens, model) ∷ calls) = tokens + tokens_of calls

pub record_calls-bill :
    (calls : List (ℤ × Text)) (c : BudgetController)
    → (record_calls calls c).cost_tracker.total_cost ≡ c.cost_tracker.total_cost + bill calls
unfolding record_calls record_llm_call
record_calls-bill [] c = omega arith
record_calls-bill ((negsuc _, model) ∷ calls) c = record_calls-bill calls c
record_calls-bill ((pos tokens, model) ∷ calls) c =
    omega (arith, record_calls-bill calls (record_llm_call (pos tokens) model c))

pub record_llm_call-bill :
    (tokens : ℤ) (model : Text) (c : BudgetController)
    → (record_llm_call tokens model c).cost_tracker.total_cost
      ≡ c.cost_tracker.total_cost + bill ((tokens, model) ∷ [])
unfolding record_llm_call
record_llm_call-bill (negsuc n) model c = omega arith
record_llm_call-bill (pos n) model c = omega arith

record_calls-tokens :
    (calls : List (ℤ × Text)) (c : BudgetController)
    → (record_calls calls c).cost_tracker.tokens_consumed % word32
      ≡ (c.cost_tracker.tokens_consumed + tokens_of calls) % word32
unfolding record_calls record_llm_call
record_calls-tokens [] c = omega arith
record_calls-tokens ((negsuc _, model) ∷ calls) c = record_calls-tokens calls c
record_calls-tokens ((pos tokens, model) ∷ calls) c =
    omega (arith, record_calls-tokens calls (record_llm_call (pos tokens) model c))

-- After a reset and any list of recorded calls the total is the bill of exactly these calls, and
-- the token counter is their number of tokens modulo 2^32.
pub reset-record_calls :
    (calls : List (ℤ × Text)) (c : BudgetController)
    → ((record_calls calls (reset c)).cost_tracker.total_cost ≡ bill calls)
      × ((record_calls calls (reset c)).cost_tracker.tokens_consumed % word32
          ≡ tokens_of calls % word32)
unfolding reset
reset-record_calls calls c = (
  omega (arith, record_calls-bill calls (reset c)),
  omega (arith, record_calls-tokens calls (reset c)),
)
