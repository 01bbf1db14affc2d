-- ===== src/Policy.antt =====
-- The layers of callers and what they may call (src/common/policy/layer_profile.{h,cpp}), and the
-- states of an evolution cycle (include/agenticdsl/evolution/transition_guard.h).
pub mod Layers
pub mod Readiness
mod Tests
use hydra_forge.Prelude.{
  ℕ, zero, suc, ◌+◌, Bool, true, false, not, ◌&&◌, ◌||◌, List, [], ◌∷◌, ◌++◌, Option, none, some,
  if◌then◌else◌, ◌==◌, leb, length,
}
use hydra_forge.Prelude.Int.{ℤ, pos, negsuc}
use hydra_forge.Prelude.Text.{Text, codes}
use hydra_forge.Governance.{
  ToolCategory, read_only, write_file, execute, network, state_modify, LayerProfile, workflow,
  thinking, cognitive, Quality, excellent, acceptable, poor, ReviewTrace,
}
use hydra_forge.Budget.Controller.{BudgetController, exceeded}

-- `std::tolower` in the C locale.
abbrev pub tolower : ℕ → ℕ
tolower c = if leb 65 c && leb c 90 then c + 32 else c

-- Texts of different lengths are not equal.
unfoldable pub iequals : Text → Text → Bool
iequals [] [] = true
iequals (a ∷ s) (b ∷ t) = tolower a == tolower b && iequals s t
iequals _ _ = false

-- `none`: `std::invalid_argument`.
unfoldable pub parse_layer : Text → Option LayerProfile
unfolding iequals
parse_layer s =
    if iequals s (codes "workflow")
    then some workflow
    else if iequals s (codes "thinking")
    then some thinking
    else if iequals s (codes "cognitive")
    then some cognitive
    else none

unfoldable pub check_layer_permission : LayerProfile → ToolCategory → Bool
check_layer_permission workflow category = true
check_layer_permission thinking read_only = true
check_layer_permission thinking _ = false
check_layer_permission cognitive category = false

pub layer_to_string : LayerProfile → Text
layer_to_string workflow = codes "workflow"
layer_to_string thinking = codes "thinking"
layer_to_string cognitive = codes "cognitive"

pub category_to_string : ToolCategory → Text
category_to_string read_only = codes "ReadOnly"
category_to_string write_file = codes "WriteFile"
category_to_string execute = codes "Execute"
category_to_string network = codes "Network"
category_to_string state_modify = codes "StateModify"

abbrev pub allowed_at_registration : LayerProfile → ToolCategory → Bool
allowed_at_registration cognitive read_only = true
allowed_at_registration cognitive _ = false
allowed_at_registration thinking read_only = true
allowed_at_registration thinking write_file = true
allowed_at_registration thinking _ = false
allowed_at_registration workflow category = true

-- The first layer for which `check_registration_permission` throws, where there is one. The empty
-- list of layers skips the check.
pub check_registration_permission : List LayerProfile → ToolCategory → Option LayerProfile
check_registration_permission [] category = none
check_registration_permission (l ∷ ls) category =
    let rest = check_registration_permission ls category in
    if allowed_at_registration l category then rest else some l

pub data EvolutionState : Type 0 where
  idle harness data_state model done : EvolutionState

-- The row of `kTransitionMatrix`.
pub can_transition : EvolutionState → EvolutionState → Bool
can_transition idle harness = true
can_transition harness data_state = true
can_transition data_state model = true
can_transition model done = true
can_transition done idle = true
can_transition _ _ = false

-- The loop over the five states, in the order of their numbers.
abbrev first_of : EvolutionState → List EvolutionState → EvolutionState
unfolding can_transition
first_of from [] = idle
first_of from (to ∷ rest) =
    let next = first_of from rest in if can_transition from to then to else next

pub recommended : EvolutionState → EvolutionState
unfolding can_transition
recommended from = first_of from (idle ∷ harness ∷ data_state ∷ model ∷ done ∷ [])

pub data FailedCondition : Type 0 where
  attribution_insufficient regression_failed budget_exhausted : FailedCondition

pub record EvolutionVerdict : Type 0 where
  pub can_proceed : Bool
  pub recommended_next : EvolutionState
  pub reason : Text
  pub failed_conditions : List FailedCondition
  pub reward_quality : Quality

-- An empty trace.
abbrev pub sentinel_trace : ReviewTrace
sentinel_trace = record { final_result = []; trace_id = [] }

-- `RewardSignal`, with `scalar` in an integral unit.
pub record Reward : Type 0 where
  pub quality : Quality
  pub scalar : ℤ

abbrev pub is_poor : Quality → Bool
is_poor poor = true
is_poor acceptable = false
is_poor excellent = false

abbrev pub negative : ℤ → Bool
negative (pos n) = false
negative (negsuc n) = true

abbrev fails_if : Bool → FailedCondition → List FailedCondition
fails_if b c = if b then c ∷ [] else []

abbrev no_conditions : List FailedCondition → Bool
no_conditions [] = true
no_conditions (c ∷ cs) = false

pub data AttributionVerdict : Type 0 where
  not_attempted attributed confounded insufficient : AttributionVerdict

abbrev pub is_attributed : AttributionVerdict → Bool
is_attributed attributed = true
is_attributed not_attempted = false
is_attributed confounded = false
is_attributed insufficient = false

-- `evaluate` gives the evaluator's reward for the sentinel trace; `now` is the time at which the
-- budget is read.
pub evaluate_readiness :
    EvolutionState
    → AttributionVerdict
    → (evaluate : ReviewTrace → Reward) → BudgetController
    → (now : ℕ) → EvolutionVerdict
unfolding recommended
evaluate_readiness current verdict evaluate budget now =
    let reward = evaluate sentinel_trace in
    let failed =
      fails_if (not (is_attributed verdict)) attribution_insufficient
      ++ fails_if (is_poor reward.quality || negative reward.scalar) regression_failed
      ++ fails_if (exceeded budget now) budget_exhausted in
    record {
      can_proceed = no_conditions failed;
      recommended_next = recommended current;
      reason =
          if no_conditions failed
          then []
          else codes "One or more readiness conditions failed (see failed_conditions)";
      failed_conditions = failed;
      reward_quality = reward.quality;
    }

pub reset_to_idle : EvolutionState → EvolutionState
reset_to_idle done = idle
reset_to_idle idle = idle
reset_to_idle harness = harness
reset_to_idle data_state = data_state
reset_to_idle model = model
