-- ===== src/Governance/Tests.antt =====
-- Applications of the theorems on the mutation governor (src/common/governance/mutation_governor.cpp)
-- to one governor, which asks a human who always agrees.
use hydra_forge.Prelude.{ℕ, ◌+◌, ◌≡◌, ◌≢◌, ◌↔◌, true, false, [], ◌∷◌, some}
use hydra_forge.Prelude.Text.{codes}
use hydra_forge.Governance.{
  agent, MutationContext, MutationGovernor, World, returns, approval, acceptable, propose,
}
use hydra_forge.Governance.Approval.{Admitted, Listed, propose-approves_iff}

-- The outside state counts the calls.
abbrev governor : MutationGovernor ℕ
governor = record {
  evaluate = λ trace w. (acceptable, w + 1);
  whitelist = codes "planner" ∷ [];
  process_request = some (λ meta call preview w. (true, w + 1));
  regression_gate = some (λ c w. (false, w + 1));
}

abbrev skill_change : MutationContext
skill_change = record {
  mutation_id = codes "m1";
  source_id = codes "planner";
  mutation_kind = codes "L3_skill";
  subject_ref = codes "skill";
  proposed_change = codes "change";
  parent_ref = [];
  version_id = [];
  mode = agent;
  evaluation_refs = [];
}

abbrev start : World ℕ
start = record { outside = 0; bus = [] }

propose-approves_iff_example : ((propose governor skill_change start).0 ≡ returns approval) ↔ (
    (skill_change.source_id ≢ [])
    × Listed skill_change.source_id governor.whitelist
    × Admitted governor skill_change 0)
propose-approves_iff_example = propose-approves_iff governor skill_change start
