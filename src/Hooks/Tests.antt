-- ===== src/Hooks/Tests.antt =====
-- Applications of the theorems on tool hooks (src/common/tools/tool_hook_registry.cpp) to a registry
-- of two hooks, the later of which runs first and denies, and of those on agent hooks
-- (src/core/agent_hook_registry.cpp).
use hydra_forge.Prelude.{ℕ, ◌+◌, ◌≡◌, refl, ◌↔◌, ◌⊎◌, [], ◌∷◌}
use hydra_forge.Prelude.Int.{pos, negsuc}
use hydra_forge.Prelude.Maps.{lookup}
use hydra_forge.Prelude.Text.{Text, codes, same}
use hydra_forge.Hooks.{
  exception, returned, fail_closed, fail_open, continue, deny, HookEntry, PreHook, ToolHookRegistry,
  threw, unknown, Progress, matched_hooks, run_hooks, run_pre_hook, goes_on, apply_pre_hooks,
}
use hydra_forge.Hooks.Agents.{
  AgentEntry, AgentPreHook, AgentPostHook, AgentHookRegistry, modify_context, apply_agent_pre_hooks,
}
use hydra_forge.Hooks.Agents.Laws.{IsFinal, apply_agent_pre_hooks-IsFinal}
use hydra_forge.Hooks.Chain.{AllGoOn, apply_pre_hooks-continue_iff}

abbrev Hook : Type 0
Hook = PreHook Text ℕ ℕ ℕ

-- It throws, and the outside state counts the call.
abbrev broken : Hook
broken meta ctx args w = (threw unknown, w + 1)

abbrev late : HookEntry Hook
late = record {
  tool_glob = codes "fs/*";
  hook = broken;
  priority = pos 5;
  policy = fail_open;
  seq = 0;
}

abbrev early : HookEntry Hook
early = record {
  tool_glob = codes "*";
  hook = broken;
  priority = negsuc 2;
  policy = fail_closed;
  seq = 1;
}

abbrev registry : ToolHookRegistry Text ℕ ℕ ℕ ℕ
registry = record { pre_hooks = late ∷ early ∷ []; post_hooks = []; next_seq = 2 }

abbrev start : Progress ℕ ℕ
start = record { current = 7; warnings = []; outside = 0 }

abbrev tool : Text
tool = codes "fs/read"

both-matched : matched_hooks tool registry.pre_hooks ≡ early ∷ late ∷ []
unfolding matched_hooks same
both-matched = refl

nothing-run :
    run_hooks (run_pre_hook {M = Text} {X = ℕ} {A = ℕ} {W = ℕ} tool 0 0) [] start ≡ goes_on start
unfolding run_hooks lookup same
nothing-run = refl

apply_pre_hooks-continue_iff_example :
    let action = (apply_pre_hooks (λ n. n) tool 0 registry 0 start).0.action in
    ((action ≡ continue) ⊎ (action ≡ deny))
    × ((action ≡ continue) ↔ AllGoOn tool 0 0 (matched_hooks tool registry.pre_hooks) start)
apply_pre_hooks-continue_iff_example = apply_pre_hooks-continue_iff (λ n. n) tool 0 registry 0 start

-- A hook that gives the step another input, and one that throws afterwards under `fail_open`.
abbrev rewriting : AgentEntry (AgentPreHook Text ℕ)
rewriting = record {
  hook = λ agent input w. (
    returned (record {
      action = modify_context;
      deny_reason = [];
      modified_context = (codes "input", codes "new") ∷ [];
    }),
    w,
  );
  priority = pos 1;
  policy = fail_closed;
}

abbrev agents : AgentHookRegistry Text ℕ
agents = record { pre_hooks = (codes "plan*", rewriting ∷ []) ∷ []; post_hooks = [] }

abbrev step_input : Progress Text ℕ
step_input = record { current = codes "old"; warnings = []; outside = 0 }

apply_agent_pre_hooks-IsFinal_example :
    IsFinal
      (apply_agent_pre_hooks (λ n. n) (λ H before es. es) (codes "planner") agents step_input).0
apply_agent_pre_hooks-IsFinal_example =
    apply_agent_pre_hooks-IsFinal (λ n. n) (λ H before es. es) (codes "planner") agents step_input

abbrev second_input : Progress Text ℕ
second_input = record step_input { current = codes "new" }

abbrev failing : AgentEntry (AgentPostHook Text ℕ)
failing = record {
  hook = λ agent output w. (threw (exception (codes "late")), w + 1);
  priority = pos 1;
  policy = fail_closed;
}
