-- ===== src/Hooks/Agents.antt =====
-- `InMemoryAgentHookRegistry` (src/core/agent_hook_registry.cpp): hooks before and after an agent's
-- step. `G` is the agent, of which the name is read. `std::sort` is the parameter `sort`, since the
-- order that it gives entries of one priority is not determined; `glob_match` is the bus's, whose text
-- this file repeats. An exception that is no `std::exception` leaves the call.
pub mod Laws
use hydra_forge.Prelude.{
  ℕ, ◌≡◌, ◌≢◌, refl, ap, ◌∙◌, Bool, true, false, List, [], ◌∷◌, ◌++◌, map, Option, none, some,
  if◌then◌else◌, arith,
}
use hydra_forge.Prelude.Int.{ℤ}
use hydra_forge.Prelude.Maps.{lookup}
use hydra_forge.Prelude.Text.{Text, codes, same, text_eq}
use hydra_forge.Bus.{is_true}
use hydra_forge.Bus.Glob.{glob_match}
use hydra_forge.Hooks.{
  HookErrorPolicy, fail_closed, fail_open, Thrown, exception, unknown, Attempt, returned, threw,
  Progress, Step, goes_on, stops, then_run, run_hooks, less_int,
}

pub data AgentAction : Type 0 where
  proceed reject modify_context : AgentAction

pub record AgentPreHookResult : Type 0 where
  pub action : AgentAction
  pub deny_reason : Text
  pub modified_context : List (Text × Text)

pub record AgentPostHookResult : Type 0 where
  pub modify_result : Bool
  pub modified_output : Text

pub record AgentEntry (H : Type 0) : Type 0 where
  pub hook : H
  pub priority : ℤ
  pub policy : HookErrorPolicy

abbrev pub AgentPreHook : (G W : Type 0) → Type 0
AgentPreHook G W = G → Text → W → Attempt AgentPreHookResult × W

abbrev pub AgentPostHook : (G W : Type 0) → Type 0
AgentPostHook G W = G → Text → W → Attempt AgentPostHookResult × W

-- The lists of entries under their globs.
abbrev pub AgentTable : Type 0 → Type 0
AgentTable H = List (Text × List (AgentEntry H))

pub record AgentHookRegistry (G W : Type 0) : Type 0 where
  pub pre_hooks : AgentTable (AgentPreHook G W)
  pub post_hooks : AgentTable (AgentPostHook G W)

pub push_entry : {H : Type 0} → Text → AgentEntry H → AgentTable H → AgentTable H
push_entry glob e [] = (glob, e ∷ []) ∷ []
push_entry glob e ((g, es) ∷ table) =
    let rest = push_entry glob e table in
    if same g glob then (g, es ++ e ∷ []) ∷ table else (g, es) ∷ rest

-- An empty function is not registered.
pub add_entry : {H : Type 0} → Text → Option H → ℤ → HookErrorPolicy → AgentTable H → AgentTable H
unfolding push_entry
add_entry glob none priority policy table = table
add_entry glob (some h) priority policy table =
    push_entry glob (record { hook = h; priority = priority; policy = policy }) table

-- The entries of all globs that match the name.
unfoldable pub matching : {H : Type 0} → Text → AgentTable H → List (AgentEntry H)
matching name [] = []
matching name ((g, es) ∷ table) =
    let rest = matching name table in if is_true (glob_match g name) then es ++ rest else rest

-- The higher priority goes first.
pub goes_first : {H : Type 0} → AgentEntry H → AgentEntry H → Bool
goes_first a b = less_int b.priority a.priority

abbrev pub continue_result : AgentPreHookResult
continue_result = record { action = proceed; deny_reason = []; modified_context = [] }

abbrev pub no_result : AgentPostHookResult
no_result = record { modify_result = false; modified_output = [] }

module _ {G W : Type 0} where
  pub register_agent_pre_hook :
      Text
      → Option (AgentPreHook G W)
      → ℤ
      → HookErrorPolicy
      → AgentHookRegistry G W
      → AgentHookRegistry G W
  unfolding add_entry
  register_agent_pre_hook glob hook priority policy r = record r {
    pre_hooks = add_entry glob hook priority policy r.pre_hooks;
  }

  pub register_agent_post_hook :
      Text
      → Option (AgentPostHook G W)
      → ℤ
      → HookErrorPolicy
      → AgentHookRegistry G W
      → AgentHookRegistry G W
  unfolding add_entry
  register_agent_post_hook glob hook priority policy r = record r {
    post_hooks = add_entry glob hook priority policy r.post_hooks;
  }

-- The current output, and the result so far.
abbrev pub Output : Type 0
Output = Text × AgentPostHookResult

abbrev pub post_failure : HookErrorPolicy → Text
post_failure fail_closed = codes "post-hook failed (FailClosed): "
post_failure fail_open = codes "post-hook failed (FailOpen): "

module _ {G W : Type 0} (agent : G) where
  -- What a stop of a loop gives the caller: a result, or the exception that leaves the call.
  abbrev settle_agent_pre :
      AgentPreHookResult → Progress Text W → Step Text (Attempt AgentPreHookResult) W
  settle_agent_pre r p = elim r.action [
    | reject ↦ stops (returned r) p.warnings p.outside
    | modify_context ↦ elim (lookup (codes "input") r.modified_context) [
      | none ↦ goes_on p
      | some input ↦ goes_on (record p { current = input })
    ]
    | proceed ↦ goes_on p
  ]

  abbrev recover_agent_pre :
      HookErrorPolicy → Thrown → Progress Text W → Step Text (Attempt AgentPreHookResult) W
  recover_agent_pre policy unknown p = stops (threw unknown) p.warnings p.outside
  recover_agent_pre fail_closed (exception what) p =
      stops
        (returned (record {
          action = reject;
          deny_reason = codes "pre-hook failed: " ++ what;
          modified_context = [];
        }))
        p.warnings p.outside
  recover_agent_pre fail_open (exception what) p =
      goes_on
        (record p { warnings = p.warnings ++ (codes "pre-hook failed (FailOpen): " ++ what) ∷ [] })

  abbrev pub run_agent_pre_hook :
      AgentEntry (AgentPreHook G W) → Progress Text W → Step Text (Attempt AgentPreHookResult) W
  run_agent_pre_hook e p =
      let r = e.hook agent p.current p.outside in
      let v : Progress Text W = record p { outside = r.1 } in
      elim r.0 [ returned a ↦ settle_agent_pre a v | threw x ↦ recover_agent_pre e.policy x v ]

  abbrev pub close_agent_pre :
      Step Text (Attempt AgentPreHookResult) W → Attempt AgentPreHookResult × List Text × W
  close_agent_pre (goes_on p) = (returned continue_result, p.warnings, p.outside)
  close_agent_pre (stops d ws w) = (d, ws, w)

  pub run_agent_pre_hooks :
      List (AgentEntry (AgentPreHook G W))
      → Progress Text W
      → Attempt AgentPreHookResult × List Text × W
  unfolding run_hooks
  run_agent_pre_hooks es p = close_agent_pre (run_hooks run_agent_pre_hook es p)

  abbrev settle_agent_post : AgentPostHookResult → Progress Output W → Progress Output W
  settle_agent_post r p =
      if r.modify_result
      then record p {
        current = (
          r.modified_output,
          record { modify_result = true; modified_output = r.modified_output },
        );
      }
      else p

  -- Both policies leave a warning and go on.
  abbrev recover_agent_post : HookErrorPolicy → Thrown → Progress Output W → Step Output Thrown W
  recover_agent_post policy unknown p = stops unknown p.warnings p.outside
  recover_agent_post policy (exception what) p =
      goes_on (record p { warnings = p.warnings ++ (post_failure policy ++ what) ∷ [] })

  abbrev pub run_agent_post_hook :
      AgentEntry (AgentPostHook G W) → Progress Output W → Step Output Thrown W
  run_agent_post_hook e p =
      let r = e.hook agent p.current.0 p.outside in
      let v : Progress Output W = record p { outside = r.1 } in
      elim r.0 [
        | returned a ↦ goes_on (settle_agent_post a v)
        | threw x ↦ recover_agent_post e.policy x v
      ]

  abbrev pub close_agent_post : Step Output Thrown W → Attempt AgentPostHookResult × List Text × W
  close_agent_post (goes_on p) = (returned p.current.1, p.warnings, p.outside)
  close_agent_post (stops x ws w) = (threw x, ws, w)

  pub run_agent_post_hooks :
      List (AgentEntry (AgentPostHook G W))
      → Progress Output W
      → Attempt AgentPostHookResult × List Text × W
  unfolding run_hooks
  run_agent_post_hooks es p = close_agent_post (run_hooks run_agent_post_hook es p)

module _ {G W : Type 0} (name : G → Text)
    (sort : (H : Type 0)
      → (AgentEntry H → AgentEntry H → Bool)
      → List (AgentEntry H)
      → List (AgentEntry H))
    (agent : G) (r : AgentHookRegistry G W) where
  pub apply_agent_pre_hooks : Progress Text W → Attempt AgentPreHookResult × List Text × W
  unfolding run_agent_pre_hooks matching goes_first
  apply_agent_pre_hooks p =
      run_agent_pre_hooks agent (sort _ goes_first (matching (name agent) r.pre_hooks)) p

  pub apply_agent_post_hooks : Text → List Text → W → Attempt AgentPostHookResult × List Text × W
  unfolding run_agent_post_hooks matching goes_first
  apply_agent_post_hooks output warnings w =
      run_agent_post_hooks agent (sort _ goes_first (matching (name agent) r.post_hooks))
        (record { current = (output, no_result); warnings = warnings; outside = w })
