-- ===== src/Tools/Coordinator.antt =====
-- `ToolCoordinator::execute` and `ToolCoordinatorNestingGuard` (src/common/tools/tool_coordinator.cpp): the
-- guard of nested calls, the hooks, the check of the arguments, the layers, the approval, the call of the
-- registry and the events. The registry is a function on the world, in which it may call the coordinator
-- again, and it may throw; callback and hooks act on an outside state `W`. Identifiers and times of the
-- events are left out.
pub mod Laws
pub mod Nesting
mod Tests
use hydra_forge.Prelude.{
  ℕ, ◌+◌, ◌-◌, Bool, true, false, not, ◌&&◌, ◌||◌, List, [], ◌∷◌, ◌++◌, Option, none, some,
  if◌then◌else◌, leb, length, any, map,
}
use hydra_forge.Prelude.Int.{pos}
use hydra_forge.Prelude.Text.{Text, same, codes}
use hydra_forge.Json.{
  Json, Items, Members, null, boolean, integer, double, text, array, object, no_items, item,
  no_members, member, get_member, set_member,
}
use hydra_forge.Governance.{ToolCategory, LayerProfile}
use hydra_forge.Policy.{parse_layer, check_layer_permission, category_to_string}
use hydra_forge.Hooks.{
  Attempt, returned, threw, Thrown, exception, ToolHookRegistry, PreHookResult, Action, continue,
  deny, modify_args, Progress, apply_pre_hooks, apply_post_hooks,
}
use hydra_forge.Tools.{
  ToolMetadata, ToolCallContext, ToolPreview, ErrorCode, unknown, permission_denied, invalid_params,
}
use hydra_forge.Tools.Approval.{ApprovalHandler, process_request}
use hydra_forge.Tools.Guards.{PathPolicy}
use hydra_forge.Tools.Results.{ToolResult, success, error, empty_object}
use hydra_forge.Tools.Validation.{
  Args, Checked, passes, refuses, ValidationStage, stage_name, JsonLibrary, sanitize,
}

-- The constructor is the topic: `tool.coordinator.cycle_detected`, `tool.audit.denied` with its reason and
-- the stage of the check of the arguments where it is one, `tool.execution.start`, `tool.audit.invoked`,
-- `tool.audit.completed`, `tool.execution.end`.
pub data ToolEvent : Type 0 where
  cycle_detected : (callee : Text) → ToolEvent
  denied : (tool reason : Text) → Option ValidationStage → ToolEvent
  execution_start : (tool : Text) → ToolEvent
  invoked : (tool : Text) → (args_keys_count : ℕ) → ToolEvent
  completed : (tool : Text) → (ok : Bool) → ToolEvent
  execution_end : (tool : Text) → (ok : Bool) → ToolEvent

-- The nesting of the thread (`tls_nesting_depth`, `tls_active_call_stack`), the bus where there is one.
pub record World (W : Type 0) : Type 0 where
  pub depth : ℕ
  pub active : List Text
  pub bus : Option (List ToolEvent)
  pub outside : W

abbrev pub sent : ToolEvent → Option (List ToolEvent) → Option (List ToolEvent)
sent e none = none
sent e (some es) = some (es ++ e ∷ [])

abbrev pub emit : {W : Type 0} → ToolEvent → World W → World W
emit e s = record s { bus = sent e s.bus }

pub record ToolCoordinator (W R : Type 0) : Type 0 where
  pub call_tool : Text → Args → World W → Attempt Json × World W
  pub approval_handler : ApprovalHandler W
  pub hook_registry : Option (ToolHookRegistry ToolMetadata ToolCallContext Args ToolResult W)
  pub path_policy : PathPolicy R

-- What is of libraries, the system and the clock.
pub record Environment (R : Type 0) : Type 0 where
  pub lib : JsonLibrary
  pub weakly_canonical : Text → Option Text
  pub regex_search : R → Text → Bool
  pub print : ℕ → Text
  pub generated_id : Text
  pub now : ℕ
  pub metadata_json : ToolMetadata → Text
  -- What `get<std::string>` of another value throws.
  pub type_error : Thrown

-- The call stack without its last entry, if that is the name.
abbrev pub pop_if_last : Text → List Text → List Text
pop_if_last name [] = []
pop_if_last name (x ∷ []) = if same x name then [] else x ∷ []
pop_if_last name (x ∷ y ∷ xs) = x ∷ pop_if_last name (y ∷ xs)

-- The guard's destructor.
abbrev pub leave : {W : Type 0} → Text → World W → World W
leave name s = record s { active = pop_if_last name s.active; depth = s.depth - 1 }

abbrev pub enter : {W : Type 0} → Text → World W → World W
enter name s = record s { active = s.active ++ name ∷ []; depth = s.depth + 1 }

-- The separator is an arrow, in UTF-8.
abbrev pub format_call_stack : List Text → Text
format_call_stack [] = []
format_call_stack (x ∷ []) = x
format_call_stack (x ∷ y ∷ xs) = x ++ 32 ∷ 226 ∷ 134 ∷ 146 ∷ 32 ∷ [] ++ format_call_stack (y ∷ xs)

abbrev pub cycle_error : Text → List Text → Thrown
cycle_error name stack = exception (
    codes "ToolCoordinator cycle detected: "
    ++ name
    ++ codes " already in call_stack | stack: "
    ++ format_call_stack stack)

abbrev pub depth_error : (print : ℕ → Text) → ℕ → Text → List Text → Thrown
depth_error print depth name stack = exception (
    codes "ToolCoordinator nesting depth > 2 (depth="
    ++ print (depth + 1)
    ++ codes "): "
    ++ name
    ++ codes " | call_stack: "
    ++ format_call_stack stack)

-- The guard's constructor, which throws, or lets the body run and is destroyed after it.
abbrev pub guarded :
    {W A : Type 0} (print : ℕ → Text) (name : Text)
    → (World W → Attempt A × World W)
    → World W
    → Attempt A × World W
guarded print name body s =
    let r = body (enter name s) in
    if any (λ x. same x name) s.active
    then (threw (cycle_error name s.active), emit (cycle_detected name) s)
    else if leb 2 s.depth
    then (threw (depth_error print s.depth name s.active), s)
    else (r.0, leave name r.1)

-- The envelope of what the registry returns.
abbrev pub text_or : Text → Option Json → Text
text_or d (some (text t)) = t
text_or d _ = d

abbrev pub unless_failed : Json → Members → Option Json → ToolResult
unless_failed raw ms (some (boolean false)) =
    error unknown (text_or (codes "Unknown error") (get_member (codes "error_message") ms))
      empty_object
unless_failed raw ms _ = success raw

abbrev pub unless_error : Json → Members → Option Json → ToolResult
unless_error raw ms (some (text t)) = error unknown t empty_object
unless_error raw ms _ = unless_failed raw ms (get_member (codes "success") ms)

pub envelope : Json → ToolResult
unfolding get_member
envelope (object ms) = unless_error (object ms) ms (get_member (codes "error") ms)
envelope raw = success raw

-- The reason that is reported for a result that the post-hooks leave as an error; `none`: an entry that is
-- no text, for which `get` throws.
abbrev pub reason_in : Option Json → Option Text
reason_in none = some (codes "post-hook fail-closed")
reason_in (some (text t)) = some t
reason_in (some _) = none

abbrev pub post_reason : ToolResult → Option Text
post_reason r = elim r.meta [
  | object ms ↦ reason_in (get_member (codes "error_message") ms)
  | _ ↦ some (codes "post-hook fail-closed")
]

abbrev pub preview_of : (print : ℕ → Text) → (metadata_json : Text) → ToolMetadata → ℕ → ToolPreview
preview_of print metadata_json meta n = record {
  command_line = meta.name ++ codes "(" ++ print n ++ codes " args)";
  diff_text = [];
  affected_paths = [];
  estimated_duration = 0;
  risk_summary = codes "Tool category: " ++ category_to_string meta.category;
  metadata_json = metadata_json;
}

abbrev pub on_action : {A : Type 0} → Action → (on_deny on_modify on_continue : A) → A
on_action deny a b c = a
on_action modify_args a b c = b
on_action continue a b c = c

module _ {W R : Type 0} (env : Environment R) (c : ToolCoordinator W R) (meta : ToolMetadata)
    (ctx : ToolCallContext) where
  abbrev pub refuse :
      Text → Option ValidationStage → ToolResult → World W → Attempt ToolResult × World W
  refuse reason stage result s = (returned result, emit (denied meta.name reason stage) s)

  abbrev pub finish : ToolResult → World W → Attempt ToolResult × World W
  finish r s = (returned r, emit (execution_end meta.name r.ok) (emit (completed meta.name r.ok) s))

  abbrev pub report_denial : ToolResult → World W → Option Text → Attempt ToolResult × World W
  report_denial r s none = (threw env.type_error, s)
  report_denial r s (some reason) = refuse reason none r s

  -- The reason is read only where there is a bus to report it on.
  abbrev pub deny_post :
      ToolResult → World W → Option (List ToolEvent) → Attempt ToolResult × World W
  deny_post r s none = (returned r, s)
  deny_post r s (some es) = report_denial r s (post_reason r)

  -- With a hook registry, an error of the tool is reported as a denial, too.
  abbrev pub after_post :
      Option (ToolHookRegistry ToolMetadata ToolCallContext Args ToolResult W)
      → List Text
      → ToolResult
      → World W
      → Attempt ToolResult × World W
  after_post none warnings result s = finish result s
  after_post (some hooks) warnings result s =
      let p =
        apply_post_hooks (λ m. m.name) meta ctx hooks
          (λ msg. error permission_denied msg empty_object)
          (record { current = result; warnings = warnings; outside = s.outside }) in
      let s' : World W = record s { outside = p.2 } in
      if p.0.ok then finish p.0 s' else deny_post p.0 s' s'.bus

  abbrev pub after_call : List Text → Attempt Json × World W → Attempt ToolResult × World W
  after_call warnings (threw x, s) = (threw x, s)
  after_call warnings (returned raw, s) = after_post c.hook_registry warnings (envelope raw) s

  abbrev pub approval_gate : Args → List Text → World W → Attempt ToolResult × World W
  approval_gate args warnings s =
      let r =
        process_request env.print env.generated_id env.now c.approval_handler meta ctx
          (preview_of env.print (env.metadata_json meta) meta (length args)) s.outside in
      let s' : World W = record s { outside = r.1 } in
      let called =
        after_call warnings
          (c.call_tool meta.name args (emit (invoked meta.name (length args)) s')) in
      if r.0
      then called
      else refuse (codes "Approval denied by policy") none
          (error permission_denied (codes "Approval denied by policy for tool: " ++ meta.name)
            empty_object)
          s'

  -- A layer that is unknown is an error without an event.
  abbrev pub layer_gate :
      Args → List Text → World W → Option LayerProfile → Attempt ToolResult × World W
  layer_gate args warnings s none = (
    returned (
        error unknown
          (codes "Unknown caller_layer: '"
            ++ ctx.caller_layer
            ++ codes "' (expected: workflow/thinking/cognitive)")
          empty_object),
    s,
  )
  layer_gate args warnings s (some l) =
      let next = approval_gate args warnings s in
      if check_layer_permission l meta.category
      then next
      else refuse
          (codes "Layer '"
            ++ ctx.caller_layer
            ++ codes "' cannot call category '"
            ++ category_to_string meta.category
            ++ codes "'")
          none
          (error permission_denied
            (codes "Layer permission denied: '"
              ++ ctx.caller_layer
              ++ codes "' cannot call category '"
              ++ category_to_string meta.category
              ++ codes "'")
            empty_object)
          s

  abbrev pub after_check : List Text → World W → Checked Args → Attempt ToolResult × World W
  after_check warnings s (refuses stage reason message) =
      refuse reason (some stage)
        (error invalid_params message
          (object (member (codes "validation_stage") (text (stage_name stage)) no_members)))
        s
  after_check warnings s (passes args) =
      layer_gate args warnings (emit (execution_start meta.name) s) (parse_layer ctx.caller_layer)

  abbrev pub check_args : Args → List Text → World W → Attempt ToolResult × World W
  check_args args warnings s =
      after_check warnings s
        (sanitize env.weakly_canonical env.regex_search c.path_policy env.lib meta args)

  abbrev pub after_pre :
      Args → World W → PreHookResult Args × List Text × W → Attempt ToolResult × World W
  after_pre args s (r, warnings, w) =
      let s' : World W = record s { outside = w } in
      on_action r.action
        (refuse r.deny_reason none (error permission_denied r.deny_reason empty_object) s')
        (check_args r.modified_args warnings s') (check_args args warnings s')

  abbrev pub pre_gate :
      Option (ToolHookRegistry ToolMetadata ToolCallContext Args ToolResult W)
      → Args
      → World W
      → Attempt ToolResult × World W
  pre_gate none args s = check_args args [] s
  pre_gate (some hooks) args s = after_pre args s (
      apply_pre_hooks (λ m. m.name) meta ctx hooks []
        (record { current = args; warnings = []; outside = s.outside }))

  -- `stop_requested` of the token.
  pub run_call : (stop_requested : Bool) → Args → World W → Attempt ToolResult × World W
  unfolding envelope
  run_call stop_requested args s =
      let go_on = pre_gate c.hook_registry args s in
      if stop_requested
      then refuse (codes "cancelled") none
          (error permission_denied (codes "cancelled") empty_object) s
      else go_on

  pub execute : (stop_requested : Bool) → Args → World W → Attempt ToolResult × World W
  unfolding run_call
  execute stop_requested args s = guarded env.print meta.name (run_call stop_requested args) s
