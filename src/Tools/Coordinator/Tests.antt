-- ===== src/Tools/Coordinator/Tests.antt =====
-- Calls of one tool through the coordinator.
use hydra_forge.Prelude.{◌≡◌, refl, true, false, [], none, some, if◌then◌else◌}
use hydra_forge.Prelude.Text.{Text, same, codes, contains}
use hydra_forge.Json.{Json, null, text}
use hydra_forge.Governance.{read_only, workflow}
use hydra_forge.Hooks.{returned, unknown}
use hydra_forge.Tools.{ToolMetadata, ToolCallContext, strict}
use hydra_forge.Tools.Approval.{create, agent, plan}
use hydra_forge.Tools.Coordinator.{World, ToolCoordinator, Environment, execute}
use hydra_forge.Tools.Coordinator.Laws.{Registry, with_registry, execute-call_tool}
use hydra_forge.Tools.Coordinator.Nesting.{nesting, execute-nesting}

abbrev env : Environment Text
env = record {
  lib = record { dump = λ j. codes "j"; eq = λ a b. true; stoll = λ s. none; stod = λ s. none };
  weakly_canonical = some;
  regex_search = contains;
  print = λ n. codes "0";
  generated_id = codes "id";
  now = 0;
  metadata_json = λ m. [];
  type_error = unknown;
}

abbrev answers : Json → Registry Unit
answers j name args s = (returned j, s)

abbrev coordinator : ToolCoordinator Unit Text
coordinator = record {
  call_tool = answers null;
  approval_handler = record {
    policy = some (create agent);
    callback = none;
    default_timeout_ms = 300000;
  };
  hook_registry = none;
  path_policy = record { allowed_prefixes = []; denied_patterns = [] };
}

abbrev list_files : ToolMetadata
list_files = record {
  name = codes "ls";
  description = [];
  domain = codes "fs";
  category = read_only;
  min_layer = workflow;
  approval = record {
    requires_approval_in_plan = true;
    requires_approval_in_agent = true;
    requires_approval_in_yolo = false;
    force_approval_always = false;
  };
  allowed_layers = [];
  cost_estimate = 0;
  timeout_ms = 30000;
  input_schema = none;
  output_schema = none;
  validation_mode = strict;
}

abbrev call_from : Text → ToolCallContext
call_from layer = record {
  session_id = codes "s";
  caller_layer = layer;
  target_path = [];
  is_in_fleet_mode = false;
  call_count_this_session = 0;
  trace_id = [];
}

abbrev idle_world : World Unit
idle_world = record { depth = 0; active = []; bus = some []; outside = tt }

-- It differs from the other only for tools of another name.
abbrev picky : Registry Unit
picky name args s = (returned (if same name (codes "ls") then null else text []), s)

execute-call_tool_example :
    execute env
      (with_registry env coordinator list_files (call_from (codes "workflow")) (answers null))
      list_files
      (call_from (codes "workflow"))
      false
      []
      idle_world
    ≡ execute env
        (with_registry env coordinator list_files (call_from (codes "workflow")) picky)
        list_files
        (call_from (codes "workflow"))
        false
        []
        idle_world
unfolding same
execute-call_tool_example =
    execute-call_tool env coordinator list_files (call_from (codes "workflow")) (answers null) picky
      false [] idle_world (λ passed s' a. refl)

abbrev planning : ToolCoordinator Unit Text
planning = record coordinator {
  approval_handler = record {
    policy = some (create plan);
    callback = none;
    default_timeout_ms = 300000;
  };
}

execute-nesting_example :
    nesting
      (execute env coordinator list_files (call_from (codes "workflow")) false [] idle_world).1
    ≡ (0, [])
execute-nesting_example =
    execute-nesting env coordinator list_files (call_from (codes "workflow")) (λ name args s. refl)
      false [] idle_world
