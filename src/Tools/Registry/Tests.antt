-- ===== src/Tools/Registry/Tests.antt =====
-- One tool that is registered, called and disabled.
use hydra_forge.Prelude.{ℕ, ◌≡◌, refl, true, false, [], ◌∷◌, none, some}
use hydra_forge.Prelude.Text.{Text, text_eq, same, codes, contains, starts_with}
use hydra_forge.Prelude.Maps.{has, lookup}
use hydra_forge.Json.{null}
use hydra_forge.Governance.{read_only, workflow}
use hydra_forge.Hooks.{returned}
use hydra_forge.Tools.{ToolMetadata, strict}
use hydra_forge.Tools.Registry.{ToolFunc, ToolRegistry, error_json, has_tool, call_tool}
use hydra_forge.Tools.Registry.Secure.{
  SecureToolRegistry, granted, disable_tool, check_security, call_passthrough, call_direct,
  secure_call_tool, secure_unregister, is_disabled,
}
use hydra_forge.Tools.Registry.Secure.Laws.{disable_tool-call_tool, Secured, call_direct-granted}

abbrev print : ℕ → Text
print n = codes "0"

abbrev echo : ToolFunc ℕ
echo args w = (returned null, w)

abbrev echo_metadata : ToolMetadata
echo_metadata = record {
  name = codes "echo";
  description = [];
  domain = [];
  category = read_only;
  min_layer = workflow;
  approval = record {
    requires_approval_in_plan = true;
    requires_approval_in_agent = true;
    requires_approval_in_yolo = false;
    force_approval_always = false;
  };
  allowed_layers = [];
  cost_estimate = 0;
  timeout_ms = 30000;
  input_schema = none;
  output_schema = none;
  validation_mode = strict;
}

abbrev empty_registry : ToolRegistry ℕ
empty_registry = record { tools = []; tool_metadata = []; llm_tools = codes "llm" ∷ [] }

abbrev with_echo : ToolRegistry ℕ
with_echo = record empty_registry {
  tools = (codes "echo", echo) ∷ [];
  tool_metadata = (codes "echo", echo_metadata) ∷ [];
}

abbrev secured : SecureToolRegistry ℕ Text
secured = record {
  registry_ref = some with_echo;
  disabled_tools = [];
  tool_policies = [];
  default_policy = record { allowed_prefixes = []; denied_patterns = [] };
}

disable_tool-call_tool_example :
    let d = disable_tool (codes "echo") secured in
    ((secure_call_tool print some contains (codes "echo") [] d 3).1 ≡ 3)
    × ((call_passthrough print some contains (codes "echo") [] d 3).1 ≡ 3)
    × (secure_unregister (codes "echo") d ≡ d)
disable_tool-call_tool_example =
    disable_tool-call_tool print some contains (codes "echo") [] secured 3

echo_granted :
    call_direct print some contains (codes "echo") [] secured 3 ≡ (returned (granted null), 3)
unfolding call_direct check_security call_passthrough is_disabled has_tool call_tool lookup has same
    starts_with
echo_granted = refl

call_direct-granted_example :
    Secured print some contains (codes "echo") [] secured
    × ((r : ToolRegistry ℕ) × (some with_echo ≡ some r)
        × (has_tool (codes "echo") r ≡ true)
        × (call_tool (codes "echo") [] r 3 ≡ (returned null, 3)))
call_direct-granted_example =
    call_direct-granted print some contains (codes "echo") [] secured 3 3 null echo_granted

-- An LLM tool is a tool of the registry that `call_tool` does not find.
llm_run :
    (has_tool (codes "llm") with_echo ≡ true)
    × (call_tool (codes "llm") [] with_echo 3
        ≡ (returned (error_json (codes "Tool not found: llm")), 3))
unfolding has_tool call_tool lookup has same starts_with
llm_run = (refl, refl)
