-- ===== src/Tools/Registry.antt =====
-- `ToolRegistry` (src/common/tools/registry.cpp). A tool is a function on an outside state that may throw; the
-- LLM tools are known by their names only.
pub mod Secure
mod Tests
use hydra_forge.Prelude.{
  ℕ, Bool, true, false, not, ◌&&◌, ◌||◌, List, [], ◌∷◌, ◌++◌, Option, none, some, if◌then◌else◌,
  map, any,
}
use hydra_forge.Prelude.Int.{pos}
use hydra_forge.Prelude.Text.{Text, same, codes, starts_with, text_eq}
use hydra_forge.Prelude.Maps.{lookup, insert, erase, has, at}
use hydra_forge.Json.{Json, Members, null, boolean, integer, text, object, no_members, member}
use hydra_forge.Governance.{
  ToolCategory, read_only, write_file, execute, network, state_modify, LayerProfile, workflow,
  thinking, cognitive,
}
use hydra_forge.Hooks.{Attempt, returned, threw, Thrown, exception, unknown}
use hydra_forge.Tools.{ToolMetadata}
use hydra_forge.Tools.Guards.{
  CheckResult, allowed, path_matches_denied_pattern, PathPolicy, check, is_dangerous,
}
use hydra_forge.Tools.Validation.{Args, reason_of}

abbrev pub ToolFunc : (W : Type 0) → Type 0
ToolFunc W = Args → W → Attempt Json × W

pub record ToolRegistry (W : Type 0) : Type 0 where
  pub tools : List (Text × ToolFunc W)
  pub tool_metadata : List (Text × ToolMetadata)
  pub llm_tools : List Text

abbrev pub error_json : Text → Json
error_json message = object (member (codes "error") (text message) no_members)

abbrev pub is_empty_text : Text → Bool
is_empty_text [] = true
is_empty_text (x ∷ xs) = false

abbrev pub is_dangerous_category : ToolCategory → Bool
is_dangerous_category execute = true
is_dangerous_category network = true
is_dangerous_category state_modify = true
is_dangerous_category read_only = false
is_dangerous_category write_file = false

abbrev pub same_layer : LayerProfile → LayerProfile → Bool
same_layer workflow workflow = true
same_layer thinking thinking = true
same_layer cognitive cognitive = true
same_layer _ _ = false

abbrev pub layer_listed : ToolMetadata → List LayerProfile → Bool
layer_listed meta [] = true
layer_listed meta (l ∷ ls) = any (same_layer meta.min_layer) (l ∷ ls)

module _ {W : Type 0} where
  pub has_tool : Text → ToolRegistry W → Bool
  unfolding has
  has_tool name r = has name r.tools || any (same name) r.llm_tools

  -- An exception that is not a `std::exception` goes on.
  abbrev pub settle_call : Attempt Json × W → Attempt Json × W
  settle_call (returned j, w) = (returned j, w)
  settle_call (threw (exception what), w) =
      (returned (error_json (codes "Tool execution failed: " ++ what)), w)
  settle_call (threw unknown, w) = (threw unknown, w)

  pub call_tool : Text → Args → ToolRegistry W → W → Attempt Json × W
  unfolding lookup
  call_tool name args r w = elim (lookup name r.tools) [
    | none ↦ (returned (error_json (codes "Tool not found: " ++ name)), w)
    | some f ↦ settle_call (f args w)
  ]

  -- `none`: `std::invalid_argument`.
  pub register_tool_function :
      Text → ToolMetadata → ToolFunc W → ToolRegistry W → Option (ToolRegistry W)
  unfolding has insert
  register_tool_function name meta f r =
      if is_empty_text name
      then none
      else if has name r.tools
      then none
      else if not meta.approval.requires_approval_in_plan
          && not meta.approval.requires_approval_in_agent
          && is_dangerous_category meta.category
      then none
      else if not (layer_listed meta meta.allowed_layers)
      then none
      else some (record r {
        tools = insert name f r.tools;
        tool_metadata = insert name meta r.tool_metadata;
      })

  pub unregister_tool_function : Text → ToolRegistry W → ToolRegistry W
  unfolding erase
  unregister_tool_function name r = record r {
    tools = erase name r.tools;
    tool_metadata = erase name r.tool_metadata;
  }
