-- ===== src/Tools/Registry/Secure.antt =====
-- `SecureToolRegistry` (src/common/tools/secure_tool_registry.cpp), the decorator of the registry that checks
-- each call.
pub mod Laws
use hydra_forge.Prelude.{
  ℕ, Bool, true, false, not, ◌&&◌, ◌||◌, List, [], ◌∷◌, ◌++◌, Option, none, some, if◌then◌else◌,
  map, any,
}
use hydra_forge.Prelude.Int.{pos}
use hydra_forge.Prelude.Text.{Text, same, codes, starts_with, text_eq}
use hydra_forge.Prelude.Maps.{lookup, insert, erase, has, at}
use hydra_forge.Json.{Json, Members, null, boolean, integer, text, object, no_members, member}
use hydra_forge.Governance.{
  ToolCategory, read_only, write_file, execute, network, state_modify, LayerProfile, workflow,
  thinking, cognitive,
}
use hydra_forge.Hooks.{Attempt, returned, threw, Thrown, exception, unknown}
use hydra_forge.Tools.{ToolMetadata}
use hydra_forge.Tools.Guards.{
  CheckResult, allowed, path_matches_denied_pattern, PathPolicy, check, is_dangerous,
}
use hydra_forge.Tools.Validation.{Args, reason_of}
use hydra_forge.Tools.Registry.{
  ToolFunc, ToolRegistry, error_json, is_empty_text, is_dangerous_category, same_layer,
  layer_listed, has_tool, settle_call, call_tool, register_tool_function, unregister_tool_function,
}

pub data SecurityCode : Type 0 where
  permission_denied path_violation dangerous_command tool_not_registered unknown_error :
      SecurityCode

pub record SecurityError : Type 0 where
  pub code : SecurityCode
  pub message : Text
  pub tool_name : Text
  pub details : Text

pub record SecureToolRegistry (W R : Type 0) : Type 0 where
  pub registry_ref : Option (ToolRegistry W)
  pub disabled_tools : List (Text × Bool)
  pub tool_policies : List (Text × PathPolicy R)
  pub default_policy : PathPolicy R

-- `allowed` with the payload, or the error.
pub data Result : Type 0 where
  granted : Json → Result
  rejected : SecurityError → Result

abbrev pub code_number : SecurityCode → ℕ
code_number permission_denied = 0
code_number path_violation = 1
code_number dangerous_command = 2
code_number tool_not_registered = 3
code_number unknown_error = 4

abbrev pub policy_of : {R : Type 0} → Option (PathPolicy R) → PathPolicy R → PathPolicy R
policy_of none d = d
policy_of (some p) d = p

abbrev pub command_step : Text → Option Text → Option SecurityError
command_step name none = none
command_step name (some cmd) =
    if is_dangerous cmd
    then some (record {
      code = dangerous_command;
      message = codes "Shell command contains dangerous pattern";
      tool_name = name;
      details = cmd;
    })
    else none

abbrev pub or_then : Option SecurityError → Option SecurityError → Option SecurityError
or_then (some e) later = some e
or_then none later = later

abbrev pub result_json : Attempt Result → Attempt Json
result_json (returned (granted j)) = returned j
result_json (returned (rejected e)) = returned (
    object (
      member (codes "success") (boolean false) (
        member (codes "error_code") (integer (pos (code_number e.code))) (
          member (codes "error_message") (text e.message) (
            member (codes "tool_name") (text e.tool_name)
              (member (codes "details") (text e.details) no_members))))))
result_json (threw x) = threw x

module _ (print : ℕ → Text) where
  abbrev pub denied_detail : CheckResult → Text
  denied_detail (path_matches_denied_pattern i) = codes "denied_pattern_index=" ++ print i
  denied_detail _ = codes "unknown"

  abbrev pub path_error : Text → Text → CheckResult → Option SecurityError
  path_error name path allowed = none
  path_error name path r = some (record {
    code = path_violation;
    message = codes "Path '" ++ path ++ codes "' " ++ reason_of r;
    tool_name = name;
    details = denied_detail r;
  })

module _ {W R : Type 0} where
  pub disable_tool : Text → SecureToolRegistry W R → SecureToolRegistry W R
  unfolding insert
  disable_tool name s = record s { disabled_tools = insert name true s.disabled_tools }

  pub enable_tool : Text → SecureToolRegistry W R → SecureToolRegistry W R
  unfolding erase
  enable_tool name s = record s { disabled_tools = erase name s.disabled_tools }

  unfoldable pub is_disabled : Text → SecureToolRegistry W R → Bool
  unfolding lookup
  is_disabled name s = elim (lookup name s.disabled_tools) [ none ↦ false | some b ↦ b ]

  pub get_path_policy : Text → SecureToolRegistry W R → PathPolicy R
  unfolding lookup
  get_path_policy name s = policy_of (lookup name s.tool_policies) s.default_policy

  pub set_path_policy : Text → PathPolicy R → SecureToolRegistry W R → SecureToolRegistry W R
  unfolding insert
  set_path_policy name policy s = record s { tool_policies = insert name policy s.tool_policies }

  module _ (print : ℕ → Text) (weakly_canonical : Text → Option Text)
      (regex_search : R → Text → Bool) where
    abbrev pub path_step : Text → SecureToolRegistry W R → Option Text → Option SecurityError
    path_step name s none = none
    path_step name s (some path) =
        path_error print name path
          (check weakly_canonical regex_search (get_path_policy name s) path)

    abbrev pub not_registered : Text → Option (ToolRegistry W) → Option SecurityError
    not_registered name none = some (record {
      code = tool_not_registered;
      message = codes "Internal: registry_ref_ is null";
      tool_name = name;
      details = codes "no_base_registry";
    })
    not_registered name (some r) =
        if has_tool name r
        then none
        else some (record {
          code = tool_not_registered;
          message = codes "Tool '" ++ name ++ codes "' is not registered";
          tool_name = name;
          details = codes "not_in_registry";
        })

    unfoldable pub check_security : Text → Args → SecureToolRegistry W R → Option SecurityError
    unfolding is_disabled lookup
    check_security name args s =
        if is_disabled name s
        then some (record {
          code = permission_denied;
          message = codes "Tool '" ++ name ++ codes "' is disabled by security policy";
          tool_name = name;
          details = codes "disabled=true";
        })
        else or_then (not_registered name s.registry_ref) (
            or_then
              (path_step name s
                (if starts_with (codes "fs.") name then lookup (codes "path") args else none))
              (command_step name
                (if same name (codes "shell.exec") then lookup (codes "command") args else none)))

    -- The exceptions of the wrapped registry that are a `std::exception` are taken.
    abbrev pub granted_by : Text → Attempt Json × W → Attempt Result × W
    granted_by name (returned j, w) = (returned (granted j), w)
    granted_by name (threw (exception what), w) = (
      returned (
          rejected (record {
            code = unknown_error;
            message = codes "Tool execution exception: " ++ what;
            tool_name = name;
            details = codes "exception_caught";
          })),
      w,
    )
    granted_by name (threw unknown, w) = (threw unknown, w)

    abbrev pub passed_on : Text → Args → Option (ToolRegistry W) → W → Attempt Result × W
    passed_on name args none w = (
      returned (
          rejected (record {
            code = tool_not_registered;
            message = codes "Tool '" ++ name ++ codes "' is not registered";
            tool_name = name;
            details = codes "not_in_registry";
          })),
      w,
    )
    passed_on name args (some r) w =
        let called = granted_by name (call_tool name args r w) in
        if has_tool name r then called else (
          returned (
              rejected (record {
                code = tool_not_registered;
                message = codes "Tool '" ++ name ++ codes "' is not registered";
                tool_name = name;
                details = codes "not_in_registry";
              })),
          w,
        )

    unfoldable pub call_passthrough : Text → Args → SecureToolRegistry W R → W → Attempt Result × W
    unfolding call_tool
    call_passthrough name args s w =
        let passed = passed_on name args s.registry_ref w in
        if is_disabled name s
        then (
          returned (
              rejected (record {
                code = permission_denied;
                message = codes "Tool '" ++ name ++ codes "' is disabled";
                tool_name = name;
                details = codes "disabled=true";
              })),
          w,
        )
        else passed

    abbrev pub after_security :
        Text → Args → SecureToolRegistry W R → W → Option SecurityError → Attempt Result × W
    after_security name args s w (some e) = (returned (rejected e), w)
    after_security name args s w none = call_passthrough name args s w

    unfoldable pub call_direct : Text → Args → SecureToolRegistry W R → W → Attempt Result × W
    unfolding check_security call_passthrough
    call_direct name args s w = after_security name args s w (check_security name args s)

    pub secure_call_tool : Text → Args → SecureToolRegistry W R → W → Attempt Json × W
    unfolding call_direct
    secure_call_tool name args s w = let r = call_direct name args s w in (result_json r.0, r.1)

  pub secure_unregister : Text → SecureToolRegistry W R → SecureToolRegistry W R
  unfolding is_disabled
  secure_unregister name s = if is_disabled name s then s else elim s.registry_ref [
    | none ↦ s
    | some r ↦ record s { registry_ref = some (unregister_tool_function name r) }
  ]
