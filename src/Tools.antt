-- ===== src/Tools.antt =====
-- What a call of a tool carries: `ToolMetadata`, `ApprovalPolicy`, `ToolCallContext`
-- (src/common/policy/execution_policy.h), `ToolPreview` and `ApprovalRequest`
-- (include/agenticdsl/policy/approval_types.h), `ErrorCode` and `ToolResult`
-- (src/core/types/tool_result.{h,cpp}).
pub mod Approval
pub mod Guards
pub mod Results
pub mod Schema
pub mod Validation
pub mod Coordinator
pub mod Registry
use hydra_forge.Prelude.{ℕ, Bool, true, false, List, Option, none, some}
use hydra_forge.Prelude.Text.{Text, codes}
use hydra_forge.Governance.{ToolCategory, LayerProfile}
use hydra_forge.Json.{Json, Members, text, integer, object, no_members, set_member}

pub record ApprovalPolicy : Type 0 where
  pub requires_approval_in_plan : Bool
  pub requires_approval_in_agent : Bool
  pub requires_approval_in_yolo : Bool
  pub force_approval_always : Bool

pub data ValidationMode : Type 0 where
  strict warn ignore : ValidationMode

-- The cost is an opaque double (its bits).
pub record ToolMetadata : Type 0 where
  pub name : Text
  pub description : Text
  pub domain : Text
  pub category : ToolCategory
  pub min_layer : LayerProfile
  pub approval : ApprovalPolicy
  pub allowed_layers : List LayerProfile
  pub cost_estimate : ℕ
  pub timeout_ms : ℕ
  pub input_schema : Option Json
  pub output_schema : Option Json
  pub validation_mode : ValidationMode

pub record ToolCallContext : Type 0 where
  pub session_id : Text
  pub caller_layer : Text
  pub target_path : Text
  pub is_in_fleet_mode : Bool
  pub call_count_this_session : ℕ
  pub trace_id : Text

pub record ToolPreview : Type 0 where
  pub command_line : Text
  pub diff_text : Text
  pub affected_paths : List Text
  pub estimated_duration : ℕ
  pub risk_summary : Text
  pub metadata_json : Text

pub record ApprovalRequest : Type 0 where
  pub tool_name : Text
  pub meta : ToolMetadata
  pub ctx : ToolCallContext
  pub preview : ToolPreview
  pub request_id : Text
  pub created_at : ℕ

pub data ErrorCode : Type 0 where
  unknown permission_denied path_violation dangerous_command tool_not_registered : ErrorCode
  retry skip abort audit timeout resource_exhausted : ErrorCode
  sandbox_violation max_steps_exceeded crash budget_exhausted unsupported_platform : ErrorCode
  invalid_arg invalid_params cancelled : ErrorCode
