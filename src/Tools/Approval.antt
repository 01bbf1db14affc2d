-- ===== src/Tools/Approval.antt =====
-- The policies of the three modes, their factory and `ApprovalHandler` (src/common/policy:
-- plan_mode_policy, agent_mode_policy, yolo_mode_policy, policy_factory, approval_handler), the callbacks
-- (approval_callbacks.cpp) and the dialog of a switch to YOLO mode (mode_switch_dialog.cpp). `W` is the
-- state that a callback acts on; the clock and the counters are arguments.
pub mod Laws
mod Tests
use hydra_forge.Prelude.{
  ℕ, ◌+◌, Bool, true, false, not, ◌&&◌, ◌||◌, List, [], ◌∷◌, ◌++◌, Option, none, some,
  if◌then◌else◌,
}
use hydra_forge.Prelude.Text.{Text, same, codes}
use hydra_forge.Governance.{
  ToolCategory, read_only, write_file, execute, network, state_modify, LayerProfile, workflow,
}
use hydra_forge.Tools.{ToolMetadata, ToolCallContext, ToolPreview, ApprovalRequest}

abbrev pub ApprovalCallback : (W : Type 0) → Type 0
ApprovalCallback W = ApprovalRequest → (timeout_ms : ℕ) → W → Bool × W

-- The four decisions of `IExecutionPolicy`.
pub record ExecutionPolicy : Type 0 where
  pub requires_approval : ToolMetadata → ToolCallContext → Bool
  pub should_execute : ToolMetadata → ToolCallContext → Bool
  pub can_skip : ToolMetadata → ToolCallContext → Bool
  pub get_layer : ToolMetadata → LayerProfile

abbrev pub is_read_only : ToolCategory → Bool
is_read_only read_only = true
is_read_only write_file = false
is_read_only execute = false
is_read_only network = false
is_read_only state_modify = false

abbrev pub plan_mode_policy : ExecutionPolicy
plan_mode_policy = record {
  requires_approval =
      λ meta ctx. meta.approval.force_approval_always || not (is_read_only meta.category);
  should_execute = λ meta ctx. false;
  can_skip = λ meta ctx. false;
  get_layer = λ meta. workflow;
}

abbrev pub agent_mode_policy : ExecutionPolicy
agent_mode_policy = record {
  requires_approval =
      λ meta ctx. meta.approval.force_approval_always || meta.approval.requires_approval_in_agent;
  should_execute = λ meta ctx. true;
  can_skip = λ meta ctx. is_read_only meta.category && not meta.approval.force_approval_always;
  get_layer = λ meta. workflow;
}

abbrev pub yolo_mode_policy : ExecutionPolicy
yolo_mode_policy = record {
  requires_approval = λ meta ctx. meta.approval.force_approval_always;
  should_execute = λ meta ctx. true;
  can_skip = λ meta ctx. not meta.approval.force_approval_always;
  get_layer = λ meta. workflow;
}

pub data PolicyMode : Type 0 where
  plan agent yolo : PolicyMode

abbrev pub create : PolicyMode → ExecutionPolicy
create plan = plan_mode_policy
create agent = agent_mode_policy
create yolo = yolo_mode_policy

abbrev pub session_request_id : (generated : Text) (call_count : Text) → ToolCallContext → Text
session_request_id generated call_count ctx =
    if same ctx.session_id [] then generated else ctx.session_id ++ codes "-" ++ call_count

abbrev pub request_of : ToolMetadata → ToolCallContext → ToolPreview → Text → ℕ → ApprovalRequest
request_of meta ctx preview request_id now = record {
  tool_name = meta.name;
  meta = meta;
  ctx = ctx;
  preview = preview;
  request_id = request_id;
  created_at = now;
}

-- `print` is `std::to_string`, `prefix` the mode's.
abbrev mode_request :
    (print : ℕ → Text) (prefix : Text)
    → ToolMetadata
    → ToolCallContext
    → ToolPreview
    → ℕ
    → ApprovalRequest
mode_request print prefix meta ctx preview now =
    request_of meta ctx preview (prefix ++ print ctx.call_count_this_session) now

pub record ApprovalHandler (W : Type 0) : Type 0 where
  pub policy : Option ExecutionPolicy
  pub callback : Option (ApprovalCallback W)
  pub default_timeout_ms : ℕ

module _ {W : Type 0} where
  abbrev pub ask : Option (ApprovalCallback W) → ApprovalRequest → ℕ → W → Bool × W
  ask none req timeout_ms w = (false, w)
  ask (some callback) req timeout_ms w = callback req timeout_ms w

  -- `request_approval` of the three policies.
  pub request_approval :
      (print : ℕ → Text)
      → PolicyMode
      → ToolMetadata
      → ToolCallContext
      → ToolPreview
      → (now : ℕ) → Option (ApprovalCallback W)
      → W
      → Bool × W
  request_approval print plan meta ctx preview now callback w =
      ask callback (mode_request print (codes "plan-") meta ctx preview now) 300000 w
  request_approval print agent meta ctx preview now callback w =
      if agent_mode_policy.requires_approval meta ctx
      then ask callback (mode_request print (codes "agent-") meta ctx preview now) 300000 w
      else (true, w)
  request_approval print yolo meta ctx preview now callback w =
      if yolo_mode_policy.requires_approval meta ctx
      then ask callback (mode_request print (codes "yolo-") meta ctx preview now) 300000 w
      else (true, w)

  abbrev under_policy :
      ExecutionPolicy → ToolMetadata → ToolCallContext → (asked : W → Bool × W) → W → Bool × W
  under_policy p meta ctx asked w =
      if not (p.should_execute meta ctx)
      then (false, w)
      else if p.can_skip meta ctx
      then (true, w)
      else if not (p.requires_approval meta ctx)
      then (true, w)
      else asked w

  -- `generated` is what `generate_request_id` would give, `now` the time of the request.
  pub process_request :
      (print : ℕ → Text) (generated : Text) (now : ℕ)
      → ApprovalHandler W
      → ToolMetadata
      → ToolCallContext
      → ToolPreview
      → W
      → Bool × W
  process_request print generated now h meta ctx preview w = elim h.policy [
    | none ↦ (false, w)
    | some p ↦
        let id = session_request_id generated (print ctx.call_count_this_session) ctx in
        under_policy p meta ctx
          (ask h.callback (request_of meta ctx preview id now) h.default_timeout_ms) w
  ]

-- A line of the standard input; `none`: the end of the input.
abbrev pub tui_stdin_answer : Option Text → Bool
tui_stdin_answer none = false
tui_stdin_answer (some line) =
    same line (codes "y") || same line (codes "Y") || same line (codes "yes")

-- With a bus the request is emitted, and the answer is yes.
abbrev pub event_bus_callback :
    (payload : ApprovalRequest → ℕ → Text) → Option (List Text) → ApprovalCallback (List Text)
event_bus_callback payload none req timeout_ms w = (false, w)
event_bus_callback payload (some b) req timeout_ms w = (true, w ++ payload req timeout_ms ∷ [])

abbrev pub requires_yolo_confirmation : (from_mode to_mode : Text) → Bool
requires_yolo_confirmation from_mode to_mode =
    same from_mode (codes "yolo") || same to_mode (codes "yolo")
