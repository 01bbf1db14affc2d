-- ===== src/Tools/Approval/Tests.antt =====
-- Calls under the three modes.
use hydra_forge.Prelude.{ℕ, ◌≡◌, true, false, List, [], none, some}
use hydra_forge.Prelude.Text.{Text, codes}
use hydra_forge.Governance.{execute, workflow}
use hydra_forge.Tools.{ToolMetadata, ToolCallContext, ToolPreview, strict}
use hydra_forge.Tools.Approval.{
  ApprovalCallback, agent, create, process_request, ask, event_bus_callback,
}
use hydra_forge.Tools.Approval.Laws.{the_request, outcome, rule, process_request-create}

abbrev print : ℕ → Text
print n = codes "0"

abbrev delete_file : ToolMetadata
delete_file = record {
  name = codes "delete_file";
  description = [];
  domain = codes "fs";
  category = execute;
  min_layer = workflow;
  approval = record {
    requires_approval_in_plan = true;
    requires_approval_in_agent = true;
    requires_approval_in_yolo = false;
    force_approval_always = true;
  };
  allowed_layers = [];
  cost_estimate = 0;
  timeout_ms = 30000;
  input_schema = none;
  output_schema = none;
  validation_mode = strict;
}

abbrev call : ToolCallContext
call = record {
  session_id = codes "s";
  caller_layer = codes "workflow";
  target_path = [];
  is_in_fleet_mode = false;
  call_count_this_session = 0;
  trace_id = [];
}

abbrev preview : ToolPreview
preview = record {
  command_line = codes "delete_file(1 args)";
  diff_text = [];
  affected_paths = [];
  estimated_duration = 0;
  risk_summary = [];
  metadata_json = [];
}

abbrev on_bus : ApprovalCallback (List Text)
on_bus = event_bus_callback (λ req t. req.request_id) (some [])

process_request-create_example :
    process_request print
      (codes "req")
      7
      (record { policy = some (create agent); callback = some on_bus; default_timeout_ms = 300000 })
      delete_file
      call
      preview
      []
    ≡ outcome
        (rule agent delete_file)
        (ask (some on_bus) (the_request print (codes "req") 7 delete_file call preview) 300000)
        []
process_request-create_example =
    process_request-create print (codes "req") 7 agent (some on_bus) 300000 delete_file call preview
      []
