-- ===== src/Governance/Types.antt =====
-- The data of the mutation governor: include/agenticdsl/contract/imutation_governance.h, the payloads
-- of include/agenticdsl/types/mutation_record.h, and what the governor hands to the evaluator and to
-- the approval handler.
use hydra_forge.Prelude.{Bool, List, Option}
use hydra_forge.Prelude.Text.{Text}

pub data MutationMode : Type 0 where
  yolo plan agent : MutationMode

pub record MutationContext : Type 0 where
  pub mutation_id : Text
  pub source_id : Text
  pub mutation_kind : Text
  pub subject_ref : Text
  pub proposed_change : Text
  pub parent_ref : Text
  pub version_id : Text
  pub mode : MutationMode
  pub evaluation_refs : List Text

pub record MutationDecision : Type 0 where
  pub approved : Bool
  pub denial_reason : Text
  pub failed_step : Text

pub record MutationProposedPayload : Type 0 where
  pub mutation_id : Text
  pub source_id : Text
  pub subject_ref : Text
  pub mutation_kind : Text
  pub proposed_change : Text
  pub parent_ref : Text
  pub evaluation_refs : List Text

pub record MutationCommittedPayload : Type 0 where
  pub mutation_id : Text
  pub version_id : Text
  pub mutation_kind : Text
  pub evaluation_refs : List Text

pub record MutationRevertedPayload : Type 0 where
  pub mutation_id : Text
  pub target_version : Text
  pub rollback_reason : Text

pub record MutationDeniedPayload : Type 0 where
  pub mutation_id : Text
  pub denial_reason : Text
  pub failed_step : Text
  pub subject_ref : Text

-- The constructor is the topic of the event.
pub data MutationPayload : Type 0 where
  proposed : MutationProposedPayload → MutationPayload
  committed : MutationCommittedPayload → MutationPayload
  reverted : MutationRevertedPayload → MutationPayload
  denied : MutationDeniedPayload → MutationPayload

-- What `EventBuilder` is given: `ok` only where the code gives it.
pub record MutationEvent : Type 0 where
  pub args : MutationPayload
  pub ok : Option Bool
  pub trace_id : Text

pub data Quality : Type 0 where
  excellent acceptable poor : Quality

pub data ToolCategory : Type 0 where
  read_only write_file execute network state_modify : ToolCategory

pub data LayerProfile : Type 0 where
  workflow thinking cognitive : LayerProfile

pub record ReviewMeta : Type 0 where
  pub name : Text
  pub description : Text
  pub domain : Text
  pub category : ToolCategory
  pub min_layer : LayerProfile

pub record ReviewCall : Type 0 where
  pub session_id : Text
  pub caller_layer : Text
  pub target_path : Text
  pub trace_id : Text

pub record ReviewPreview : Type 0 where
  pub command_line : Text
  pub risk_summary : Text

-- The synthetic trace: `ToolResult::success(proposed_change)` and the identifier.
pub record ReviewTrace : Type 0 where
  pub final_result : Text
  pub trace_id : Text

-- The members of the governor; a handler or a gate may be absent.
pub record MutationGovernor (W : Type 0) : Type 0 where
  pub evaluate : ReviewTrace → W → Quality × W
  pub whitelist : List Text
  pub process_request : Option (ReviewMeta → ReviewCall → ReviewPreview → W → Bool × W)
  pub regression_gate : Option (MutationContext → W → Bool × W)

pub record World (W : Type 0) : Type 0 where
  pub outside : W
  pub bus : List MutationEvent

pub data Reply : Type 0 where
  returns : MutationDecision → Reply
  -- `std::runtime_error`
  throws_forbidden : Reply

pub data Missing : Type 0 where
  evaluator interaction_bus : Missing
