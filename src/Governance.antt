-- ===== src/Governance.antt =====
-- `MutationGovernor` (src/common/governance/mutation_governor.cpp) with its contract
-- (include/agenticdsl/contract/imutation_governance.h) and the payloads of the audit events
-- (include/agenticdsl/types/mutation_record.h). The evaluator, the approval handler and the
-- regression gate are code of others: functions on an outside state `W`. The bus is the list of the
-- events emitted on it. An exception of `propose` keeps what has been emitted.
mod Types
mod Approval
pub mod Gates
mod Tests
use hydra_forge.Prelude.{
  Bool, true, false, not, ◌&&◌, List, [], ◌∷◌, ◌++◌, Option, none, some, String, if◌then◌else◌, ◌⊎◌,
  inl, inr,
}
use hydra_forge.Prelude.Text.{Text, codes, same}
pub use Types.*

-- The constructor throws without an evaluator, then without a bus.
pub create :
    {W : Type 0}
    → Option (ReviewTrace → W → Quality × W)
    → List Text
    → (has_bus : Bool) → Option (ReviewMeta → ReviewCall → ReviewPreview → W → Bool × W)
    → Option (MutationContext → W → Bool × W)
    → Missing ⊎ MutationGovernor W
create none whitelist has_bus handler gate = inl evaluator
create (some e) whitelist false handler gate = inl interaction_bus
create (some e) whitelist true handler gate = inr (record {
  evaluate = e;
  whitelist = whitelist;
  process_request = handler;
  regression_gate = gate;
})

pub make_review_meta : MutationContext → ReviewMeta
make_review_meta c = record {
  name = codes "mutation::" ++ c.mutation_kind;
  description = codes "mutation governance approval";
  domain = codes "mutation";
  category = state_modify;
  min_layer = workflow;
}

pub make_review_call_ctx : MutationContext → ReviewCall
make_review_call_ctx c = record {
  session_id = [];
  caller_layer = codes "mutation_governor";
  target_path = c.subject_ref;
  trace_id = c.mutation_id;
}

pub make_review_preview : MutationContext → ReviewPreview
make_review_preview c = record {
  command_line = codes "mutation::propose " ++ c.mutation_kind ++ codes " " ++ c.subject_ref;
  risk_summary = codes "L3 skill mutation requires human review";
}

pub listed : Text → List Text → Bool
listed s [] = false
listed s (t ∷ ts) = if same t s then true else listed s ts

-- An empty source is refused whatever the list holds.
pub source_allowed : List Text → Text → Bool
unfolding listed
source_allowed whitelist source = not (same source []) && listed source whitelist

abbrev emit : {W : Type 0} → MutationEvent → World W → World W
emit e w = record w { bus = w.bus ++ e ∷ [] }

abbrev pub approval : MutationDecision
approval = record { approved = true; denial_reason = []; failed_step = [] }

abbrev pub denial : MutationContext → (reason step : Text) → MutationEvent
denial c reason step = record {
  args = denied (record {
    mutation_id = c.mutation_id;
    denial_reason = reason;
    failed_step = step;
    subject_ref = c.subject_ref;
  });
  ok = some false;
  trace_id = c.mutation_id;
}

abbrev pub deny :
    {W : Type 0} → MutationContext → (reason step : Text) → World W → MutationDecision × World W
deny c reason step w = (
  record { approved = false; denial_reason = reason; failed_step = step },
  emit (denial c reason step) w,
)

abbrev pub refuse :
    {W : Type 0} → MutationContext → (reason step : String) → World W → Reply × World W
refuse c reason step w = let (d, v) = deny c (codes reason) (codes step) w in (returns d, v)

abbrev pub proposal : MutationContext → MutationEvent
proposal c = record {
  args = proposed (record {
    mutation_id = c.mutation_id;
    source_id = c.source_id;
    subject_ref = c.subject_ref;
    mutation_kind = c.mutation_kind;
    proposed_change = c.proposed_change;
    parent_ref = c.parent_ref;
    evaluation_refs = c.evaluation_refs;
  });
  ok = none;
  trace_id = c.mutation_id;
}

abbrev pub emit_proposed : {W : Type 0} → MutationContext → World W → World W
emit_proposed c w = emit (proposal c) w

abbrev pub emit_committed : {W : Type 0} → MutationContext → World W → World W
emit_committed c w =
    emit
      (record {
        args = committed (record {
          mutation_id = c.mutation_id;
          version_id = c.version_id;
          mutation_kind = c.mutation_kind;
          evaluation_refs = c.evaluation_refs;
        });
        ok = none;
        trace_id = c.mutation_id;
      })
      w

module _ {W : Type 0} (g : MutationGovernor W) (c : MutationContext) where
  -- The regression gate, then the proposal.
  pub pass_gate : Option (MutationContext → W → Bool × W) → World W → Reply × World W
  pass_gate none w = (returns approval, emit_proposed c w)
  pass_gate (some gate) w =
      let r = gate c w.outside in
      let v : World W = record w { outside = r.1 } in
      if r.0
      then (returns approval, emit_proposed c v)
      else refuse c "behavioral_regression_failed" "behavioral_regression" v

  pub review_trace : ReviewTrace
  review_trace = record { final_result = c.proposed_change; trace_id = c.mutation_id }

  pub check_evaluation : World W → Reply × World W
  unfolding pass_gate review_trace
  check_evaluation w =
      let r = g.evaluate review_trace w.outside in
      let v : World W = record w { outside = r.1 } in
      elim r.0 [
        | poor ↦ refuse c "evaluation_poor_quality" "evaluation" v
        | acceptable ↦ pass_gate g.regression_gate v
        | excellent ↦ pass_gate g.regression_gate v
      ]

  pub ask_human :
      Option (ReviewMeta → ReviewCall → ReviewPreview → W → Bool × W) → World W → Reply × World W
  unfolding check_evaluation make_review_meta make_review_call_ctx make_review_preview
  ask_human none w = refuse c "approval_handler_unavailable" "human_review" w
  ask_human (some ask) w =
      let r = ask (make_review_meta c) (make_review_call_ctx c) (make_review_preview c) w.outside in
      let v : World W = record w { outside = r.1 } in
      if r.0 then check_evaluation v else refuse c "approval_denied" "human_review" v

  -- The mode decides for the levels 2 and 3.
  pub authorize_dsl : MutationMode → World W → Reply × World W
  unfolding check_evaluation
  authorize_dsl yolo w = refuse c "plan_required" "authorization" w
  authorize_dsl plan w = check_evaluation w
  authorize_dsl agent w = check_evaluation w

  pub authorize_skill : MutationMode → World W → Reply × World W
  unfolding ask_human
  authorize_skill yolo w = refuse c "plan_required" "authorization" w
  authorize_skill plan w = refuse c "plan_insufficient" "authorization" w
  authorize_skill agent w = ask_human g.process_request w

  pub propose : World W → Reply × World W
  unfolding source_allowed check_evaluation authorize_dsl authorize_skill
  propose w =
      if not (source_allowed g.whitelist c.source_id)
      then refuse c "non_whitelisted_source" "source_whitelist" w
      else if same c.mutation_kind (codes "L4_weight")
      then (throws_forbidden, (deny c (codes "l4_forbidden_v1") (codes "authorization") w).1)
      else if same c.mutation_kind (codes "L1_prompt")
      then check_evaluation w
      else if same c.mutation_kind (codes "L2_dsl")
      then authorize_dsl c.mode w
      else if same c.mutation_kind (codes "L3_skill")
      then authorize_skill c.mode w
      else refuse c "unknown_mutation_kind" "authorization" w

  pub commit : World W → Reply × World W
  unfolding source_allowed
  commit w =
      if not (source_allowed g.whitelist c.source_id)
      then refuse c "non_whitelisted_source" "source_whitelist" w
      else elim c.evaluation_refs [
        | [] ↦ refuse c "missing_evaluation_refs" "evaluation" w
        | r ∷ rs ↦ (returns approval, emit_committed c w)
      ]

  pub revert : (target_version rollback_reason : Text) → World W → World W
  unfolding source_allowed
  revert target reason w =
      if not (source_allowed g.whitelist c.source_id)
      then (deny c (codes "non_whitelisted_source") (codes "source_whitelist") w).1
      else emit
          (record {
            args = reverted (record {
              mutation_id = c.mutation_id;
              target_version = target;
              rollback_reason = reason;
            });
            ok = none;
            trace_id = c.mutation_id;
          })
          w
