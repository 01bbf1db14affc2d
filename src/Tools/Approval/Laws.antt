-- ===== src/Tools/Approval/Laws.antt =====
-- What each mode decides on a call of a tool (approval_handler.cpp and the policies of the modes).
use hydra_forge.Prelude.{ℕ, ◌≡◌, refl, Bool, true, false, Option, some, arith, if◌then◌else◌}
use hydra_forge.Prelude.Text.{Text}
use hydra_forge.Tools.{ToolMetadata, ToolCallContext, ToolPreview, ApprovalRequest}
use hydra_forge.Tools.Approval.{
  ApprovalCallback, PolicyMode, plan, agent, yolo, create, is_read_only, ApprovalHandler, ask,
  request_of, session_request_id, process_request,
}

-- What is decided of a call: refused or let through without a question, or as the callback answers.
pub data Verdict : Type 0 where
  refused passed asked : Verdict

-- The rule of each mode.
abbrev pub rule : PolicyMode → ToolMetadata → Verdict
rule plan meta = refused
rule agent meta =
    if meta.approval.force_approval_always
    then asked
    else if is_read_only meta.category
    then passed
    else if meta.approval.requires_approval_in_agent
    then asked
    else passed
rule yolo meta = if meta.approval.force_approval_always then asked else passed

module _ (print : ℕ → Text) (generated : Text) (now : ℕ) where
  abbrev pub the_request : ToolMetadata → ToolCallContext → ToolPreview → ApprovalRequest
  the_request meta ctx preview =
      request_of meta ctx preview
        (session_request_id generated (print ctx.call_count_this_session) ctx) now

module _ {W : Type 0} where
  abbrev pub outcome : Verdict → (answer : W → Bool × W) → W → Bool × W
  outcome refused answer w = (false, w)
  outcome passed answer w = (true, w)
  outcome asked answer w = answer w

module _ {W : Type 0} (print : ℕ → Text) (generated : Text) (now : ℕ) where
  -- A handler with the policy of a mode refuses every call in Plan mode, without a question. In YOLO mode
  -- it asks exactly for the tools that force approval, in Agent mode for these and for those that declare
  -- it and are not read-only; it lets the others through. A question goes to the callback once, with the
  -- request and the handler's timeout, and without a callback the answer is no.
  pub process_request-create :
      (mode : PolicyMode) (callback : Option (ApprovalCallback W)) (timeout_ms : ℕ)
      (meta : ToolMetadata) (ctx : ToolCallContext) (preview : ToolPreview) (w : W)
      → process_request print generated now
          (record {
            policy = some (create mode);
            callback = callback;
            default_timeout_ms = timeout_ms;
          })
          meta
          ctx
          preview
          w
        ≡ outcome
            (rule mode meta)
            (ask callback (the_request print generated now meta ctx preview) timeout_ms)
            w
  unfolding process_request
  process_request-create plan callback timeout_ms meta ctx preview w = refl
  process_request-create agent callback timeout_ms meta ctx preview w = ground arith
  process_request-create yolo callback timeout_ms meta ctx preview w = ground arith

  pub process_request-plan :
      (h : ApprovalHandler W) (meta : ToolMetadata) (ctx : ToolCallContext) (preview : ToolPreview)
      (w : W)
      → h.policy ≡ some (create plan)
      → (process_request print generated now h meta ctx preview w).0 ≡ false
  unfolding process_request
  process_request-plan h meta ctx preview w e = rw e refl
