-- ===== src/Tools/Coordinator/Laws.antt =====
-- When the registry is called, and what a call leaves of the nesting (tool_coordinator.cpp).
use hydra_forge.Prelude.{
  ◌≡◌, refl, sym, ap, ◌∙◌, ◌+◌, Bool, true, false, List, [], ◌∷◌, ◌++◌, Option, none, some,
  if◌then◌else◌, leb, length, any,
}
use hydra_forge.Prelude.Text.{Text, same}
use hydra_forge.Json.{Json}
use hydra_forge.Governance.{LayerProfile}
use hydra_forge.Policy.{parse_layer, check_layer_permission}
use hydra_forge.Hooks.{
  Attempt, returned, threw, PreHookResult, ToolHookRegistry, Action, continue, deny, modify_args,
}
use hydra_forge.Tools.{ToolMetadata, ToolCallContext}
use hydra_forge.Tools.Approval.{process_request, create, plan}
use hydra_forge.Tools.Approval.Laws.{process_request-plan}
use hydra_forge.Tools.Results.{ToolResult}
use hydra_forge.Tools.Validation.{Args, Checked, passes, refuses, sanitize}
use hydra_forge.Tools.Coordinator.{
  invoked, execution_start, World, emit, enter, leave, guarded, ToolCoordinator, Environment,
  preview_of, after_post, after_call, approval_gate, layer_gate, after_check, check_args, after_pre,
  on_action, pre_gate, run_call, execute,
}

abbrev pub Registry : (W : Type 0) → Type 0
Registry W = Text → Args → World W → Attempt Json × World W

if_same :
    {A : Type 0} (b : Bool) (x y z : A)
    → (b ≡ true → x ≡ y)
    → (if b then x else z) ≡ (if b then y else z)
if_same true x y z h = h refl
if_same false x y z h = refl

else_same :
    {A : Type 0} (b : Bool) (x y z : A)
    → (b ≡ false → y ≡ z)
    → (if b then x else y) ≡ (if b then x else z)
else_same true x y z h = refl
else_same false x y z h = h refl

on_action-same :
    {A : Type 0} {a b c a' b' c' : A} (x : Action)
    → a ≡ a'
    → b ≡ b'
    → c ≡ c'
    → on_action x a b c ≡ on_action x a' b' c'
on_action-same deny p q r = p
on_action-same modify_args p q r = q
on_action-same continue p q r = r

module _ {W R : Type 0} (env : Environment R) (c : ToolCoordinator W R) (meta : ToolMetadata)
    (ctx : ToolCallContext) where
  abbrev pub with_registry : Registry W → ToolCoordinator W R
  with_registry f = record c { call_tool = f }

  -- The callback or the policy lets a call with these arguments through.
  abbrev pub Approved : Args → W → Type 0
  Approved args w =
      (process_request env.print env.generated_id env.now c.approval_handler meta ctx
        (preview_of env.print (env.metadata_json meta) meta (length args)) w).0
      ≡ true

  -- What holds when the registry is called, with the arguments `args` in the world `s'`, for a call in the
  -- world `s`.
  pub record Admitted (s : World W) (args : Args) (s' : World W) : Type 0 where
    pub no_cycle : any (λ x. same x meta.name) s.active ≡ false
    pub shallow : leb 2 s.depth ≡ false
    pub nested : (s'.depth ≡ s.depth + 1) × (s'.active ≡ s.active ++ meta.name ∷ [])
    pub permitted :
        (l : LayerProfile) × (parse_layer ctx.caller_layer ≡ some l)
        × (check_layer_permission l meta.category ≡ true)
    pub sanitized :
        (raw : Args) × (sanitize env.weakly_canonical env.regex_search c.path_policy env.lib meta
            raw
          ≡ passes args)
    pub approved : (w : W) × Approved args w

  module _ (f g : Registry W) where
    abbrev SameReply : (ToolCoordinator W R → Attempt ToolResult × World W) → Type 0
    SameReply run = run (with_registry f) ≡ run (with_registry g)

    after_post-registry :
        (o : Option (ToolHookRegistry ToolMetadata ToolCallContext Args ToolResult W))
        (warnings : List Text) (r : ToolResult) (s : World W)
        → SameReply (λ c. after_post env c meta ctx o warnings r s)
    after_post-registry none warnings r s = refl
    after_post-registry (some hooks) warnings r s = refl

    after_call-registry :
        (warnings : List Text) (r : Attempt Json × World W)
        → SameReply (λ c. after_call env c meta ctx warnings r)
    after_call-registry warnings (threw x, s) = refl
    after_call-registry warnings (returned raw, s) =
        after_post-registry c.hook_registry warnings _ s

    approval_gate-call_tool :
        (args : Args) (warnings : List Text) (s : World W)
        → ((w : W)
            → Approved args s.outside
            → f meta.name args (emit (invoked meta.name (length args)) (record s { outside = w }))
              ≡ g meta.name args
                  (emit (invoked meta.name (length args)) (record s { outside = w })))
        → SameReply (λ c. approval_gate env c meta ctx args warnings s)
    approval_gate-call_tool args warnings s h =
        let r =
          process_request env.print env.generated_id env.now c.approval_handler meta ctx
            (preview_of env.print (env.metadata_json meta) meta (length args)) s.outside in
        if_same r.0 _ _ _ (λ p.
          after_call-registry warnings _
          ∙ ap (after_call env (with_registry g) meta ctx warnings) (h r.1 p))

    layer_gate-call_tool :
        (args : Args) (warnings : List Text) (s : World W) (o : Option LayerProfile)
        → ((l : LayerProfile)
            → o ≡ some l
            → check_layer_permission l meta.category ≡ true
            → SameReply (λ c. approval_gate env c meta ctx args warnings s))
        → SameReply (λ c. layer_gate env c meta ctx args warnings s o)
    layer_gate-call_tool args warnings s none h = refl
    layer_gate-call_tool args warnings s (some l) h =
        if_same (check_layer_permission l meta.category) _ _ _ (h l refl)

    after_check-call_tool :
        (warnings : List Text) (s : World W) (v : Checked Args)
        → ((args : Args)
            → v ≡ passes args
            → SameReply (λ c.
              layer_gate env c meta ctx args warnings
                (emit (execution_start meta.name) s)
                (parse_layer ctx.caller_layer)))
        → SameReply (λ c. after_check env c meta ctx warnings s v)
    after_check-call_tool warnings s (refuses stage reason message) h = refl
    after_check-call_tool warnings s (passes args) h = h args refl

    -- From here on, `s` is the world of the call, which the guard has entered.
    module _ (s : World W) (no_cycle : any (λ x. same x meta.name) s.active ≡ false)
        (shallow : leb 2 s.depth ≡ false)
        (h : (args : Args) (s' : World W)
          → Admitted s args s'
          → f meta.name args s' ≡ g meta.name args s') where
      check_args-call_tool :
          (args : Args) (warnings : List Text) (w : W)
          → SameReply (λ c.
            check_args env c meta ctx args warnings (record (enter meta.name s) { outside = w }))
      check_args-call_tool raw warnings w = after_check-call_tool warnings _ _ (λ args p.
          layer_gate-call_tool args warnings _ _ (λ l q k.
            approval_gate-call_tool args warnings _ (λ w' a. h args _ (record {
              no_cycle = no_cycle;
              shallow = shallow;
              nested = (refl, refl);
              permitted = (l, q, k);
              sanitized = (raw, p);
              approved = (w, a);
            }))))

      after_pre-call_tool :
          (args : Args) (r : PreHookResult Args × List Text × W)
          → SameReply (λ c. after_pre env c meta ctx args (enter meta.name s) r)
      after_pre-call_tool args (r, warnings, w) =
          on_action-same r.action refl (check_args-call_tool r.modified_args warnings w)
            (check_args-call_tool args warnings w)

      pre_gate-call_tool :
          (o : Option (ToolHookRegistry ToolMetadata ToolCallContext Args ToolResult W))
          (args : Args)
          → SameReply (λ c. pre_gate env c meta ctx o args (enter meta.name s))
      pre_gate-call_tool none args = check_args-call_tool args [] s.outside
      pre_gate-call_tool (some hooks) args = after_pre-call_tool args _

      run_call-call_tool :
          (stop_requested : Bool) (args : Args)
          → SameReply (λ c. run_call env c meta ctx stop_requested args (enter meta.name s))
      unfolding run_call
      run_call-call_tool true args = refl
      run_call-call_tool false args = pre_gate-call_tool c.hook_registry args

    guarded-run :
        (run_f run_g : World W → Attempt ToolResult × World W) (s : World W)
        → (any (λ x. same x meta.name) s.active ≡ false
            → leb 2 s.depth ≡ false
            → run_f (enter meta.name s) ≡ run_g (enter meta.name s))
        → guarded env.print meta.name run_f s ≡ guarded env.print meta.name run_g s
    guarded-run run_f run_g s h =
        else_same (any (λ x. same x meta.name) s.active) _ _ _
          (λ p. else_same (leb 2 s.depth) _ _ _ (λ q. ap (λ r. (r.0, leave meta.name r.1)) (h p q)))

    -- The registry is called, if at all, with a call stack that did not have the tool and is now longer by
    -- it, at most two deep, after the arguments have passed the check, by a layer that is known and may
    -- call the tool's category, and after an approval: two registries that agree on such calls give the
    -- same outcome of every call, its events included.
    pub execute-call_tool :
        (stop_requested : Bool) (args : Args) (s : World W)
        → ((passed : Args) (s' : World W)
            → Admitted s passed s'
            → f meta.name passed s' ≡ g meta.name passed s')
        → execute env (with_registry f) meta ctx stop_requested args s
          ≡ execute env (with_registry g) meta ctx stop_requested args s
    unfolding execute
    execute-call_tool stop_requested args s h =
        guarded-run (run_call env (with_registry f) meta ctx stop_requested args)
          (run_call env (with_registry g) meta ctx stop_requested args) s
          (λ p q. run_call-call_tool s p q h stop_requested args)

-- A call by a layer that is unknown or may not call the tool's category never reaches the registry: the
-- outcome is the same whatever the registry does.
pub execute-layer :
    {W R : Type 0} (env : Environment R) (c : ToolCoordinator W R) (meta : ToolMetadata)
    (ctx : ToolCallContext) (f g : Registry W) (stop_requested : Bool) (args : Args) (s : World W)
    → ((l : LayerProfile)
        → parse_layer ctx.caller_layer ≡ some l
        → check_layer_permission l meta.category ≡ false)
    → execute env (with_registry env c meta ctx f) meta ctx stop_requested args s
      ≡ execute env (with_registry env c meta ctx g) meta ctx stop_requested args s
execute-layer env c meta ctx f g stop_requested args s h =
    execute-call_tool env c meta ctx f g stop_requested args s
      (λ passed s' a. let p = a.permitted in let e : true ≡ false = sym p.2 ∙ h p.0 p.1 in cc)

-- A tool with the policy of Plan mode is never called.
pub execute-plan :
    {W R : Type 0} (env : Environment R) (c : ToolCoordinator W R) (meta : ToolMetadata)
    (ctx : ToolCallContext) (f g : Registry W) (stop_requested : Bool) (args : Args) (s : World W)
    → c.approval_handler.policy ≡ some (create plan)
    → execute env (with_registry env c meta ctx f) meta ctx stop_requested args s
      ≡ execute env (with_registry env c meta ctx g) meta ctx stop_requested args s
execute-plan env c meta ctx f g stop_requested args s h =
    execute-call_tool env c meta ctx f g stop_requested args s (λ passed s' a.
      let e : true ≡ false =
        sym a.approved.1
        ∙ process_request-plan env.print env.generated_id env.now c.approval_handler meta ctx _
            a.approved.0 h in
      cc)
