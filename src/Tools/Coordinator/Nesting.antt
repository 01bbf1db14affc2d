-- ===== src/Tools/Coordinator/Nesting.antt =====
-- The nesting of a thread before and after a call (`ToolCoordinatorNestingGuard`, tool_coordinator.cpp).
use hydra_forge.Prelude.{
  ℕ, ◌≡◌, refl, ap, ◌∙◌, ◌+◌, ◌-◌, Bool, true, false, List, [], ◌∷◌, ◌++◌, Option, none, some,
  arith, if◌then◌else◌, leb, any,
}
use hydra_forge.Prelude.Text.{Text, same, same_iff}
use hydra_forge.Json.{Json}
use hydra_forge.Governance.{LayerProfile}
use hydra_forge.Policy.{parse_layer}
use hydra_forge.Hooks.{
  Attempt, returned, threw, apply_post_hooks, ToolHookRegistry, Action, continue, deny, modify_args,
}
use hydra_forge.Tools.{permission_denied, ToolMetadata, ToolCallContext}
use hydra_forge.Tools.Results.{ToolResult, error, empty_object}
use hydra_forge.Tools.Validation.{Args, Checked, passes, refuses}
use hydra_forge.Tools.Coordinator.{
  World, ToolEvent, cycle_detected, cycle_error, depth_error, emit, enter, leave, pop_if_last,
  ToolCoordinator, Environment, finish, after_post, report_denial, deny_post, post_reason,
  after_call, approval_gate, layer_gate, after_check, on_action, pre_gate, run_call, execute,
}

abbrev pub nesting : {W : Type 0} → World W → ℕ × List Text
nesting s = (s.depth, s.active)

pop_if_last-append : (name : Text) (xs : List Text) → pop_if_last name (xs ++ name ∷ []) ≡ xs
pop_if_last-append name [] = rw ((same_iff name name).1 refl) refl
pop_if_last-append name (x ∷ []) = rw ((same_iff name name).1 refl) refl
pop_if_last-append name (x ∷ y ∷ xs) = ap (λ t. x ∷ t) (pop_if_last-append name (y ∷ xs))

module _ {W A : Type 0} (n : ℕ × List Text) where
  -- The outcome has the nesting `n`.
  abbrev pub Keeps : Attempt A × World W → Type 0
  Keeps r = nesting r.1 ≡ n

  if_Keeps : (b : Bool) (x y : Attempt A × World W) → Keeps x → Keeps y → Keeps (if b then x else y)
  if_Keeps true x y p q = p
  if_Keeps false x y p q = q

  on_action-Keeps :
      (a : Action) (x y z : Attempt A × World W)
      → Keeps x
      → Keeps y
      → Keeps z
      → Keeps (on_action a x y z)
  on_action-Keeps deny x y z p q r = p
  on_action-Keeps modify_args x y z p q r = q
  on_action-Keeps continue x y z p q r = r

module _ {W R : Type 0} (env : Environment R) (c : ToolCoordinator W R) (meta : ToolMetadata)
    (ctx : ToolCallContext)
    (restores : (name : Text) (args : Args) (s : World W)
      → nesting (c.call_tool name args s).1 ≡ nesting s) where
  report_denial-Keeps :
      (r : ToolResult) (s : World W) (o : Option Text)
      → Keeps (nesting s) (report_denial env c meta ctx r s o)
  report_denial-Keeps r s none = refl
  report_denial-Keeps r s (some reason) = refl

  deny_post-Keeps :
      (r : ToolResult) (s : World W) (o : Option (List ToolEvent))
      → Keeps (nesting s) (deny_post env c meta ctx r s o)
  deny_post-Keeps r s none = refl
  deny_post-Keeps r s (some es) = report_denial-Keeps r s (post_reason r)

  after_post-Keeps :
      (o : Option (ToolHookRegistry ToolMetadata ToolCallContext Args ToolResult W))
      (warnings : List Text) (r : ToolResult) (s : World W)
      → Keeps (nesting s) (after_post env c meta ctx o warnings r s)
  after_post-Keeps none warnings r s = refl
  after_post-Keeps (some hooks) warnings r s =
      let p =
        apply_post_hooks (λ m. m.name) meta ctx hooks
          (λ msg. error permission_denied msg empty_object)
          (record { current = r; warnings = warnings; outside = s.outside }) in
      let s' : World W = record s { outside = p.2 } in
      if_Keeps (nesting s) p.0.ok (finish env c meta ctx p.0 s')
        (deny_post env c meta ctx p.0 s' s'.bus) refl (deny_post-Keeps p.0 s' s'.bus)

  after_call-Keeps :
      (n : ℕ × List Text) (warnings : List Text) (r : Attempt Json × World W)
      → Keeps n r
      → Keeps n (after_call env c meta ctx warnings r)
  after_call-Keeps n warnings (threw x, s) h = h
  after_call-Keeps n warnings (returned raw, s) h =
      after_post-Keeps c.hook_registry warnings _ s ∙ h

  approval_gate-Keeps :
      (args : Args) (warnings : List Text) (s : World W)
      → Keeps (nesting s) (approval_gate env c meta ctx args warnings s)
  approval_gate-Keeps args warnings s =
      if_Keeps (nesting s) _ _ _
        (after_call-Keeps (nesting s) warnings _ (restores meta.name args _)) refl

  layer_gate-Keeps :
      (args : Args) (warnings : List Text) (s : World W) (o : Option LayerProfile)
      → Keeps (nesting s) (layer_gate env c meta ctx args warnings s o)
  layer_gate-Keeps args warnings s none = refl
  layer_gate-Keeps args warnings s (some l) =
      if_Keeps (nesting s) _ _ _ (approval_gate-Keeps args warnings s) refl

  after_check-Keeps :
      (warnings : List Text) (s : World W) (v : Checked Args)
      → Keeps (nesting s) (after_check env c meta ctx warnings s v)
  after_check-Keeps warnings s (refuses stage reason message) = refl
  after_check-Keeps warnings s (passes args) =
      layer_gate-Keeps args warnings _ (parse_layer ctx.caller_layer)

  pre_gate-Keeps :
      (o : Option (ToolHookRegistry ToolMetadata ToolCallContext Args ToolResult W)) (args : Args)
      (s : World W)
      → Keeps (nesting s) (pre_gate env c meta ctx o args s)
  pre_gate-Keeps none args s = after_check-Keeps [] s _
  pre_gate-Keeps (some hooks) args s =
      on_action-Keeps (nesting s) _ _ _ _ refl (after_check-Keeps _ _ _) (after_check-Keeps _ _ _)

  run_call-Keeps :
      (stop_requested : Bool) (args : Args) (s : World W)
      → Keeps (nesting s) (run_call env c meta ctx stop_requested args s)
  unfolding run_call
  run_call-Keeps stop_requested args s =
      if_Keeps (nesting s) _ _ _ refl (pre_gate-Keeps c.hook_registry args s)

  nesting-leave :
      (s t : World W)
      → nesting t ≡ nesting (enter meta.name s)
      → nesting (leave meta.name t) ≡ nesting s
  nesting-leave s t h =
      let d : s.depth + 1 - 1 ≡ s.depth = omega arith in
      ap (λ n. (n.0 - 1, pop_if_last meta.name n.1)) h
      ∙ ap (λ n. (n, pop_if_last meta.name (s.active ++ meta.name ∷ []))) d
      ∙ ap (λ xs. (s.depth, xs)) (pop_if_last-append meta.name s.active)

  -- A call leaves the depth and the call stack of the thread as they were, if the registry does: whether the
  -- call is refused, returns a result or throws, at the guard or in the registry.
  pub execute-nesting :
      (stop_requested : Bool) (args : Args) (s : World W)
      → nesting (execute env c meta ctx stop_requested args s).1 ≡ nesting s
  unfolding execute
  execute-nesting stop_requested args s =
      let r = run_call env c meta ctx stop_requested args (enter meta.name s) in
      let left : Attempt ToolResult × World W = (r.0, leave meta.name r.1) in
      let deep : Attempt ToolResult × World W =
        (threw (depth_error env.print s.depth meta.name s.active), s) in
      if_Keeps (nesting s) (any (λ x. same x meta.name) s.active)
        (threw (cycle_error meta.name s.active), emit (cycle_detected meta.name) s)
        (if leb 2 s.depth then deep else left) refl
        (if_Keeps (nesting s) (leb 2 s.depth) deep left refl
          (nesting-leave s r.1 (run_call-Keeps stop_requested args (enter meta.name s))))
