-- ===== src/Scheduler/Loop/Laws/Completed.antt =====
-- What the message "completed" of a run says of the nodes.
use hydra_forge.Prelude.{
  ℕ, zero, suc, ◌≡◌, refl, subst, ap, ◌∙◌, ◌≢◌, ◌⊎◌, inl, inr, true, false, ◌||◌, List, [], ◌∷◌,
  ◌++◌, arith, All, Bool-cases,
}
use hydra_forge.Prelude.Text.{Text, same, same_iff, codes, starts_with}
use hydra_forge.Scheduler.Node.{Node, Outcome, value, throws, value-injective}
use hydra_forge.Scheduler.State.{
  Context, Session, TopoScheduler, DagState, ExecutionResult, ExecutionMessage, completed,
  contains_path, insert_path,
}
use hydra_forge.Scheduler.Queue.{Dispatch, nothing, found, failed, pop_ready_node}
use hydra_forge.Scheduler.Fork.{handle_fork_branches_block}
use hydra_forge.Scheduler.Loop.{
  Round, again, leave, finish, raise, required_paths, without, dispatch_ready_nodes,
  finalize_execution, resolve_dynamic_waits, complete, run_node, run_found, take_turn, round,
  dispatched, continues, settle, run_main_loop,
}

abbrev system : Text
system = codes "/__system__/"

-- Each node outside of `/__system__/` has been executed.
abbrev pub AllExecuted : List Node → List Text → Type 0
AllExecuted ns executed =
    All (λ n. (starts_with system n.path ≡ true) ⊎ (contains_path n.path executed ≡ true)) ns

contains-snoc :
    (p q : Text) (qs : List Text)
    → contains_path p (qs ++ q ∷ []) ≡ (contains_path p qs || same q p)
contains-snoc p q [] = ground arith
contains-snoc p q (x ∷ qs) = ground (arith, contains-snoc p q qs)

contains-insert :
    (p q : Text) (qs : List Text)
    → contains_path p qs ≡ true
    → contains_path p (insert_path q qs) ≡ true
contains-insert p q qs h = ground (arith, contains-snoc p q qs)

contains-insert_self : (q : Text) (qs : List Text) → contains_path q (insert_path q qs) ≡ true
contains-insert_self q qs = ground (arith, contains-snoc q q qs, same_iff q q)

required-keeps :
    (ns : List Node) (acc : List Text) (p : Text)
    → contains_path p acc ≡ true
    → contains_path p (required_paths ns acc) ≡ true
unfolding required_paths
required-keeps [] acc p h = h
required-keeps (n ∷ ns) acc p h =
    required-keeps ns _ p (ground (arith, contains-insert p n.path acc h))

without-nil :
    (executed ps : List Text) (p : Text)
    → without executed ps ≡ []
    → contains_path p ps ≡ true
    → contains_path p executed ≡ true
without-nil executed [] p e h = cc
without-nil executed (q ∷ qs) p e h = ground (arith, same_iff q p, without-nil executed qs p)

required-AllExecuted :
    (ns : List Node) (acc executed : List Text)
    → without executed (required_paths ns acc) ≡ []
    → AllExecuted ns executed
unfolding required_paths
required-AllExecuted [] acc executed e = tt
required-AllExecuted (n ∷ ns) acc executed e = elim (Bool-cases (starts_with system n.path)) [
  | inl sys ↦ (inl sys, required-AllExecuted ns _ executed e)
  | inr other ↦ (
    inr (
        without-nil executed _ n.path e
          (rw other (required-keeps ns _ n.path (contains-insert_self n.path acc)))),
    required-AllExecuted ns _ executed e,
  )
]

-- No result of a round has the message "completed".
module _ {S V : Type 0} (env : Session S V) (r : ExecutionResult V) where
  dispatch-ne-completed :
      (context : Context V) (s : TopoScheduler S V)
      → (dispatch_ready_nodes env context s).0 ≡ failed r
      → r.message ≢ completed
  unfolding dispatch_ready_nodes pop_ready_node
  dispatch-ne-completed context s e q = ground arith

  module _ (t : TopoScheduler S V) where
    complete-ne-finish :
        (state : DagState) (n : Node) (current : Text) (context : Context V) (s : TopoScheduler S V)
        → complete env state n current context s ≢ finish r t
    unfolding complete
    complete-ne-finish state n current context s e = ground arith

    run_node-ne-completed :
        (state : DagState) (n : Node) (current : Text) (context : Context V) (s : TopoScheduler S V)
        → run_node env state n current context s ≡ finish r t
        → r.message ≢ completed
    unfolding run_node
    run_node-ne-completed state n current context s e q = ground arith

    run_found-ne-completed :
        (state : DagState) (n : Node) (current : Text) (context : Context V) (s : TopoScheduler S V)
        → run_found env state n current context s ≡ finish r t
        → r.message ≢ completed
    unfolding run_found
    run_found-ne-completed state n current context s e q =
        ground (arith, run_node-ne-completed state n current context s)

    take_turn-ne-completed :
        (state : DagState) (n : Node) (current : Text) (context : Context V) (s : TopoScheduler S V)
        → take_turn env state n current context s ≡ finish r t
        → r.message ≢ completed
    unfolding take_turn
    take_turn-ne-completed state n current context s e q = ground (
      arith,
      run_found-ne-completed state n current context
          (resolve_dynamic_waits env n current context s).2,
    )

    dispatched-ne-completed :
        (state : DagState) (context : Context V) (d : Dispatch V × TopoScheduler S V)
        → (d.0 ≡ failed r → r.message ≢ completed)
        → dispatched env state context d ≡ finish r t
        → r.message ≢ completed
    unfolding dispatched
    dispatched-ne-completed state context (failed x, s) h e q = ground arith
    dispatched-ne-completed state context (nothing, s) h e q = cc
    dispatched-ne-completed state context (found current n, s) h e q =
        ground (arith, take_turn-ne-completed state n current context s)

    round-ne-completed :
        (state : DagState) (context : Context V) (s : TopoScheduler S V)
        → round env state context s ≡ finish r t
        → r.message ≢ completed
    unfolding round
    round-ne-completed state context s e q = at_forks (handle_fork_branches_block env s) refl
      where
        at_forks : (o : Outcome (TopoScheduler S V)) → handle_fork_branches_block env s ≡ o → ⊥
        at_forks (throws x) f = cc (rw (f, round) at e)
        at_forks (value u) f =
            dispatched-ne-completed state context (dispatch_ready_nodes env context u)
              (dispatch-ne-completed context u) (rw (f, round) at e) q

module _ {S V : Type 0} (env : Session S V) where
  finalize-completed :
      (context : Context V) (s : TopoScheduler S V)
      → (finalize_execution env context s).message ≡ completed
      → (env.is_budget_exceeded s.session ≡ false) × AllExecuted s.all_nodes s.executed
  unfolding finalize_execution
  finalize-completed context s e = elim (Bool-cases (env.is_budget_exceeded s.session)) [
    | inl over ↦ cc (rw (over, finalize_execution) at e)
    | inr fine ↦ (fine, required-AllExecuted s.all_nodes [] s.executed (ground arith))
  ]

  abbrev Complete : TopoScheduler S V → Type 0
  Complete t = (env.is_budget_exceeded t.session ≡ false) × AllExecuted t.all_nodes t.executed

  final-completed :
      (c : Context V) (u t : TopoScheduler S V) (r : ExecutionResult V)
      → ◌≡◌ {A = Outcome (ExecutionResult V × TopoScheduler S V)}
          (value (finalize_execution env c u, u))
          (value (r, t))
      → r.message ≡ completed
      → Complete t
  final-completed c u t r x m =
      let p = value-injective (finalize_execution env c u, u) (r, t) x in
      subst Complete (ap {B = TopoScheduler S V} (λ w. w.1) p)
        (finalize-completed c u (ap {B = ExecutionMessage} (λ w. w.0.message) p ∙ m))

  settle-completed :
      (rest : DagState
        → Context V
        → TopoScheduler S V
        → Outcome (ExecutionResult V × TopoScheduler S V))
      (state : DagState) (context : Context V) (s t : TopoScheduler S V) (r : ExecutionResult V)
      → ((d : DagState) (c : Context V) (u : TopoScheduler S V)
          → rest d c u ≡ value (r, t)
          → Complete t)
      → (o : Round S V) → round env state context s ≡ o
      → settle env rest o ≡ value (r, t)
      → r.message ≡ completed
      → Complete t
  unfolding settle
  settle-completed rest state context s t r ih (again d c u) f x m = ih d c u x
  settle-completed rest state context s t r ih (leave c u) f x m = final-completed c u t r x m
  settle-completed rest state context s t r ih (finish q u) f x m = absurd (
      round-ne-completed env q u state context s f
        (ap {B = ExecutionMessage} (λ w. w.0.message) (value-injective (q, u) (r, t) x) ∙ m))
  settle-completed rest state context s t r ih (raise y) f x m = cc

  -- If a run ends with the message "completed", then at its end the budget is not exceeded and every
  -- registered node outside of `/__system__/`, also one that was generated on the way, has been
  -- executed.
  pub run_main_loop-completed :
      (fuel : ℕ) (state : DagState) (context : Context V) (s t : TopoScheduler S V)
      (r : ExecutionResult V)
      → run_main_loop env fuel state context s ≡ value (r, t)
      → r.message ≡ completed
      → (env.is_budget_exceeded t.session ≡ false) × AllExecuted t.all_nodes t.executed
  unfolding run_main_loop
  run_main_loop-completed zero state context s t r e m = cc
  run_main_loop-completed (suc fuel) state context s t r e m =
      elim (Bool-cases (continues env state s)) [
        | inl more ↦
            settle-completed (run_main_loop env fuel) state context s t r
              (λ d c u x. run_main_loop-completed fuel d c u t r x m) (round env state context s)
              refl (rw (more, run_main_loop) at e) m
        | inr over ↦ final-completed context s t r (rw (over, run_main_loop) at e) m
      ]
