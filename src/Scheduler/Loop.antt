-- ===== src/Scheduler/Loop.antt =====
-- The main loop of topo_scheduler.cpp: dispatch, the rounds of `run_main_loop`, the end of a run, and
-- the pause and resume of YIELD nodes. A round that ends in an exception has no state.
pub mod Laws
use hydra_forge.Prelude.{
  ℕ, zero, suc, ◌+◌, Bool, true, false, not, ◌&&◌, ◌||◌, List, [], ◌∷◌, ◌++◌, Option, none, some,
  if◌then◌else◌, ◌==◌, length,
}
use mathlib.Core.Option
use hydra_forge.Prelude.Maps.{insert, has, lookup}
use hydra_forge.Prelude.Text.{Text, text_eq, same, codes, starts_with, after_first}
use hydra_forge.Scheduler.Node.{
  Node, NodeType, end_node, fork, join, WaitFor, plain, object, Spec, single, items, neither,
  Outcome, value, throws, ◌>>=◌, Failure, out_of_fuel,
}
use hydra_forge.Scheduler.Dag.{Dag, NodeMap, update_successors}
use hydra_forge.Scheduler.State.{
  Context, Session, NodeRun, Rendered, array, string, raw, YieldState, TopoScheduler, DagState,
  SchedulerState, running, yielded, ExecutionResult, ExecutionMessage, completed, budget_exceeded,
  unmet_dynamic, paused_at_llm, unexecuted, entry_not_found, not_in_map, yielded_at, unresolved,
  node_failed, not_yielded, no_pending_yield, contains_path, insert_path, register_all, build_dag,
  copy_dag_state_to,
}
use hydra_forge.Scheduler.Fork.{
  after_run, handle_fork_branches_block, handle_fork_node, process_fork_join,
}
use hydra_forge.Scheduler.Queue.{
  GraphEntry, Dispatch, nothing, found, failed, failure, success, check_end_termination,
  template_of, rendered_paths, all_executed, process_jump, handle_node_completion, mark_executed,
  pop_ready_node, rebuild_dynamic_graph, prepare_dag_state, serialize_dag_state, restore_dag_state,
}

-- What a round of the loop comes to.
pub data Round (S V : Type 0) : Type 0 where
  again : DagState → Context V → TopoScheduler S V → Round S V
  leave : Context V → TopoScheduler S V → Round S V
  finish : ExecutionResult V → TopoScheduler S V → Round S V
  raise : Failure → Round S V

-- The paths that a run has to execute, each once: those outside `/__system__/`.
pub required_paths : List Node → List Text → List Text
required_paths [] acc = acc
required_paths (n ∷ ns) acc =
    required_paths ns
      (if starts_with (codes "/__system__/") n.path then acc else insert_path n.path acc)

abbrev pub without : List Text → List Text → List Text
without executed [] = []
without executed (p ∷ ps) =
    let rest = without executed ps in if contains_path p executed then rest else p ∷ rest

module _ {S V : Type 0} (env : Session S V) where
  -- The end of `dispatch_ready_nodes`.
  pub no_node_ready : Context V → TopoScheduler S V → Dispatch V × TopoScheduler S V
  no_node_ready context s =
      if env.has_pending_deps s.session
      then (failed (failure unmet_dynamic context), s)
      else (nothing, s)

  pub dispatch_ready_nodes : Context V → TopoScheduler S V → Dispatch V × TopoScheduler S V
  unfolding pop_ready_node no_node_ready
  dispatch_ready_nodes context s = elim s.ready_queue [
    | p ∷ rest ↦
        if not s.is_executing_fork_branches
        then pop_ready_node context s
        else if s.fork_index == length s.fork_branches
        then pop_ready_node context (record s { session = env.check_and_requeue [] s.session })
        else no_node_ready context s
    | [] ↦ no_node_ready context s
  ]

  pub finalize_execution : Context V → TopoScheduler S V → ExecutionResult V
  unfolding required_paths
  finalize_execution context s =
      if env.is_budget_exceeded s.session
      then failure budget_exceeded context
      else elim (without s.executed (required_paths s.all_nodes [])) [
        | [] ↦ success completed context none
        | p ∷ ps ↦ failure (unexecuted (p ∷ ps)) context
      ]

  -- `resolve_dynamic_waits`: an early result, or whether the node can run now; if not, it goes to the
  -- end of the queue.
  pub resolve_dynamic_waits :
      Node
      → Text
      → Context V
      → TopoScheduler S V
      → Option (ExecutionResult V) × Bool × TopoScheduler S V
  unfolding template_of rendered_paths
  resolve_dynamic_waits n current context s = elim (template_of n.wait_for) [
    | none ↦ (none, true, s)
    | some template ↦ elim (env.render template context) [
      | none ↦ (some (failure (unresolved current) context), true, s)
      | some rendered ↦
          if all_executed (rendered_paths rendered) s.executed
          then (none, true, s)
          else (none, false, record s { ready_queue = s.ready_queue ++ current ∷ [] })
    ]
  ]

  -- The pause at a YIELD node: the node is queued again and the state is put in the session.
  pub pause : Text → YieldState → Context V → TopoScheduler S V → Round S V
  unfolding serialize_dag_state
  pause current pending context s =
      let queued = record s { ready_queue = s.ready_queue ++ current ∷ [] } in
      finish (success (yielded_at current) context none) (record queued {
        session =
            env.set_pending_yield
              (record { module_path = current; resume_context = serialize_dag_state queued })
              s.session;
        scheduler_state = yielded;
        yielded_context = context;
        yielded_node_path = current;
      })

  -- What follows a node that has run to its end.
  pub complete : DagState → Node → Text → Context V → TopoScheduler S V → Round S V
  unfolding handle_node_completion check_end_termination rebuild_dynamic_graph
  complete state n current context s =
      let done = handle_node_completion n current s in
      if check_end_termination n current done.is_executing_fork_branches
      then leave context done
      else elim (rebuild_dynamic_graph state done) [
        | throws e ↦ raise e
        | value (next, t) ↦
            again next context
              (record t { session = env.check_and_requeue (current ∷ []) t.session })
      ]

  -- The execution of a node that is neither FORK nor JOIN.
  pub run_node : DagState → Node → Text → Context V → TopoScheduler S V → Round S V
  unfolding after_run process_jump pause complete mark_executed
  run_node state n current context s =
      let (r, session) = env.execute_node n context s.session in
      let after = after_run r session s in
      if r.success
      then elim (env.get_pending_yield session) [
        | some pending ↦ pause current pending r.new_context after
        | none ↦
            let marked = mark_executed current after in
            elim r.paused_at [
              | some at ↦ finish (success paused_at_llm r.new_context (some at)) marked
              | none ↦ complete state n current r.new_context marked
            ]
      ]
      else elim (process_jump r.message after) [
        | some jumped ↦ again state context jumped
        | none ↦
            finish
              (record {
                success = false;
                message = node_failed r.message;
                final_context = context;
                paused_at = r.paused_at;
              })
              after
      ]

  -- A node at its turn: FORK and JOIN are routed before any execution.
  pub run_found : DagState → Node → Text → Context V → TopoScheduler S V → Round S V
  unfolding run_node handle_fork_node process_fork_join handle_node_completion mark_executed
  run_found state n current context s = elim n.type [
    | fork ↦ elim (handle_fork_node env n context s) [
      | throws e ↦ raise e
      | value t ↦ again state context (handle_node_completion n current (mark_executed current t))
    ]
    | join ↦ elim (process_fork_join env n context s) [
      | throws e ↦ raise e
      | value (merged, t) ↦
          again state merged (handle_node_completion n current (mark_executed current t))
    ]
    | _ ↦ run_node state n current context s
  ]

  -- A node that has not been executed: its dynamic dependencies first.
  pub take_turn : DagState → Node → Text → Context V → TopoScheduler S V → Round S V
  unfolding resolve_dynamic_waits run_found
  take_turn state n current context s =
      let w = resolve_dynamic_waits n current context s in
      elim w.0 [
        | some r ↦ finish r w.2
        | none ↦ if w.1 then run_found state n current context w.2 else again state context w.2
      ]

  -- What the loop does with a dispatch. A node that has been executed is passed over.
  pub dispatched : DagState → Context V → Dispatch V × TopoScheduler S V → Round S V
  unfolding take_turn
  dispatched state context (failed r, s) = finish r s
  dispatched state context (nothing, s) = leave context s
  dispatched state context (found current n, s) =
      if contains_path current s.executed
      then again state context s
      else take_turn state n current context s

  -- One round of the loop's body.
  pub round : DagState → Context V → TopoScheduler S V → Round S V
  unfolding handle_fork_branches_block dispatch_ready_nodes dispatched
  round state context s = elim (handle_fork_branches_block env s) [
    | throws e ↦ raise e
    | value t ↦ dispatched state context (dispatch_ready_nodes context t)
  ]

  -- The test of the loop reads the queue of the copy.
  pub continues : DagState → TopoScheduler S V → Bool
  continues state s = elim state.ready_queue [ [] ↦ env.has_pending_deps s.session | _ ∷ _ ↦ true ]

  -- What follows a round: the rest of the loop, the end of the run, or an early result.
  pub settle :
      (DagState → Context V → TopoScheduler S V → Outcome (ExecutionResult V × TopoScheduler S V))
      → Round S V
      → Outcome (ExecutionResult V × TopoScheduler S V)
  unfolding finalize_execution
  settle rest (again state context s) = rest state context s
  settle rest (leave context s) = value (finalize_execution context s, s)
  settle rest (finish r s) = value (r, s)
  settle rest (raise e) = throws e

  -- `run_main_loop` on fuel: dynamic waits and jumps can go on for ever.
  unfoldable pub run_main_loop :
      ℕ → DagState → Context V → TopoScheduler S V → Outcome (ExecutionResult V × TopoScheduler S V)
  unfolding continues round settle finalize_execution
  run_main_loop zero state context s = throws out_of_fuel
  run_main_loop (suc fuel) state context s =
      let onward = settle (run_main_loop fuel) (round state context s) in
      if continues state s then onward else value (finalize_execution context s, s)

  pub execute :
      ℕ
      → List GraphEntry
      → Context V
      → TopoScheduler S V
      → Outcome (ExecutionResult V × TopoScheduler S V)
  unfolding prepare_dag_state run_main_loop build_dag copy_dag_state_to
  execute fuel graphs context s = do
    prepared ← prepare_dag_state graphs s
    elim prepared.0 [
      | some r ↦ value (r, prepared.1)
      | none ↦ do
        built ← build_dag prepared.1
        run_main_loop fuel (copy_dag_state_to built) context built
    ]

  -- `merged[key] = value` for each entry of the update.
  pub overlay : Context V → Context V → Context V
  overlay [] context = context
  overlay ((k, v) ∷ update) context = overlay update (insert k v context)

  pub resume_yield :
      ℕ → Context V → TopoScheduler S V → Outcome (ExecutionResult V × TopoScheduler S V)
  unfolding restore_dag_state overlay run_main_loop copy_dag_state_to
  resume_yield fuel update s = elim s.scheduler_state [
    | running ↦ value (failure not_yielded s.yielded_context, s)
    | yielded ↦ elim (env.get_pending_yield s.session) [
      | none ↦ value (failure no_pending_yield s.yielded_context, s)
      | some pending ↦
          let merged = overlay update s.yielded_context in
          let resumed = record (restore_dag_state env.truncate pending.resume_context s) {
            session = env.clear_pending_yield s.session;
            scheduler_state = running;
            yielded_context = [];
            yielded_node_path = [];
          } in
          run_main_loop fuel (copy_dag_state_to resumed) merged resumed
    ]
  ]
