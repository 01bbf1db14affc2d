-- ===== src/Scheduler/Tests.antt =====
-- Applications of the theorems on the scheduler (src/modules/scheduler/topo_scheduler.cpp) to a graph of
-- two nodes and to a session that runs every node with success and counts the runs.
use hydra_forge.Prelude.{
  ℕ, ◌+◌, ◌-◌, ◌≤◌, ◌≡◌, ◌≢◌, refl, ◌||◌, ◌&&◌, ◌==◌, ltb, Bool, true, false, List, [], ◌∷◌, ◌++◌,
  Option, none, some, arith, length,
}
use hydra_forge.Json.{null}
use hydra_forge.Prelude.Int.{pos, is_zero, increment, decrement}
use hydra_forge.Prelude.Maps.{lookup, insert, has, at}
use hydra_forge.Prelude.Text.{Text, text_eq, codes, same, starts_with, after_first}
use hydra_forge.Scheduler.Node.{
  Node, start_node, assign, join, plain, items, other_class, join_class, is_dynamic, Outcome, value,
  throws, ◌>>=◌, out_of_fuel,
}
use hydra_forge.Scheduler.Dag.{Dag, parse_node_wait_for_deps, update_successors}
use hydra_forge.Scheduler.Dag.Edges.{degree, edges_into, forks_into, is_path_of, parse-degree}
use hydra_forge.Scheduler.Dag.Release.{queued, successions, update_successors-degree}
use hydra_forge.Scheduler.State.{
  Session, YieldState, TopoScheduler, DagState, ExecutionResult, completed, not_yielded, running,
  register_all, build_dag, copy_dag_state_to,
}
use hydra_forge.Scheduler.Fork.{
  execute_single_branch, run_branches, start_fork_simulation, start_join_simulation,
  finish_join_simulation, merge_all,
}
use hydra_forge.Scheduler.Fork.Fuel.{execute_single_branch-fuel}
use hydra_forge.Scheduler.Fork.Laws.{fork-results_complete}
use hydra_forge.Scheduler.Queue.{failure, rebuild_dynamic_graph}
use hydra_forge.Scheduler.Loop.{pause, run_main_loop, resume_yield, overlay}
use hydra_forge.Scheduler.Node.{collect_wait_for_deps}
use hydra_forge.Scheduler.Loop.Laws.Completed.{AllExecuted, run_main_loop-completed}
use hydra_forge.Scheduler.Loop.Laws.Resume.{left_by, saved_by, resume_yield-pause}

abbrev first : Text
first = codes "/s"

abbrev second : Text
second = codes "/a"

abbrev nodes : List Node
nodes =
    record {
      path = first;
      type = start_node;
      next = second ∷ [];
      wait_for = none;
      termination_mode = codes "hard";
      class = other_class;
    }
    ∷ record {
      path = second;
      type = assign;
      next = [];
      wait_for = some (plain (items (some first ∷ [])));
      termination_mode = codes "hard";
      class = other_class;
    }
    ∷ []

-- The state of the session is the pending yield and the number of runs.
abbrev env : Session (Option YieldState × ℕ) ℕ
env = record {
  execute_node = λ n c s. (
    record { success = true; message = []; new_context = c; paused_at = none; new_graphs = [] },
    (s.0, s.1 + 1),
  );
  get_pending_yield = λ s. s.0;
  set_pending_yield = λ y s. (some y, s.1);
  clear_pending_yield = λ s. (none, s.1);
  has_pending_deps = λ s. false;
  check_and_requeue = λ ps s. s;
  is_budget_exceeded = λ s. false;
  save_snapshot = λ p c s. s;
  get_snapshot = λ p s. none;
  merge = λ strategy c d. value (c ++ d);
  truncate = λ bits. pos 0;
  render = λ t c. none;
}

abbrev no_dag : Dag
no_dag = record { reverse_edges = []; wait_for_dependents = []; in_degree = [] }

abbrev empty : TopoScheduler (Option YieldState × ℕ) ℕ
empty = record {
  all_nodes = [];
  node_map = [];
  dag = no_dag;
  ready_queue = [];
  executed = [];
  dynamic_graphs = [];
  resources = [];
  scheduler_state = running;
  yielded_context = [];
  yielded_node_path = [];
  fork_node_path = none;
  fork_branches = [];
  fork_results = [];
  fork_index = 0;
  is_executing_fork_branches = false;
  join_merge_strategy = [];
  join_wait_for = [];
  join_node_path = none;
  session = (none, 0);
}

abbrev or_else : {A : Type 0} → A → Outcome A → A
or_else d (value a) = a
or_else d (throws e) = d

abbrev built : TopoScheduler (Option YieldState × ℕ) ℕ
built = or_else empty (build_dag (register_all nodes empty))

abbrev start : DagState
start = copy_dag_state_to built

abbrev end_of_run : ExecutionResult ℕ × TopoScheduler (Option YieldState × ℕ) ℕ
end_of_run = or_else (failure not_yielded [], empty) (run_main_loop env 9 start [] built)

abbrev returns_value : {A : Type 0} → Outcome A → Bool
returns_value (value a) = true
returns_value (throws e) = false

value-or_else :
    {A : Type 0} (d : A) (m : Outcome A) → returns_value m ≡ true → m ≡ value (or_else d m)
value-or_else d (value a) h = refl
value-or_else d (throws e) h = cc

ends : returns_value (run_main_loop env 9 start [] built) ≡ true
unfolding is_dynamic collect_wait_for_deps run_main_loop register_all build_dag copy_dag_state_to
    same insert lookup has at starts_with after_first is_zero increment decrement
ends = refl

runs : run_main_loop env 9 start [] built ≡ value (end_of_run.0, end_of_run.1)
runs = value-or_else (failure not_yielded [], empty) (run_main_loop env 9 start [] built) ends

is_completed : end_of_run.0.message ≡ completed
unfolding is_dynamic collect_wait_for_deps run_main_loop register_all build_dag copy_dag_state_to
    same insert lookup has at starts_with after_first is_zero increment decrement
is_completed = refl

run_main_loop-completed_example :
    (env.is_budget_exceeded end_of_run.1.session ≡ false)
    × AllExecuted end_of_run.1.all_nodes end_of_run.1.executed
run_main_loop-completed_example =
    run_main_loop-completed env 9 start [] built end_of_run.1 end_of_run.0 runs is_completed

abbrev parsed : Dag
parsed = or_else no_dag (parse_node_wait_for_deps nodes built.node_map no_dag)

parses : returns_value (parse_node_wait_for_deps nodes built.node_map no_dag) ≡ true
unfolding is_dynamic collect_wait_for_deps register_all parse_node_wait_for_deps same insert lookup
    has at build_dag is_zero increment decrement
parses = refl

first-known : is_path_of second nodes ≡ true
unfolding same
first-known = refl

parse-degree_example :
    degree second parsed.in_degree ≡ pos (edges_into second nodes + forks_into second nodes)
parse-degree_example =
    parse-degree nodes built.node_map no_dag parsed second
      (value-or_else no_dag (parse_node_wait_for_deps nodes built.node_map no_dag) parses)
      first-known

-- The first node ends; the second follows it twice, by an edge and by its wait.
abbrev waits : Dag
waits = record no_dag {
  wait_for_dependents = (first, second ∷ []) ∷ [];
  in_degree = (second, pos 2) ∷ [];
}

abbrev first_node : Node
first_node = record {
  path = first;
  type = start_node;
  next = second ∷ [];
  wait_for = none;
  termination_mode = codes "hard";
  class = other_class;
}

two_edges : degree second waits.in_degree ≡ pos 2
unfolding at same
two_edges = refl

both_occur : successions second first_node first waits ≤ 2
unfolding at same
both_occur = omega arith

update_successors-degree_example :
    (degree second (update_successors first_node first waits []).0.in_degree
      ≡ pos (2 - successions second first_node first waits))
    × (queued second (update_successors first_node first waits []).1 ≡ (
        queued second []
        || (ltb 0 (successions second first_node first waits)
            && 2 == successions second first_node first waits)))
update_successors-degree_example =
    update_successors-degree first_node first second waits [] 2 two_edges both_occur

execute_single_branch-fuel_example : execute_single_branch env second [] built ≢ throws out_of_fuel
execute_single_branch-fuel_example = execute_single_branch-fuel env second [] built

-- A fork of one branch.
abbrev after_branches : TopoScheduler (Option YieldState × ℕ) ℕ
after_branches =
    or_else empty
      (run_branches env (second ∷ []) [] (start_fork_simulation env first (second ∷ []) [] built))

branches-run :
    returns_value
      (run_branches env (second ∷ []) [] (start_fork_simulation env first (second ∷ []) [] built))
    ≡ true
unfolding is_dynamic collect_wait_for_deps register_all run_branches start_fork_simulation same
    insert lookup has at build_dag starts_with is_zero increment decrement
branches-run = refl

fork-results_complete_example :
    (length after_branches.fork_results ≡ length (second ∷ []))
    × (after_branches.fork_branches ≡ second ∷ [])
    × (finish_join_simulation env []
          (start_join_simulation env second (first ∷ []) [] after_branches)
        ≡ (merge_all env [] after_branches.fork_results [] >>= λ merged. value (
          merged,
          record (start_join_simulation env second (first ∷ []) [] after_branches) {
            join_node_path = none;
            fork_results = [];
            join_wait_for = [];
          },
        )))
fork-results_complete_example =
    fork-results_complete env first (second ∷ []) [] [] [] built after_branches second (first ∷ [])
      []
      (value-or_else empty
        (run_branches env (second ∷ []) [] (start_fork_simulation env first (second ∷ []) [] built))
        branches-run)

abbrev pending : YieldState
pending = record { module_path = second; resume_context = null }

resume_yield-pause_example :
    let u : TopoScheduler (Option YieldState × ℕ) ℕ = record built {
      ready_queue = built.ready_queue ++ first ∷ [];
      session =
          env.clear_pending_yield (env.set_pending_yield (saved_by first built) built.session);
      scheduler_state = running;
      yielded_context = [];
      yielded_node_path = [];
    } in
    resume_yield env 9 [] (left_by (pause env first pending [] built) built)
    ≡ run_main_loop env 9 (copy_dag_state_to u) (overlay env [] []) u
resume_yield-pause_example = resume_yield-pause env (λ y x. refl) 9 first pending [] [] built

-- A generated node that follows the first one.
abbrev generated : List Node
generated =
    record {
      path = codes "/g";
      type = assign;
      next = [];
      wait_for = some (plain (items (some first ∷ [])));
      termination_mode = codes "hard";
      class = other_class;
    }
    ∷ []

abbrev extended : TopoScheduler (Option YieldState × ℕ) ℕ
extended = record built { dynamic_graphs = generated ∷ [] }

abbrev rebuilt : DagState × TopoScheduler (Option YieldState × ℕ) ℕ
rebuilt = or_else (start, empty) (rebuild_dynamic_graph start extended)

abbrev join_node : Node
join_node = record {
  path = codes "/j";
  type = join;
  next = [];
  wait_for = none;
  termination_mode = codes "hard";
  class = join_class (first ∷ []) (codes "last_write_wins");
}
