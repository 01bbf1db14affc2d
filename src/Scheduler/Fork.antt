-- ===== src/Scheduler/Fork.antt =====
-- Fork and join in topo_scheduler.cpp: the branches of a fork run one after the other on copies of a
-- snapshot, and a join merges their contexts. `LOG_DEBUG` evaluates its arguments, so a `value()` in
-- one of them counts.
pub mod Laws
pub mod Fuel
use hydra_forge.Prelude.{
  ℕ, zero, suc, ◌+◌, Bool, true, false, not, ◌&&◌, ◌||◌, List, [], ◌∷◌, ◌++◌, Option, none, some,
  if◌then◌else◌, ◌==◌, length, drop,
}
use hydra_forge.Prelude.Int.{pos, decrement, is_zero}
use hydra_forge.Prelude.Maps.{insert, has, at, lookup}
use hydra_forge.Prelude.Text.{Text, text_eq, same, codes, starts_with}
use hydra_forge.Scheduler.Node.{
  Node, NodeType, end_node, Class, fork_class, join_class, Outcome, value, throws, ◌>>=◌, hard_end,
  node_not_found, no_start_node, branch_failed, snapshot_not_found, not_a_fork, not_a_join,
  missing_results, bad_optional_access, out_of_fuel,
}
use hydra_forge.Scheduler.Dag.{NodeMap, Degrees, update_successors}
use hydra_forge.Scheduler.State.{
  Context, Session, NodeRun, TopoScheduler, contains_path, insert_path,
}

-- The path is the branch itself or lies below it.
pub in_branch : Text → Text → Bool
in_branch branch path = starts_with (branch ++ codes "/") path || same path branch

pub find_branch_start_node : Text → NodeMap → Outcome Text
unfolding in_branch
find_branch_start_node branch [] = throws (no_start_node branch)
find_branch_start_node branch ((path, n) ∷ m) =
    let rest = find_branch_start_node branch m in if in_branch branch path then value path else rest

-- The second loop of `init_branch_state`.
pub seed_branch : Text → Text → NodeMap → Degrees → List Text → List Text
unfolding in_branch
seed_branch branch root [] degrees queue = queue
seed_branch branch root ((path, n) ∷ m) degrees queue = seed_branch branch root m degrees (
    if not (same path root) && in_branch branch path && is_zero (at (pos 0) path degrees)
    then queue ++ path ∷ []
    else queue)

-- The queue of `init_branch_state`. A root with the empty path is not queued.
pub init_branch_state : Text → NodeMap → Degrees → Outcome (List Text)
unfolding find_branch_start_node seed_branch
init_branch_state branch m degrees = do
  root ← find_branch_start_node branch m
  value (seed_branch branch root m degrees (if same root [] then [] else root ∷ []))

-- The successors in a branch: one that is no node is passed over, with no decrement.
pub release_branch : NodeMap → List Text → Degrees → List Text → Degrees × List Text
release_branch m [] degrees queue = (degrees, queue)
release_branch m (p ∷ ps) degrees queue =
    let lower = decrement (at (pos 0) p degrees) in
    let known = has p m in
    release_branch m ps (if known then insert p lower degrees else degrees)
      (if known && is_zero lower then queue ++ p ∷ [] else queue)

-- `process_branch_end_node`: a hard end leaves the whole run.
pub process_branch_end_node : Node → Outcome Bool
process_branch_end_node n = elim n.type [
  | end_node ↦ if same n.termination_mode (codes "soft") then value true else throws hard_end
  | _ ↦ value false
]

module _ {S V : Type 0} where
  -- `append_dynamic_graphs`, which a node's run calls through the session.
  unfoldable pub after_run : NodeRun V → S → TopoScheduler S V → TopoScheduler S V
  after_run r session s = record s {
    session = session;
    dynamic_graphs = s.dynamic_graphs ++ r.new_graphs;
  }

module _ {S V : Type 0} (env : Session S V) where
  -- The loop of `execute_single_branch`, on fuel.
  pub branch_loop :
      ℕ
      → List Text
      → List Text
      → Degrees
      → Context V
      → Text
      → TopoScheduler S V
      → Outcome ((Context V × Text) × TopoScheduler S V)
  unfolding release_branch process_branch_end_node
  branch_loop zero queue executed degrees context last s = throws out_of_fuel
  branch_loop (suc fuel) [] executed degrees context last s = value ((context, last), s)
  branch_loop (suc fuel) (current ∷ queue) executed degrees context last s =
      let skipped = branch_loop fuel queue executed degrees context last s in
      if contains_path current executed then skipped else elim (lookup current s.node_map) [
        | none ↦ throws (node_not_found current)
        | some n ↦
            let (r, session) = env.execute_node n context s.session in
            let after = after_run r session s in
            let (released, onward) = release_branch s.node_map n.next degrees queue in
            let continued =
              branch_loop fuel onward (insert_path current executed) released r.new_context current
                after in
            if r.success
            then elim (process_branch_end_node n) [
              | throws e ↦ throws e
              | value true ↦ value ((r.new_context, current), after)
              | value false ↦ continued
            ]
            else throws (branch_failed current)
      ]

  pub execute_single_branch :
      Text → Context V → TopoScheduler S V → Outcome ((Context V × Text) × TopoScheduler S V)
  unfolding branch_loop init_branch_state
  execute_single_branch branch context s = do
    queue ← init_branch_state branch s.node_map s.dag.in_degree
    branch_loop (length queue + length s.node_map + 1) queue [] s.dag.in_degree context [] s

  -- What a finished branch does to the main graph.
  pub finish_branch : Text → Context V → TopoScheduler S V → TopoScheduler S V
  unfolding update_successors
  finish_branch last context s = elim (lookup last s.node_map) [
    | none ↦ record s {
      fork_results = s.fork_results ++ context ∷ [];
      fork_index = s.fork_index + 1;
    }
    | some n ↦
        let (dag, queue) = update_successors n last s.dag s.ready_queue in
        record s {
          dag = dag;
          ready_queue = queue;
          executed = insert_path last s.executed;
          fork_results = s.fork_results ++ context ∷ [];
          fork_index = s.fork_index + 1;
        }
  ]

  -- The loop of `execute_fork_branches` over the branches that are left.
  unfoldable pub run_branches :
      List Text → Context V → TopoScheduler S V → Outcome (TopoScheduler S V)
  unfolding execute_single_branch finish_branch
  run_branches [] snapshot s = value s
  run_branches (branch ∷ rest) snapshot s = do
    ((context, last), t) ← execute_single_branch branch snapshot s
    run_branches rest snapshot (finish_branch last context t)

  pub execute_fork_branches : TopoScheduler S V → Outcome (TopoScheduler S V)
  unfolding run_branches
  execute_fork_branches s =
      if not s.is_executing_fork_branches || length s.fork_branches == 0
      then value s
      else elim s.fork_node_path [
        | none ↦ throws bad_optional_access
        | some path ↦ elim (env.get_snapshot path s.session) [
          | none ↦ throws (snapshot_not_found path)
          | some snapshot ↦ run_branches (drop s.fork_index s.fork_branches) snapshot s
        ]
      ]

  unfoldable pub handle_fork_branches_block : TopoScheduler S V → Outcome (TopoScheduler S V)
  unfolding execute_fork_branches
  handle_fork_branches_block s =
      if s.is_executing_fork_branches then execute_fork_branches s else value s

  unfoldable pub start_fork_simulation :
      Text → List Text → Context V → TopoScheduler S V → TopoScheduler S V
  start_fork_simulation path branches context s = record s {
    session = env.save_snapshot path context s.session;
    fork_node_path = some path;
    fork_branches = branches;
    fork_results = [];
    fork_index = 0;
    is_executing_fork_branches = true;
  }

  unfoldable pub handle_fork_node :
      Node → Context V → TopoScheduler S V → Outcome (TopoScheduler S V)
  unfolding start_fork_simulation
  handle_fork_node n context s = elim n.class [
    | fork_class branches ↦ value (start_fork_simulation n.path branches context s)
    | _ ↦ throws not_a_fork
  ]

  -- Explicit dependencies replace the stored ones; without any these stay.
  pub start_join_simulation : Text → List Text → Text → TopoScheduler S V → TopoScheduler S V
  start_join_simulation path wait_for strategy s = record s {
    join_node_path = some path;
    join_merge_strategy = strategy;
    join_wait_for = elim wait_for [ [] ↦ s.join_wait_for | p ∷ ps ↦ p ∷ ps ];
  }

  pub merge_all : Text → List (Context V) → Context V → Outcome (Context V)
  merge_all strategy [] context = value context
  merge_all strategy (c ∷ cs) context = do
    merged ← env.merge strategy context c
    merge_all strategy cs merged

  pub finish_join_simulation :
      Context V → TopoScheduler S V → Outcome (Context V × TopoScheduler S V)
  unfolding merge_all
  finish_join_simulation context s =
      if length s.fork_results == length s.fork_branches
      then (merge_all s.join_merge_strategy s.fork_results context >>= λ merged.
          value (merged, record s { join_node_path = none; fork_results = []; join_wait_for = [] }))
      else throws missing_results

  pub finish_fork_simulation : TopoScheduler S V → Outcome (TopoScheduler S V)
  finish_fork_simulation s = elim s.fork_node_path [
    | none ↦ throws bad_optional_access
    | some path ↦
        value (record s {
          is_executing_fork_branches = false;
          fork_node_path = none;
          fork_branches = [];
        })
  ]

  unfoldable pub process_fork_join :
      Node → Context V → TopoScheduler S V → Outcome (Context V × TopoScheduler S V)
  unfolding start_join_simulation finish_join_simulation finish_fork_simulation
  process_fork_join n context s = elim n.class [
    | join_class wait_for strategy ↦ do
      (merged, t) ←
          finish_join_simulation context (start_join_simulation n.path wait_for strategy s)
      u ← finish_fork_simulation t
      value (merged, u)
    | _ ↦ throws not_a_join
  ]
