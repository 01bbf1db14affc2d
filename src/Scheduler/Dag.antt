-- ===== src/Scheduler/Dag.antt =====
-- The dependency graph of src/modules/scheduler/topo_scheduler.cpp: the maps that `build_dag` fills
-- from the nodes, and the step that a finished node makes in them.
pub mod Edges
pub mod Release
use hydra_forge.Prelude.{
  ℕ, Bool, true, false, not, List, [], ◌∷◌, ◌++◌, Option, none, some, if◌then◌else◌,
}
use hydra_forge.Prelude.Int.{ℤ, pos, increment, decrement, is_zero}
use hydra_forge.Prelude.Maps.{insert, has, at}
use hydra_forge.Prelude.Text.{Text, text_eq}
use hydra_forge.Scheduler.Node.{
  Node, NodeType, fork, WaitFor, Class, fork_class, resource_class, join_class, other_class,
  Outcome, value, throws, ◌>>=◌, next_not_found, dependency_not_found, branch_not_found,
  collect_wait_for_deps, is_dynamic,
}

abbrev pub NodeMap : Type 0
NodeMap = List (Text × Node)

abbrev pub PathLists : Type 0
PathLists = List (Text × List Text)

abbrev pub Degrees : Type 0
Degrees = List (Text × ℤ)

pub record Dag : Type 0 where
  pub reverse_edges : PathLists
  pub wait_for_dependents : PathLists
  pub in_degree : Degrees

-- `map[k].push_back(v)`
pub push_path : Text → Text → PathLists → PathLists
push_path k v m = insert k (at [] k m ++ v ∷ []) m

-- `in_degree_[k]++`
pub bump : Text → Degrees → Degrees
bump k m = insert k (increment (at (pos 0) k m)) m

-- The first loop of `parse_node_wait_for_deps`.
pub clear_entries : List Node → Dag → Dag
clear_entries [] d = d
clear_entries (n ∷ ns) d = clear_entries ns (record {
  reverse_edges = insert n.path [] d.reverse_edges;
  wait_for_dependents = insert n.path [] d.wait_for_dependents;
  in_degree = insert n.path (pos 0) d.in_degree;
})

-- The paths of a dependency that is known before the run.
pub static_deps : Option WaitFor → Outcome (List Text)
static_deps none = value []
static_deps (some w) = if is_dynamic w then value [] else collect_wait_for_deps w

class_branches : Class → List Text
class_branches (fork_class branches) = branches
class_branches _ = []

-- The branches of a node of type FORK that is a `ForkNode`.
pub fork_branches : Node → List Text
unfolding class_branches
fork_branches n = elim n.type [ fork ↦ class_branches n.class | _ ↦ [] ]

module _ (node_map : NodeMap) where
  pub add_next : Text → List Text → Dag → Outcome Dag
  unfolding push_path bump
  add_next current [] d = value d
  add_next current (next ∷ rest) d =
      let onward = add_next current rest (record d {
        reverse_edges = push_path next current d.reverse_edges;
        in_degree = bump next d.in_degree;
      }) in
      if has next node_map then onward else throws (next_not_found next)

  pub add_deps : Text → List Text → Dag → Outcome Dag
  unfolding push_path bump
  add_deps current [] d = value d
  add_deps current (dep ∷ rest) d =
      let onward = add_deps current rest (record {
        reverse_edges = push_path current dep d.reverse_edges;
        wait_for_dependents = push_path dep current d.wait_for_dependents;
        in_degree = bump current d.in_degree;
      }) in
      if has dep node_map then onward else throws (dependency_not_found dep)

  pub add_branches : Text → List Text → Dag → Outcome Dag
  unfolding push_path bump
  add_branches current [] d = value d
  add_branches current (branch ∷ rest) d =
      let onward = add_branches current rest (record d {
        reverse_edges = push_path branch current d.reverse_edges;
        in_degree = bump branch d.in_degree;
      }) in
      if has branch node_map then onward else throws (branch_not_found branch)

  -- The second loop.
  pub add_node_edges : List Node → Dag → Outcome Dag
  unfolding add_next add_deps static_deps
  add_node_edges [] d = value d
  add_node_edges (n ∷ ns) d = do
    linked ← add_next n.path n.next d
    deps ← static_deps n.wait_for
    waiting ← add_deps n.path deps linked
    add_node_edges ns waiting

  -- The third loop.
  pub add_fork_edges : List Node → Dag → Outcome Dag
  unfolding add_branches fork_branches
  add_fork_edges [] d = value d
  add_fork_edges (n ∷ ns) d = do
    forked ← add_branches n.path (fork_branches n) d
    add_fork_edges ns forked

unfoldable pub parse_node_wait_for_deps : List Node → NodeMap → Dag → Outcome Dag
unfolding clear_entries add_node_edges add_fork_edges
parse_node_wait_for_deps all_nodes node_map d = do
  edges ← add_node_edges node_map all_nodes (clear_entries all_nodes d)
  add_fork_edges node_map all_nodes edges

-- `seed_initial_ready_queue`: `in_degree_[path]` enters a missing path with 0.
unfoldable pub seed_ready : List Node → Degrees → List Text → List Text
seed_ready [] degrees queue = queue
seed_ready (n ∷ ns) degrees queue =
    seed_ready ns degrees
      (if is_zero (at (pos 0) n.path degrees) then queue ++ n.path ∷ [] else queue)

-- One of the two loops of `update_successors`: `if (--in_degree_[p] == 0) ready_queue_.push(p)`.
pub release : List Text → Degrees → List Text → Degrees × List Text
release [] degrees queue = (degrees, queue)
release (p ∷ ps) degrees queue =
    let lower = decrement (at (pos 0) p degrees) in
    release ps (insert p lower degrees) (if is_zero lower then queue ++ p ∷ [] else queue)

unfoldable pub update_successors : Node → Text → Dag → List Text → Dag × List Text
unfolding release
update_successors n current d queue =
    let first = release n.next d.in_degree queue in
    let second = release (at [] current d.wait_for_dependents) first.0 first.1 in
    (record d { in_degree = second.0 }, second.1)
