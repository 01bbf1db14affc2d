-- ===== src/Scheduler/Queue.antt =====
-- What the scheduler of topo_scheduler.cpp does with its queue outside of any run: jumps, the front
-- of the queue, the end of a node, the graphs that were generated, and the saved state.
use hydra_forge.Prelude.{
  ℕ, map, Bool, true, false, not, ◌&&◌, List, [], ◌∷◌, ◌++◌, Option, none, some, if◌then◌else◌,
}
use mathlib.Core.Option
use hydra_forge.Prelude.Maps.{has, lookup}
use hydra_forge.Prelude.Text.{Text, text_eq, same, codes, starts_with, after_first}
use hydra_forge.Scheduler.Node.{
  Node, clone, end_node, WaitFor, plain, single, items, neither, Outcome, value, throws,
  not_a_string, ◌>>=◌,
}
use hydra_forge.Scheduler.Dag.{Degrees, update_successors}
use hydra_forge.Prelude.Int.{ℤ}
use hydra_forge.Json.{
  Json, Items, Members, text, integer, double, array, object, no_items, item, no_members, member,
  get_member,
}
use hydra_forge.Scheduler.State.{
  Context, Rendered, string, raw, TopoScheduler, DagState, ExecutionResult, ExecutionMessage,
  entry_not_found, not_in_map, contains_path, insert_path, register_all, build_dag,
  copy_dag_state_to,
}

-- What `prepare_dag_state` reads of a graph.
pub record GraphEntry : Type 0 where
  pub path : Text
  pub entry_point : Option Json
  pub entry : Option Json

pub data Dispatch (V : Type 0) : Type 0 where
  nothing : Dispatch V
  found : Text → Node → Dispatch V
  failed : ExecutionResult V → Dispatch V

module _ {V : Type 0} where
  abbrev pub failure : ExecutionMessage → Context V → ExecutionResult V
  failure m context = record {
    success = false;
    message = m;
    final_context = context;
    paused_at = none;
  }

  abbrev pub success : ExecutionMessage → Context V → Option Text → ExecutionResult V
  success m context paused = record {
    success = true;
    message = m;
    final_context = context;
    paused_at = paused;
  }

-- `check_end_termination`
unfoldable pub check_end_termination : Node → Text → Bool → Bool
check_end_termination n current executing_branches = elim n.type [
  | end_node ↦
      same n.termination_mode (codes "hard")
      && (not executing_branches && not (starts_with (codes "/__system__/") current))
  | _ ↦ false
]

unfoldable pub template_of : Option WaitFor → Option Text
template_of none = none
template_of (some (plain (single x))) = some x
template_of (some (plain (items xs))) = none
template_of (some (plain neither)) = none
template_of (some (WaitFor.object a b)) = none

unfoldable pub rendered_paths : Rendered → List Text
rendered_paths (Rendered.array xs) = xs
rendered_paths (string x) = x ∷ []
rendered_paths (raw x) = x ∷ []

-- All dependencies have been executed.
abbrev pub all_executed : List Text → List Text → Bool
all_executed [] executed = true
all_executed (d ∷ ds) executed = contains_path d executed && all_executed ds executed

abbrev pub present : {A : Type 0} → Option A → Bool
present none = false
present (some x) = true

abbrev pub joined : List (List Node) → List Node
joined [] = []
joined (g ∷ gs) = g ++ joined gs

abbrev pub emptied : List (List Node) → List (List Node)
emptied [] = []
emptied (g ∷ gs) = [] ∷ emptied gs

-- `get<std::string>`, which throws for another value, behind a prefix.
abbrev pub get_entry : (prefix : Text) → Option Json → Outcome (Option Text)
get_entry prefix none = value none
get_entry prefix (some (text t)) = value (some (prefix ++ t))
get_entry prefix (some _) = throws not_a_string

-- The entry point of the first graph that names one.
pub find_entry : List GraphEntry → Outcome (Option Text)
find_entry [] = value none
find_entry (g ∷ gs) =
    let rest = find_entry gs in
    if same g.path (codes "/__meta__") && present g.entry_point
    then get_entry [] g.entry_point
    else if same g.path (codes "/main") && present g.entry
    then get_entry (g.path ++ codes "/") g.entry
    else rest

-- The arrays and the object of the saved state.
unfoldable pub texts : List Text → Items
texts [] = no_items
texts (x ∷ xs) = item (text x) (texts xs)

unfoldable pub degree_members : Degrees → Members
degree_members [] = no_members
degree_members ((p, k) ∷ m) = member p (integer k) (degree_members m)

-- Items that are no strings are left out, and so are values that are no numbers; an integer is taken to fit
-- an `int`.
unfoldable pub strings_of : Items → List Text
strings_of no_items = []
strings_of (item (text x) xs) = x ∷ strings_of xs
strings_of (item _ xs) = strings_of xs

unfoldable pub degrees_of : (truncate : ℕ → ℤ) → Members → Degrees
degrees_of truncate no_members = []
degrees_of truncate (member p (integer k) ms) = (p, k) ∷ degrees_of truncate ms
degrees_of truncate (member p (double d) ms) = (p, truncate d) ∷ degrees_of truncate ms
degrees_of truncate (member p _ ms) = degrees_of truncate ms

-- A key that is missing, or whose value has another kind, leaves the queue, the map or the set empty.
abbrev pub strings_in : Option Json → List Text
strings_in (some (array xs)) = strings_of xs
strings_in _ = []

abbrev pub degrees_in : (truncate : ℕ → ℤ) → Option Json → Degrees
degrees_in truncate (some (object ms)) = degrees_of truncate ms
degrees_in truncate _ = []

module _ {S V : Type 0} where
  -- `process_jump`: the new queue, if the message asks for a jump.
  unfoldable pub process_jump : Text → TopoScheduler S V → Option (TopoScheduler S V)
  unfolding after_first
  process_jump message s =
      Option.map (λ target. record s { ready_queue = target ∷ [] })
        (after_first (codes "Jumping to:") message)

  -- `handle_node_completion`
  unfoldable pub handle_node_completion : Node → Text → TopoScheduler S V → TopoScheduler S V
  unfolding update_successors
  handle_node_completion n current s =
      let r = update_successors n current s.dag s.ready_queue in
      record s { dag = r.0; ready_queue = r.1 }

  unfoldable pub mark_executed : Text → TopoScheduler S V → TopoScheduler S V
  mark_executed p s = record s { executed = insert_path p s.executed }

  -- The front of the queue, which is taken off it.
  unfoldable pub pop_ready_node : Context V → TopoScheduler S V → Dispatch V × TopoScheduler S V
  pop_ready_node context s = elim s.ready_queue [
    | [] ↦ (nothing, s)
    | p ∷ rest ↦ (
      elim (lookup p s.node_map) [
        | none ↦ failed (failure (not_in_map p) context)
        | some n ↦ found p n
      ],
      record s { ready_queue = rest },
    )
  ]

  -- Clones of the nodes of the run and of the generated graphs are registered. The dependents, the queue
  -- and the executed nodes stay as they are; the graphs that were moved from stay in the list,
  -- without nodes.
  unfoldable pub reregistered : List (List Node) → TopoScheduler S V → TopoScheduler S V
  unfolding register_all
  reregistered graphs s = register_all (map clone (s.all_nodes ++ joined graphs)) (record s {
    all_nodes = [];
    node_map = [];
    dag = record s.dag { reverse_edges = []; in_degree = [] };
    dynamic_graphs = emptied graphs;
  })

  unfoldable pub rebuild_with :
      List (List Node) → TopoScheduler S V → Outcome (DagState × TopoScheduler S V)
  unfolding reregistered build_dag copy_dag_state_to
  rebuild_with graphs s = do
    rebuilt ← build_dag (reregistered graphs s)
    value (copy_dag_state_to rebuilt, rebuilt)

  unfoldable pub rebuild_dynamic_graph :
      DagState → TopoScheduler S V → Outcome (DagState × TopoScheduler S V)
  unfolding rebuild_with
  rebuild_dynamic_graph state s = elim s.dynamic_graphs [
    | [] ↦ value (state, s)
    | g ∷ gs ↦ rebuild_with (g ∷ gs) s
  ]

  abbrev pub queue_entry :
      Option Text → TopoScheduler S V → Option (ExecutionResult V) × TopoScheduler S V
  queue_entry none s = (none, s)
  queue_entry (some entry) s =
      if has entry s.node_map
      then (none, record s { ready_queue = entry ∷ [] })
      else (some (failure (entry_not_found entry) []), record s { ready_queue = [] })

  -- The entry point, if one is named, is queued before the graph is built.
  unfoldable pub prepare_dag_state :
      List GraphEntry → TopoScheduler S V → Outcome (Option (ExecutionResult V) × TopoScheduler S V)
  unfolding find_entry
  prepare_dag_state graphs s = do entry ← find_entry graphs; value (queue_entry entry s)

  -- Each path is a key of the map once, and so of the object.
  unfoldable pub serialize_dag_state : TopoScheduler S V → Json
  unfolding texts degree_members
  serialize_dag_state s = object (
      member (codes "ready_queue") (array (texts s.ready_queue)) (
        member (codes "in_degree") (object (degree_members s.dag.in_degree))
          (member (codes "executed") (array (texts s.executed)) no_members)))

  unfoldable pub restore_dag_state :
      (truncate : ℕ → ℤ) → Json → TopoScheduler S V → TopoScheduler S V
  unfolding strings_of degrees_of get_member
  restore_dag_state truncate (object ms) s = record s {
    ready_queue = strings_in (get_member (codes "ready_queue") ms);
    dag = record s.dag { in_degree = degrees_in truncate (get_member (codes "in_degree") ms) };
    executed = strings_in (get_member (codes "executed") ms);
  }
  restore_dag_state truncate _ s = s
