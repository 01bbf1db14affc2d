-- ===== src/Scheduler/State.antt =====
-- The members of `TopoScheduler`, and what it asks of its `ExecutionSession`, of the context engine
-- and of the template renderer. `V` is the type of context values, `S` the state of the session.
use hydra_forge.Prelude.{ℕ, Bool, false, ◌||◌, List, [], ◌∷◌, ◌++◌, Option, if◌then◌else◌, map}
use hydra_forge.Prelude.Int.{ℤ}
use hydra_forge.Prelude.Maps.{insert}
use hydra_forge.Json.{Json}
use hydra_forge.Prelude.Text.{Text, text_eq, same}
use hydra_forge.Scheduler.Node.{
  Node, NodeType, resource, Class, resource_class, clone, Outcome, value, ◌>>=◌,
}
use hydra_forge.Scheduler.Dag.{NodeMap, Dag, parse_node_wait_for_deps, seed_ready}

abbrev pub Context : Type 0 → Type 0
Context V = List (Text × V)

-- `YieldState`
pub record YieldState : Type 0 where
  pub module_path : Text
  pub resume_context : Json

-- `ExecutionSession::ExecutionResult`, with the graphs that the call has handed to the callback
-- `append_dynamic_graphs`.
pub record NodeRun (V : Type 0) : Type 0 where
  pub success : Bool
  pub message : Text
  pub new_context : Context V
  pub paused_at : Option Text
  pub new_graphs : List (List Node)

-- A rendered dependency, parsed as JSON: an array with the strings among its items, one string, or
-- another value, for which the rendered text itself is the path.
pub data Rendered : Type 0 where
  array : List Text → Rendered
  string : Text → Rendered
  raw : Text → Rendered

pub record Session (S V : Type 0) : Type 0 where
  pub execute_node : Node → Context V → S → NodeRun V × S
  pub get_pending_yield : S → Option YieldState
  pub set_pending_yield : YieldState → S → S
  pub clear_pending_yield : S → S
  pub has_pending_deps : S → Bool
  pub check_and_requeue : List Text → S → S
  pub is_budget_exceeded : S → Bool
  pub save_snapshot : Text → Context V → S → S
  pub get_snapshot : Text → S → Option (Context V)
  -- `ContextEngine::merge` under a strategy; it throws on a conflict.
  pub merge : Text → Context V → Context V → Outcome (Context V)
  -- `get<int>` of a double, by its bits.
  pub truncate : ℕ → ℤ
  -- `none`: the renderer or the parser threw.
  pub render : Text → Context V → Option Rendered

pub data SchedulerState : Type 0 where
  running yielded : SchedulerState

pub record Resource : Type 0 where
  pub path : Text
  pub uri : Text
  pub scope : Text

pub record TopoScheduler (S V : Type 0) : Type 0 where
  pub all_nodes : List Node
  pub node_map : NodeMap
  pub dag : Dag
  pub ready_queue : List Text
  pub executed : List Text
  pub dynamic_graphs : List (List Node)
  pub resources : List (Text × Resource)
  pub scheduler_state : SchedulerState
  pub yielded_context : Context V
  pub yielded_node_path : Text
  pub fork_node_path : Option Text
  pub fork_branches : List Text
  pub fork_results : List (Context V)
  pub fork_index : ℕ
  pub is_executing_fork_branches : Bool
  pub join_merge_strategy : Text
  pub join_wait_for : List Text
  pub join_node_path : Option Text
  pub session : S

-- `DagState`, a copy that the loop reads the queue of.
pub record DagState : Type 0 where
  pub nodes : NodeMap
  pub dag : Dag
  pub ready_queue : List Text
  pub executed : List Text
  pub dynamic_graphs : List (List Node)

pub data ExecutionMessage : Type 0 where
  completed budget_exceeded unmet_dynamic paused_at_llm : ExecutionMessage
  unexecuted : List Text → ExecutionMessage
  entry_not_found not_in_map yielded_at unresolved : Text → ExecutionMessage
  node_failed : Text → ExecutionMessage
  not_yielded no_pending_yield : ExecutionMessage

-- `ExecutionResult`
pub record ExecutionResult (V : Type 0) : Type 0 where
  pub success : Bool
  pub message : ExecutionMessage
  pub final_context : Context V
  pub paused_at : Option Text

-- `executed_.count(p) > 0` and `executed_.insert(p)`
abbrev pub contains_path : Text → List Text → Bool
contains_path p [] = false
contains_path p (q ∷ qs) = same q p || contains_path p qs

abbrev pub insert_path : Text → List Text → List Text
insert_path p qs = if contains_path p qs then qs else qs ++ p ∷ []

module _ {S V : Type 0} where
  pub register_node : Node → TopoScheduler S V → TopoScheduler S V
  register_node n s = record s {
    node_map = insert n.path n s.node_map;
    all_nodes = s.all_nodes ++ n ∷ [];
  }

  unfoldable pub register_all : List Node → TopoScheduler S V → TopoScheduler S V
  unfolding register_node
  register_all [] s = s
  register_all (n ∷ ns) s = register_all ns (register_node n s)

  -- `load_graphs`, with `parse_single_node_spec`: a clone of each node is registered.
  pub load_graphs : List Node → TopoScheduler S V → TopoScheduler S V
  unfolding register_all
  load_graphs ns = register_all (map clone ns)

registered : Node → NodeType → Class → List (Text × Resource) → List (Text × Resource)
registered n resource (resource_class uri scope) rs =
    insert n.path (record { path = n.path; uri = uri; scope = scope }) rs
registered n _ _ rs = rs

-- `ResourceManager::register_resource` for each node of type RESOURCE.
pub register_resources : List Node → List (Text × Resource) → List (Text × Resource)
register_resources [] rs = rs
register_resources (n ∷ ns) rs = register_resources ns (registered n n.type n.class rs)

module _ {S V : Type 0} where
  unfoldable pub build_dag : TopoScheduler S V → Outcome (TopoScheduler S V)
  unfolding parse_node_wait_for_deps seed_ready register_resources registered
  build_dag s = do
    d ← parse_node_wait_for_deps s.all_nodes s.node_map s.dag
    value (record s {
      resources = register_resources s.all_nodes s.resources;
      dag = d;
      ready_queue = seed_ready s.all_nodes d.in_degree s.ready_queue;
    })

  unfoldable pub copy_dag_state_to : TopoScheduler S V → DagState
  copy_dag_state_to s = record {
    nodes = s.node_map;
    dag = s.dag;
    ready_queue = s.ready_queue;
    executed = [];
    dynamic_graphs = [];
  }
