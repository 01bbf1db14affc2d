-- ===== src/Lib.antt =====
-- HydraForge: the parts of the runtime that decide whether and in which order work is done.
--
-- The engine registers the nodes of a workflow with the scheduler, which runs them in the order of
-- their dependencies and asks the budget before it goes on. Agents and tools talk over the event bus,
-- whose events carry a causal time. Hooks stand before and after each tool call, layers say who may call
-- what, and the coordinator of tools puts these, the check of the arguments and the approval before each
-- call of the registry. The context engine merges the contexts of branches. The mutation governor and
-- the transition guard decide about changes that agents make to themselves. The timer service says which
-- callbacks are due, and the session registry holds the users' sessions.
--
-- Files and code (paths from the repository's root):
-- File Prelude: the shared names; tests, lists, keyed maps, byte texts, signed numbers.
-- File Budget (src/core/types/budget.h): ExecutionBudget; Race: threads that consume at once; Limits:
--   calls one after another; Controller (src/modules/budget/budget_controller.cpp).
-- File Bus (src/common/contract/inmemory_bus.cpp): InMemoryBus; Glob: glob_match; Event: BusEvent,
--   CausalClock and causal_order (include/agenticdsl/contract); Laws: deliveries and times.
-- File Scheduler (src/modules/scheduler/topo_scheduler.cpp): Node: what it reads of nodes and JSON; Dag:
--   parse_node_wait_for_deps and update_successors; State: the members, load_graphs and build_dag; Fork:
--   branches and joins; Queue: dispatch and dynamic graphs; Loop: run_main_loop, pause and resume_yield.
-- File Governance (src/common/governance/mutation_governor.cpp): propose, commit and revert.
-- File Hooks (src/common/tools/tool_hook_registry.cpp): tool hooks; Agents
--   (src/core/agent_hook_registry.cpp): hooks around an agent's step.
-- File Policy (src/common/policy/layer_profile.cpp, include/agenticdsl/evolution/transition_guard.h).
-- File Sessions (src/core/types/session_registry.cpp).
-- File Json: what the program takes apart of the values of the JSON library.
-- File Context (src/modules/context/context_engine.cpp): merge; Snapshots: save_snapshot and its limits.
-- File Tools (src/common/policy/execution_policy.h): what a call carries; Results
--   (src/core/types/tool_result.cpp); Approval (src/common/policy): the three modes and ApprovalHandler; Guards
--   (path_policy.cpp, dangerous_patterns.cpp); Schema (src/common/tools/tool_schema_validator.cpp); Validation
--   and Coordinator (tool_coordinator.cpp): ToolCoordinator::execute; Registry (registry.cpp)
--   and its child Secure (secure_tool_registry.cpp).
-- File Llm (src/common/llm): TrackingStream and ComplianceStream (cost_tracking_decorator.cpp,
--   compliance_decorator.cpp); RateLimit (rate_limit_decorator.cpp): the token bucket.
-- File Timers (src/common/utils/timer_service.cpp): TimerService.
-- A function of the code is the function of the same name, or of several where it has several steps. An
-- exception is a value: a member of Outcome in the scheduler, a reply elsewhere.
--
-- Concurrency: a function that holds a mutex is one step. Where the code uses atomics or releases its
-- lock, the steps of threads interleave: a schedule of turns (Budget/Race; Bus/Laws/Delivery, where callbacks
-- act on the bus while the dispatch thread calls them), and what others do to the table between the checks
-- (Sessions).
--
-- Bounds: a token bucket counts parts of a token, and taking and giving back tokens is exact where doubles
-- may round; the sums of tokens of a generation are taken not to overflow. Counters of the budget stop at int_max, tokens and times wrap at
-- 2^32 and 2^64. Fuel: the matcher of globs and the loop of a branch have the fuel that their theorems show to be enough. The main
-- loop runs on the fuel of its caller, because generated graphs may let it run for ever; a run that uses it
-- up throws, and no theorem concludes from that.
--
-- Parameters: the execution session, the context engine and the template renderer of the scheduler (the
-- record Session), the callbacks of the bus, the hooks, the evaluator, the approval handler and the
-- regression gate are code that the modelled parts only call. So are the tools of the registry, the registry
-- of the coordinator, the callback of an approval, the file system, regular expressions, and of the JSON
-- library printing, comparison and the conversion of texts to numbers and of doubles to integers; the order
-- in which the bus meets its table of patterns, and the arithmetic that refills a token bucket.
--
-- Not modelled: logging, the details of a refused call beside its stage, LLM tools, the parallel executor
-- (the Taskflow library), LLM clients, how their decorators treat whole generations for costs and
-- compliance, the parser, the engine's wiring, plug-ins, the file system.
-- Unordered maps and the members of JSON objects are lists of their keys.
pub mod Prelude
pub mod Budget
pub mod Bus
pub mod Scheduler
pub mod Governance
pub mod Hooks
pub mod Policy
pub mod Sessions
pub mod Json
pub mod Context
pub mod Tools
pub mod Timers
pub mod Llm
