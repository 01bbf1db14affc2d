-- ===== src/Budget.antt =====
-- The execution budget: `ExecutionBudget` of src/core/types/budget.h. A counter is the number of
-- its increments since the last reset (at most `int_max`), a limit is a signed number with negative
-- for "unlimited", and times are nanoseconds of the steady clock.
pub mod Race
pub mod Limits
pub mod Controller
mod Tests
use hydra_forge.Prelude.{
  ℕ, ◌+◌, ◌-◌, ◌/◌, Bool, true, false, ◌&&◌, not, ltb, leb, ◌==◌, if◌then◌else◌,
}
use hydra_forge.Prelude.Int.{ℤ, pos, negsuc}

pub record ExecutionBudget : Type 0 where
  pub max_nodes : ℤ
  pub max_llm_calls : ℤ
  pub max_duration_sec : ℤ
  pub max_subgraph_depth : ℤ
  pub max_snapshots : ℤ
  pub snapshot_max_size_kb : ℕ
  pub max_evolution_llm_calls : ℤ
  pub nodes_used : ℕ
  pub llm_calls_used : ℕ
  pub subgraph_depth_used : ℕ
  pub evolution_llm_calls_used : ℕ
  pub start_time : ℕ

-- `max >= 0 && used >= max`
pub reached : ℤ → ℕ → Bool
reached (pos m) used = leb m used
reached (negsuc _) used = false

-- `max >= 0 && used > max`
pub passed : ℤ → ℕ → Bool
passed (pos m) used = ltb m used
passed (negsuc _) used = false

abbrev pub int_max : ℕ
int_max = 2147483647

-- `overflow`: `expected + 1` of an `int` that is at its maximum, which C++ leaves undefined.
pub data Outcome : Type 0 where
  granted refused overflow : Outcome

-- Where a call of a `try_consume_…` method stands; `trying e` holds the variable `expected`.
pub data Phase : Type 0 where
  start : Phase
  trying : ℕ → Phase
  done : Outcome → Phase

-- The load of the counter and the test of what it read.
pub check : ℤ → ℕ → Phase
check limit used = if reached limit used then done refused else trying used

-- One `compare_exchange_weak(expected, expected + 1)`. It may fail spuriously; a failure reads the
-- counter again and runs the loop's body.
pub exchange : ℤ → Bool → ℕ → ℕ → ℕ × Phase
exchange limit spurious used expected =
    if expected == int_max
    then (used, done overflow)
    else if used == expected && not spurious
    then (used + 1, done granted)
    else (used, check limit used)

-- One atomic step of a call.
pub step : ℤ → Bool → ℕ × Phase → ℕ × Phase
step limit spurious (used, start) = (used, check limit used)
step limit spurious (used, trying e) = exchange limit spurious used e
step limit spurious (used, done o) = (used, done o)

-- A call that no other thread interrupts: the load, and one exchange that does not fail.
pub consume : ℤ → ℕ → ℕ × Phase
unfolding step exchange check reached
consume limit used = step limit false (step limit false (used, start))

pub try_consume_node : ExecutionBudget → ExecutionBudget × Phase
try_consume_node b =
    let r = consume b.max_nodes b.nodes_used in (record b { nodes_used = r.0 }, r.1)

pub try_consume_llm_call : ExecutionBudget → ExecutionBudget × Phase
try_consume_llm_call b =
    let r = consume b.max_llm_calls b.llm_calls_used in (record b { llm_calls_used = r.0 }, r.1)

pub try_consume_subgraph_depth : ExecutionBudget → ExecutionBudget × Phase
try_consume_subgraph_depth b =
    let r = consume b.max_subgraph_depth b.subgraph_depth_used in
    (record b { subgraph_depth_used = r.0 }, r.1)

-- An unlimited cycle budget is granted with no count.
consume_evolution : ℤ → ℕ → ℕ × Phase
consume_evolution (negsuc _) used = (used, done granted)
consume_evolution (pos m) used = consume (pos m) used

pub try_consume_evolution_llm_call : ExecutionBudget → ExecutionBudget × Phase
unfolding consume_evolution
try_consume_evolution_llm_call b =
    let r = consume_evolution b.max_evolution_llm_calls b.evolution_llm_calls_used in
    (record b { evolution_llm_calls_used = r.0 }, r.1)

-- `max < 0` is not exceeded, else `used >= max`.
pub evolution_budget_exceeded : ExecutionBudget → Bool
unfolding reached
evolution_budget_exceeded b = reached b.max_evolution_llm_calls b.evolution_llm_calls_used

pub reset_evolution_cycle_counter : ExecutionBudget → ExecutionBudget
reset_evolution_cycle_counter b = record b { evolution_llm_calls_used = 0 }

-- Whole seconds between the start and `now`.
pub elapsed_sec : ExecutionBudget → ℕ → ℕ
elapsed_sec b now = (now - b.start_time) / 1000000000

-- `exceeded()`, called at the time `now`.
pub exceeded : ExecutionBudget → ℕ → Bool
unfolding passed elapsed_sec
exceeded b now =
    if passed b.max_nodes b.nodes_used
    then true
    else if passed b.max_llm_calls b.llm_calls_used
    then true
    else if passed b.max_subgraph_depth b.subgraph_depth_used
    then true
    else passed b.max_duration_sec (elapsed_sec b now)

-- The move constructor and the move assignment: the limits move, the counters start again.
pub moved : ExecutionBudget → ℕ → ExecutionBudget
moved b now = record b {
  nodes_used = 0;
  llm_calls_used = 0;
  subgraph_depth_used = 0;
  evolution_llm_calls_used = 0;
  start_time = now;
}
