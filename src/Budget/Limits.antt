-- ===== src/Budget/Limits.antt =====
-- What the four `try_consume_…` methods promise together: the counters stay within their limits, so
-- `exceeded()` can only come from the clock.
use hydra_forge.Prelude.{
  ℕ, ◌+◌, ◌-◌, ◌/◌, ◌≤◌, ◌<◌, ◌≡◌, refl, ◌∙◌, true, false, List, [], ◌∷◌, arith,
}
use hydra_forge.Prelude.Int.{ℤ, pos, negsuc}
use hydra_forge.Budget.{
  ExecutionBudget, done, granted, refused, reached, passed, int_max, consume, consume_evolution,
  try_consume_node, try_consume_llm_call, try_consume_subgraph_depth,
  try_consume_evolution_llm_call, exceeded, moved, elapsed_sec, reset_evolution_cycle_counter,
}

-- A counter has not passed its limit.
abbrev pub Within : ℤ → ℕ → Type 0
Within (pos m) used = used ≤ m
Within (negsuc _) used = Unit

pub record IsWithin (b : ExecutionBudget) : Type 0 where
  pub nodes : Within b.max_nodes b.nodes_used
  pub llm_calls : Within b.max_llm_calls b.llm_calls_used
  pub depth : Within b.max_subgraph_depth b.subgraph_depth_used
  pub evolution : Within b.max_evolution_llm_calls b.evolution_llm_calls_used

-- A call that nobody interrupts always ends: refused at the limit with the counter unchanged, else
-- granted with the counter one up, as long as an `int` can hold the next count.
pub consume-by_limit :
    (limit : ℤ) (used : ℕ)
    → (reached limit used ≡ true → consume limit used ≡ (used, done refused))
      × (reached limit used ≡ false
          → used < int_max
          → consume limit used ≡ (used + 1, done granted))
unfolding consume
consume-by_limit limit used = (λ h. ground arith, λ h k. ground arith)

consume-Within : (limit : ℤ) (used : ℕ) → Within limit used → Within limit (consume limit used).0
unfolding consume
consume-Within (pos m) used w = ground arith
consume-Within (negsuc m) used w = tt

consume_evolution-Within :
    (limit : ℤ) (used : ℕ) → Within limit used → Within limit (consume_evolution limit used).0
unfolding consume_evolution
consume_evolution-Within (pos m) used w = consume-Within (pos m) used w
consume_evolution-Within (negsuc m) used w = tt

-- What a client can do to a budget between two moves of it.
pub data Use : Type 0 where
  node llm_call subgraph_depth evolution_llm_call evolution_reset : Use

pub apply : Use → ExecutionBudget → ExecutionBudget
apply node b = (try_consume_node b).0
apply llm_call b = (try_consume_llm_call b).0
apply subgraph_depth b = (try_consume_subgraph_depth b).0
apply evolution_llm_call b = (try_consume_evolution_llm_call b).0
apply evolution_reset b = reset_evolution_cycle_counter b

pub apply_all : List Use → ExecutionBudget → ExecutionBudget
apply_all [] b = b
apply_all (u ∷ us) b = apply_all us (apply u b)

Within-zero : (limit : ℤ) → Within limit 0
Within-zero (pos m) = omega arith
Within-zero (negsuc m) = tt

moved-IsWithin : (b : ExecutionBudget) (now : ℕ) → IsWithin (moved b now)
unfolding moved
moved-IsWithin b now = record {
  nodes = Within-zero b.max_nodes;
  llm_calls = Within-zero b.max_llm_calls;
  depth = Within-zero b.max_subgraph_depth;
  evolution = Within-zero b.max_evolution_llm_calls;
}

apply-IsWithin : (u : Use) (b : ExecutionBudget) → IsWithin b → IsWithin (apply u b)
unfolding apply try_consume_node try_consume_llm_call try_consume_subgraph_depth
    try_consume_evolution_llm_call reset_evolution_cycle_counter
apply-IsWithin node b v = record {
  nodes = consume-Within b.max_nodes b.nodes_used v.nodes;
  llm_calls = v.llm_calls;
  depth = v.depth;
  evolution = v.evolution;
}
apply-IsWithin llm_call b v = record {
  nodes = v.nodes;
  llm_calls = consume-Within b.max_llm_calls b.llm_calls_used v.llm_calls;
  depth = v.depth;
  evolution = v.evolution;
}
apply-IsWithin subgraph_depth b v = record {
  nodes = v.nodes;
  llm_calls = v.llm_calls;
  depth = consume-Within b.max_subgraph_depth b.subgraph_depth_used v.depth;
  evolution = v.evolution;
}
apply-IsWithin evolution_llm_call b v = record {
  nodes = v.nodes;
  llm_calls = v.llm_calls;
  depth = v.depth;
  evolution =
      consume_evolution-Within b.max_evolution_llm_calls b.evolution_llm_calls_used v.evolution;
}
apply-IsWithin evolution_reset b v = record {
  nodes = v.nodes;
  llm_calls = v.llm_calls;
  depth = v.depth;
  evolution = Within-zero b.max_evolution_llm_calls;
}

Within-passed : (limit : ℤ) (used : ℕ) → Within limit used → passed limit used ≡ false
unfolding passed
Within-passed (pos m) used w = ground arith
Within-passed (negsuc m) used w = refl

-- Within its limits a budget is exceeded exactly when its time is up.
IsWithin-exceeded :
    (b : ExecutionBudget) (now : ℕ)
    → IsWithin b
    → exceeded b now ≡ passed b.max_duration_sec (elapsed_sec b now)
unfolding exceeded
IsWithin-exceeded b now v = rw (
  Within-passed b.max_nodes b.nodes_used v.nodes,
  Within-passed b.max_llm_calls b.llm_calls_used v.llm_calls,
  Within-passed b.max_subgraph_depth b.subgraph_depth_used v.depth,
)

apply-time :
    (u : Use) (b : ExecutionBudget)
    → ((apply u b).max_duration_sec ≡ b.max_duration_sec) × ((apply u b).start_time ≡ b.start_time)
unfolding apply try_consume_node try_consume_llm_call try_consume_subgraph_depth
    try_consume_evolution_llm_call reset_evolution_cycle_counter
apply-time node b = (refl, refl)
apply-time llm_call b = (refl, refl)
apply-time subgraph_depth b = (refl, refl)
apply-time evolution_llm_call b = (refl, refl)
apply-time evolution_reset b = (refl, refl)

apply_all-exceeded :
    (us : List Use) (b : ExecutionBudget) (now : ℕ)
    → IsWithin b
    → exceeded (apply_all us b) now ≡ passed b.max_duration_sec (elapsed_sec b now)
unfolding apply_all elapsed_sec
apply_all-exceeded [] b now v = unfold elapsed_sec in IsWithin-exceeded b now v
apply_all-exceeded (u ∷ us) b now v =
    let t = apply-time u b in
    apply_all-exceeded us (apply u b) now (apply-IsWithin u b v) ∙ rw (t.0, t.1)

-- After any sequence of calls on a budget that has just been moved into a controller, `exceeded()`
-- says exactly whether the seconds since then are above the limit on them: no call of the
-- `try_consume_…` methods can make it true, since they stop at the limit and it asks for more.
pub moved-exceeded :
    (us : List Use) (b : ExecutionBudget) (start_time now : ℕ)
    → exceeded (apply_all us (moved b start_time)) now
      ≡ passed b.max_duration_sec ((now - start_time) / 1000000000)
unfolding elapsed_sec moved
moved-exceeded us b start_time now =
    apply_all-exceeded us (moved b start_time) now (moved-IsWithin b start_time)
