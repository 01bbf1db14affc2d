-- ===== src/Scheduler/Fork/Fuel.antt =====
-- The loop over a branch ends within the fuel that `execute_single_branch` gives it: a path enters
-- the queue only when its degree falls from one to zero, which happens once.
use hydra_forge.Prelude.{
  ℕ, zero, suc, ◌+◌, ◌≤◌, ◌<◌, ◌≡◌, ◌≢◌, Bool, true, false, List, [], ◌∷◌, ◌++◌, arith, length,
  length-append, if◌then◌else◌, Option-cases, inl, inr,
}
use hydra_forge.Prelude.Int.{ℤ, pos, negsuc, decrement, is_zero}
use hydra_forge.Prelude.Maps.{insert, has, at-insert, lookup}
use hydra_forge.Prelude.Text.{Text, text_eq, same_iff}
use hydra_forge.Scheduler.Node.{Node, throws, out_of_fuel, >>=-eq-throws}
use hydra_forge.Scheduler.Dag.{NodeMap, Degrees}
use hydra_forge.Scheduler.Dag.Edges.{degree}
use hydra_forge.Scheduler.State.{Context, Session, TopoScheduler, insert_path}
use hydra_forge.Scheduler.Fork.{
  release_branch, branch_loop, execute_single_branch, init_branch_state, find_branch_start_node,
  process_branch_end_node, after_run,
}

is_positive : ℤ → Bool
is_positive (pos zero) = false
is_positive (pos (suc n)) = true
is_positive (negsuc n) = false

-- The nodes whose degree is positive: those that can still enter the queue.
waiting : NodeMap → Degrees → ℕ
waiting [] degrees = 0
waiting ((p, n) ∷ m) degrees = (if is_positive (degree p degrees) then 1 else 0) + waiting m degrees

waiting-le : (m : NodeMap) (degrees : Degrees) → waiting m degrees ≤ length m
unfolding waiting
waiting-le [] degrees = omega arith
waiting-le ((p, n) ∷ m) degrees = ground (arith, waiting-le m degrees)

waiting-decrement :
    (m : NodeMap) (q : Text) (degrees : Degrees)
    → waiting m (insert q (decrement (degree q degrees)) degrees) ≤ waiting m degrees
unfolding waiting is_positive decrement
waiting-decrement [] q degrees = omega arith
waiting-decrement ((p, n) ∷ m) q degrees = ground (
  arith,
  at-insert (pos 0) q p (decrement (degree q degrees)) degrees,
  same_iff q p,
  waiting-decrement m q degrees,
)

waiting-last :
    (m : NodeMap) (q : Text) (degrees : Degrees)
    → has q m ≡ true
    → is_zero (decrement (degree q degrees)) ≡ true
    → waiting m (insert q (decrement (degree q degrees)) degrees) < waiting m degrees
unfolding waiting is_positive decrement has is_zero
waiting-last [] q degrees h z = cc
waiting-last ((p, n) ∷ m) q degrees h z = ground (
  arith,
  at-insert (pos 0) q p (decrement (degree q degrees)) degrees,
  same_iff q p,
  same_iff p q,
  waiting-decrement m q degrees,
  waiting-last m q degrees,
)

release_branch-bound :
    (m : NodeMap) (ps : List Text) (degrees : Degrees) (queue : List Text)
    → let (d, q) = release_branch m ps degrees queue in
      length q + waiting m d ≤ length queue + waiting m degrees
unfolding release_branch
release_branch-bound m [] degrees queue = omega arith
release_branch-bound m (p ∷ ps) degrees queue = ground (
  arith,
  release_branch-bound m ps (insert p (decrement (degree p degrees)) degrees) queue,
  release_branch-bound m ps (insert p (decrement (degree p degrees)) degrees) (queue ++ p ∷ []),
  release_branch-bound m ps degrees queue,
  length-append queue (p ∷ []),
  waiting-decrement m p degrees,
  waiting-last m p degrees,
)

end_node-fuel : (n : Node) → process_branch_end_node n ≢ throws out_of_fuel
unfolding process_branch_end_node
end_node-fuel n e = ground arith

start_node-fuel :
    (branch : Text) (m : NodeMap) → find_branch_start_node branch m ≢ throws out_of_fuel
unfolding find_branch_start_node
start_node-fuel branch [] e = cc
start_node-fuel branch ((p, n) ∷ m) e = ground (arith, start_node-fuel branch m)

init-fuel :
    (branch : Text) (m : NodeMap) (degrees : Degrees)
    → init_branch_state branch m degrees ≢ throws out_of_fuel
unfolding init_branch_state
init-fuel branch m degrees e = ground (arith, start_node-fuel branch m)

module _ {S V : Type 0} (env : Session S V) where
  branch_loop-fuel :
      (fuel : ℕ) (queue executed : List Text) (degrees : Degrees) (context : Context V)
      (last : Text) (s : TopoScheduler S V)
      → length queue + waiting s.node_map degrees < fuel
      → branch_loop env fuel queue executed degrees context last s ≢ throws out_of_fuel
  unfolding branch_loop after_run
  branch_loop-fuel zero queue executed degrees context last s h e = omega arith
  branch_loop-fuel (suc fuel) [] executed degrees context last s h e = cc
  branch_loop-fuel (suc fuel) (current ∷ queue) executed degrees context last s h e =
      elim (Option-cases (lookup current s.node_map)) [
        | inl l ↦ ground (arith, l, branch_loop-fuel fuel queue executed degrees context last s)
        | inr (n, l) ↦ ground (
          arith,
          l,
          end_node-fuel n,
          release_branch-bound s.node_map n.next degrees queue,
          branch_loop-fuel fuel queue executed degrees context last s,
          branch_loop-fuel fuel (release_branch s.node_map n.next degrees queue).1
              (insert_path current executed) (release_branch s.node_map n.next degrees queue).0
              (env.execute_node n context s.session).0.new_context current
              (after_run (env.execute_node n context s.session).0
                (env.execute_node n context s.session).1 s),
        )
      ]

  -- Running a branch never ends for want of fuel, whatever the nodes do: it returns a context and the
  -- last path, or throws one of the source's exceptions.
  pub execute_single_branch-fuel :
      (branch : Text) (context : Context V) (s : TopoScheduler S V)
      → execute_single_branch env branch context s ≢ throws out_of_fuel
  unfolding execute_single_branch init_branch_state
  execute_single_branch-fuel branch context s e =
      elim (>>=-eq-throws (init_branch_state branch s.node_map s.dag.in_degree) _ out_of_fuel e) [
        | inl f ↦ init-fuel branch s.node_map s.dag.in_degree f
        | inr (queue, q, f) ↦
            branch_loop-fuel (length queue + length s.node_map + 1) queue [] s.dag.in_degree context
              [] s (omega (arith, waiting-le s.node_map s.dag.in_degree)) f
      ]
