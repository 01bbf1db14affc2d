-- ===== src/Scheduler/Fork/Laws.antt =====
-- What a join finds when the branches of its fork have run, and a join without a fork.
use hydra_forge.Prelude.{
  ℕ, zero, suc, ◌+◌, ◌≡◌, ap, true, List, [], ◌∷◌, ◌++◌, none, arith, length, ◌==◌, ==_iff,
  length-append, Option-cases, inl, inr,
}
use hydra_forge.Prelude.Maps.{lookup}
use hydra_forge.Prelude.Text.{Text, text_eq}
use hydra_forge.Scheduler.Node.{
  Node, join_class, value, throws, ◌>>=◌, >>=-eq-value, bad_optional_access,
}
use hydra_forge.Scheduler.Dag.{Degrees}
use hydra_forge.Scheduler.State.{Context, Session, TopoScheduler, insert_path}
use hydra_forge.Scheduler.Fork.{
  execute_single_branch, finish_branch, run_branches, start_fork_simulation, finish_join_simulation,
  start_join_simulation, process_fork_join, merge_all, branch_loop, after_run, release_branch,
  init_branch_state,
}

module _ {S V : Type 0} (env : Session S V) where
  -- A JOIN node with no fork in progress: whatever its dependencies and its strategy, the run ends in
  -- `bad_optional_access`, thrown by the log line of `finish_fork_simulation`.
  pub join-without_fork :
      (n : Node) (wait_for : List Text) (strategy : Text) (context : Context V)
      (s : TopoScheduler S V)
      → n.class ≡ join_class wait_for strategy
      → s.fork_node_path ≡ none
      → s.fork_branches ≡ []
      → s.fork_results ≡ []
      → process_fork_join env n context s ≡ throws bad_optional_access
  unfolding process_fork_join
  join-without_fork n wait_for strategy context s c p b r = ground arith

  branch_loop-keeps :
      (fuel : ℕ) (queue executed : List Text) (degrees : Degrees) (context : Context V)
      (last : Text) (s t : TopoScheduler S V) (x : Context V × Text)
      → branch_loop env fuel queue executed degrees context last s ≡ value (x, t)
      → (t.fork_results ≡ s.fork_results)
        × (t.fork_index ≡ s.fork_index)
        × (t.fork_branches ≡ s.fork_branches)
  unfolding branch_loop after_run
  branch_loop-keeps zero queue executed degrees context last s t x e = cc
  branch_loop-keeps (suc fuel) [] executed degrees context last s t x e = ground arith
  branch_loop-keeps (suc fuel) (current ∷ queue) executed degrees context last s t x e =
      elim (Option-cases (lookup current s.node_map)) [
        | inl l ↦
            ground (arith, l, branch_loop-keeps fuel queue executed degrees context last s t x)
        | inr (n, l) ↦ ground (
          arith,
          l,
          branch_loop-keeps fuel queue executed degrees context last s t x,
          branch_loop-keeps fuel (release_branch s.node_map n.next degrees queue).1
              (insert_path current executed) (release_branch s.node_map n.next degrees queue).0
              (env.execute_node n context s.session).0.new_context current
              (after_run (env.execute_node n context s.session).0
                (env.execute_node n context s.session).1 s)
              t x,
        )
      ]

  single-keeps :
      (branch : Text) (context : Context V) (s t : TopoScheduler S V) (x : Context V × Text)
      → execute_single_branch env branch context s ≡ value (x, t)
      → (t.fork_results ≡ s.fork_results)
        × (t.fork_index ≡ s.fork_index)
        × (t.fork_branches ≡ s.fork_branches)
  unfolding execute_single_branch
  single-keeps branch context s t x e =
      let (queue, q, rest) =
        >>=-eq-value (init_branch_state branch s.node_map s.dag.in_degree) _ e in
      branch_loop-keeps _ queue [] s.dag.in_degree context [] s t x rest

  finish-results :
      (last : Text) (context : Context V) (s : TopoScheduler S V)
      → let t = finish_branch env last context s in
        (t.fork_results ≡ s.fork_results ++ context ∷ [])
        × (t.fork_index ≡ s.fork_index + 1)
        × (t.fork_branches ≡ s.fork_branches)
  unfolding finish_branch
  finish-results last context s = ground arith

  run_branches-results :
      (branches : List Text) (snapshot : Context V) (s t : TopoScheduler S V)
      → run_branches env branches snapshot s ≡ value t
      → (length t.fork_results ≡ length s.fork_results + length branches)
        × (t.fork_index ≡ s.fork_index + length branches)
        × (t.fork_branches ≡ s.fork_branches)
  unfolding run_branches
  run_branches-results [] snapshot s t e = ground arith
  run_branches-results (b ∷ bs) snapshot s t e =
      let (((context, last), u), eu, rest) =
        >>=-eq-value (execute_single_branch env b snapshot s) _ e in
      let k = single-keeps b snapshot s u (context, last) eu in
      let (h, i, j) = run_branches-results bs snapshot (finish_branch env last context u) t rest in
      let f = finish-results last context u in
      ground (
        arith,
        k.0,
        k.1,
        k.2,
        f.0,
        f.1,
        f.2,
        h,
        i,
        j,
        ap (length {A = Context V}) f.0,
        ap (length {A = Context V}) k.0,
        length-append u.fork_results (context ∷ []),
      )

  -- When the branches of a fork that has just started have all run, there is a result for each
  -- branch, so a join that follows never reports missing results: it throws only if a merge or the
  -- fork's clean-up does.
  pub fork-results_complete :
      (path : Text) (branches : List Text) (context main snapshot : Context V)
      (s t : TopoScheduler S V) (join_path : Text) (wait_for : List Text) (strategy : Text)
      → run_branches env branches snapshot (start_fork_simulation env path branches context s)
        ≡ value t
      → (length t.fork_results ≡ length branches)
        × (t.fork_branches ≡ branches)
        × (finish_join_simulation env main (start_join_simulation env join_path wait_for strategy t)
            ≡ (merge_all env strategy t.fork_results main >>= λ merged. value (
              merged,
              record (start_join_simulation env join_path wait_for strategy t) {
                join_node_path = none;
                fork_results = [];
                join_wait_for = [];
              },
            )))
  unfolding start_fork_simulation finish_join_simulation start_join_simulation
  fork-results_complete path branches context main snapshot s t join_path wait_for strategy e =
      let (h, i, j) = run_branches-results branches snapshot _ t e in
      let counted : length t.fork_results ≡ length branches = omega arith in
      let agree : (length t.fork_results == length t.fork_branches) ≡ true =
        (==_iff _ _).1 (rw j counted) in
      (counted, j, rw (agree, finish_join_simulation))
