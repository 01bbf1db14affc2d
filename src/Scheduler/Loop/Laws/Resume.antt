-- ===== src/Scheduler/Loop/Laws/Resume.antt =====
-- A run that a YIELD node pauses goes on, when it is resumed, from where it stood.
use hydra_forge.Prelude.{ℕ, ◌≡◌, refl, ap, List, [], ◌∷◌, ◌++◌, some}
use hydra_forge.Prelude.Text.{Text, same}
use hydra_forge.Scheduler.State.{
  Context, Session, YieldState, TopoScheduler, running, copy_dag_state_to,
}
use hydra_forge.Scheduler.Queue.{
  restore_dag_state, serialize_dag_state, texts, degree_members, strings_of, degrees_of,
}
use hydra_forge.Prelude.Int.{ℤ}
use hydra_forge.Scheduler.Dag.{Degrees}
use hydra_forge.Json.{get_member}
use hydra_forge.Scheduler.Loop.{
  Round, again, leave, finish, raise, pause, overlay, run_main_loop, resume_yield,
}

strings_of-texts : (xs : List Text) → strings_of (texts xs) ≡ xs
unfolding strings_of texts
strings_of-texts [] = refl
strings_of-texts (x ∷ xs) = ap (λ t. x ∷ t) (strings_of-texts xs)

degrees_of-degree_members :
    (truncate : ℕ → ℤ) (m : Degrees) → degrees_of truncate (degree_members m) ≡ m
unfolding degrees_of degree_members
degrees_of-degree_members truncate [] = refl
degrees_of-degree_members truncate ((p, k) ∷ m) =
    ap (λ t. (p, k) ∷ t) (degrees_of-degree_members truncate m)

module _ {S V : Type 0} where
  -- What has been read back into any scheduler.
  restore_dag_state-serialize_dag_state :
      (truncate : ℕ → ℤ) (s t : TopoScheduler S V)
      → restore_dag_state truncate (serialize_dag_state s) t ≡ record t {
        ready_queue = s.ready_queue;
        dag = record t.dag { in_degree = s.dag.in_degree };
        executed = s.executed;
      }
  unfolding restore_dag_state serialize_dag_state get_member same
  restore_dag_state-serialize_dag_state truncate s t =
      rw
        (
          strings_of-texts s.ready_queue,
          degrees_of-degree_members truncate s.dag.in_degree,
          strings_of-texts s.executed,
        )
        refl

  -- The scheduler that an early end leaves behind.
  abbrev pub left_by : Round S V → TopoScheduler S V → TopoScheduler S V
  left_by (again d c t) s = t
  left_by (leave c t) s = t
  left_by (finish r t) s = t
  left_by (raise e) s = s

  abbrev pub saved_by : Text → TopoScheduler S V → YieldState
  saved_by current s = record {
    module_path = current;
    resume_context = serialize_dag_state (record s { ready_queue = s.ready_queue ++ current ∷ [] });
  }

module _ {S V : Type 0} (env : Session S V) where
  -- If the session gives back the pending yield that was put in it last, resuming after a pause runs
  -- the main loop from the graph, the degrees and the executed nodes of the pause, with the paused
  -- node at the end of the queue, no pending yield, and the update laid over the context.
  pub resume_yield-pause :
      ((y : YieldState) (x : S) → env.get_pending_yield (env.set_pending_yield y x) ≡ some y)
      → (fuel : ℕ) (current : Text) (pending : YieldState) (context update : Context V)
        (s : TopoScheduler S V)
      → let u : TopoScheduler S V = record s {
        ready_queue = s.ready_queue ++ current ∷ [];
        session = env.clear_pending_yield (env.set_pending_yield (saved_by current s) s.session);
        scheduler_state = running;
        yielded_context = [];
        yielded_node_path = [];
      } in
        resume_yield env fuel update (left_by (pause env current pending context s) s)
        ≡ run_main_loop env fuel (copy_dag_state_to u) (overlay env update context) u
  unfolding pause resume_yield
  resume_yield-pause law fuel current pending context update s =
      let queued : TopoScheduler S V = record s { ready_queue = s.ready_queue ++ current ∷ [] } in
      let paused = left_by (pause env current pending context s) s in
      let go_on : TopoScheduler S V → TopoScheduler S V = λ t. record t {
        session = env.clear_pending_yield (env.set_pending_yield (saved_by current s) s.session);
        scheduler_state = running;
        yielded_context = [];
        yielded_node_path = [];
      } in
      rw (law (saved_by current s) s.session, resume_yield)
        (ap
          (λ t.
            run_main_loop env fuel (copy_dag_state_to (go_on t)) (overlay env update context)
              (go_on t))
          (restore_dag_state-serialize_dag_state env.truncate queued paused))
