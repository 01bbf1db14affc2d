-- ===== src/Hooks/Agents/Laws.antt =====
-- What the hooks around an agent's step can return.
use Prim.{tt}
use hydra_forge.Prelude.{◌≡◌, subst, refl, ap, ◌⊎◌, inl, Bool, List, [], ◌∷◌, map, arith}
use hydra_forge.Prelude.Text.{Text, text_eq}
use hydra_forge.Hooks.{
  HookErrorPolicy, Thrown, unknown, Attempt, returned, threw, Progress, Step, goes_on, stops,
  then_run, run_hooks,
}
use hydra_forge.Hooks.Agents.{
  AgentPreHookResult, reject, AgentEntry, AgentPreHook, AgentPostHook, AgentHookRegistry,
  continue_result, Output, close_agent_pre, close_agent_post, run_agent_pre_hook, settle_agent_pre,
  recover_agent_pre, run_agent_post_hook, run_agent_pre_hooks, run_agent_post_hooks,
  apply_agent_pre_hooks, matching, goes_first,
}

-- The unmodified result `Continue`, a denial, or an exception that is no `std::exception`.
abbrev pub IsFinal : Attempt AgentPreHookResult → Type 0
IsFinal (returned a) = (a ≡ continue_result) ⊎ (a.action ≡ reject)
IsFinal (threw x) = x ≡ unknown

module _ {G W : Type 0} (agent : G) where
  abbrev StopsFinally : Step Text (Attempt AgentPreHookResult) W → Type 0
  StopsFinally (goes_on p) = Unit
  StopsFinally (stops d ws w) = IsFinal d

  run_agent_pre_hook-StopsFinally :
      (e : AgentEntry (AgentPreHook G W)) (p : Progress Text W)
      → StopsFinally (run_agent_pre_hook agent e p)
  run_agent_pre_hook-StopsFinally e p = ground arith

  then_run-StopsFinally :
      (f : Progress Text W → Step Text (Attempt AgentPreHookResult) W)
      → ((q : Progress Text W) → StopsFinally (f q))
      → (s : Step Text (Attempt AgentPreHookResult) W) → StopsFinally s
      → StopsFinally (then_run f s)
  then_run-StopsFinally f ok (goes_on q) h = ok q
  then_run-StopsFinally f ok (stops d ws w) h = h

  run_hooks-StopsFinally :
      (es : List (AgentEntry (AgentPreHook G W))) (p : Progress Text W)
      → StopsFinally (run_hooks (run_agent_pre_hook agent) es p)
  unfolding run_hooks
  run_hooks-StopsFinally [] p = tt
  run_hooks-StopsFinally (e ∷ es) p =
      then_run-StopsFinally (run_hooks (run_agent_pre_hook agent) es) (run_hooks-StopsFinally es)
        (run_agent_pre_hook agent e p) (run_agent_pre_hook-StopsFinally e p)

  close-IsFinal :
      (s : Step Text (Attempt AgentPreHookResult) W)
      → StopsFinally s
      → IsFinal (close_agent_pre agent s).0
  close-IsFinal (goes_on p) h = inl refl
  close-IsFinal (stops d ws w) h = h

module _ {G W : Type 0} (name : G → Text)
    (sort : (H : Type 0)
      → (AgentEntry H → AgentEntry H → Bool)
      → List (AgentEntry H)
      → List (AgentEntry H))
    (agent : G) (r : AgentHookRegistry G W) where
  abbrev pub sorted_hooks : List (AgentEntry (AgentPreHook G W))
  sorted_hooks = sort (AgentPreHook G W) goes_first (matching (name agent) r.pre_hooks)

  abbrev settled :
      AgentEntry (AgentPreHook G W)
      → Progress Text W
      → Attempt AgentPreHookResult × W
      → Step Text (Attempt AgentPreHookResult) W
  settled e p r =
      let v : Progress Text W = record p { outside = r.1 } in
      elim r.0 [
        | returned a ↦ settle_agent_pre agent a v
        | threw x ↦ recover_agent_pre agent e.policy x v
      ]

  -- Whatever the hooks do, the caller of `apply_pre_hooks` gets the result `Continue` with an empty context, or
  -- a denial, or an exception that is no `std::exception`.
  pub apply_agent_pre_hooks-IsFinal :
      (p : Progress Text W) → IsFinal (apply_agent_pre_hooks name sort agent r p).0
  unfolding apply_agent_pre_hooks run_agent_pre_hooks
  apply_agent_pre_hooks-IsFinal p =
      close-IsFinal agent (run_hooks (run_agent_pre_hook agent) sorted_hooks p)
        (run_hooks-StopsFinally agent sorted_hooks p)

-- The same steps, whatever the warnings.
module _ {W : Type 0} where
  abbrev Alike : Step Output Thrown W → Step Output Thrown W → Type 0
  Alike (goes_on p) (goes_on q) = (p.current ≡ q.current) × (p.outside ≡ q.outside)
  Alike (stops x ws w) (stops y vs v) = (x ≡ y) × (w ≡ v)
  Alike (goes_on p) (stops y vs v) = ⊥
  Alike (stops x ws w) (goes_on q) = ⊥

  abbrev pub progress : Output → List Text → W → Progress Output W
  progress c ws w = record { current = c; warnings = ws; outside = w }

  then_run-Alike :
      (f g : Progress Output W → Step Output Thrown W)
      → ((c : Output) (ws vs : List Text) (w : W)
          → Alike (f (progress c ws w)) (g (progress c vs w)))
      → (s t : Step Output Thrown W) → Alike s t
      → Alike (then_run f s) (then_run g t)
  then_run-Alike f g ok (goes_on p) (goes_on q) h =
      subst (λ c. Alike (f p) (g (progress c q.warnings q.outside))) h.0
        (subst (λ w. Alike (f p) (g (progress p.current q.warnings w))) h.1
          (ok p.current p.warnings q.warnings p.outside))
  then_run-Alike f g ok (goes_on p) (stops y vs v) h = elim h [ ]
  then_run-Alike f g ok (stops x ws w) (goes_on q) h = elim h [ ]
  then_run-Alike f g ok (stops x ws w) (stops y vs v) h = h

module _ {G W : Type 0} (policy : HookErrorPolicy) (agent : G) where
  abbrev pub under : AgentEntry (AgentPostHook G W) → AgentEntry (AgentPostHook G W)
  under e = record e { policy = policy }

  run_agent_post_hook-Alike :
      (e : AgentEntry (AgentPostHook G W)) (c : Output) (ws vs : List Text) (w : W)
      → Alike
          (run_agent_post_hook agent (under e) (progress c ws w))
          (run_agent_post_hook agent e (progress c vs w))
  run_agent_post_hook-Alike e c ws vs w = ground arith

  run_hooks-Alike :
      (es : List (AgentEntry (AgentPostHook G W))) (c : Output) (ws vs : List Text) (w : W)
      → Alike
          (run_hooks (run_agent_post_hook agent) (map under es) (progress c ws w))
          (run_hooks (run_agent_post_hook agent) es (progress c vs w))
  unfolding run_hooks
  run_hooks-Alike [] c ws vs w = (refl, refl)
  run_hooks-Alike (e ∷ es) c ws vs w =
      then_run-Alike _ _ (run_hooks-Alike es) _ _ (run_agent_post_hook-Alike e c ws vs w)

  close-Alike :
      (s t : Step Output Thrown W)
      → Alike s t
      → ((close_agent_post agent s).0 ≡ (close_agent_post agent t).0)
        × ((close_agent_post agent s).2 ≡ (close_agent_post agent t).2)
  close-Alike (goes_on p) (goes_on q) h = (rw h.0 refl, h.1)
  close-Alike (stops x ws w) (stops y vs v) h = (ap threw h.0, h.1)
  close-Alike (goes_on p) (stops y vs v) h = elim h [ ]
  close-Alike (stops x ws w) (goes_on q) h = elim h [ ]

  -- The error policy of hooks after the step changes nothing but the text of the warnings: under any
  -- policy for all of them the result and the outside state are the same.
  pub run_agent_post_hooks-policy :
      (es : List (AgentEntry (AgentPostHook G W))) (output : Output) (warnings : List Text) (w : W)
      → let changed = run_agent_post_hooks agent (map under es) (progress output warnings w) in
        let as_registered = run_agent_post_hooks agent es (progress output warnings w) in
        (changed.0 ≡ as_registered.0) × (changed.2 ≡ as_registered.2)
  unfolding run_agent_post_hooks
  run_agent_post_hooks-policy es output warnings w =
      close-Alike _ _ (run_hooks-Alike es output warnings warnings w)
