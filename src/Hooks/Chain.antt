-- ===== src/Hooks/Chain.antt =====
-- What the loops of `apply_pre_hooks` and `apply_post_hooks` return.
use Prim.{tt}
use hydra_forge.Prelude.{
  ◌≡◌, ◌≢◌, inl, inr, subst, ◌⊎◌, refl, sym, ap, ◌∙◌, ◌↔◌, List, [], ◌∷◌, ◌++◌, arith,
}
use hydra_forge.Prelude.Text.{Text, codes}
use hydra_forge.Hooks.{
  Action, continue, deny, modify_args, HookErrorPolicy, fail_open, fail_closed, Thrown, Attempt,
  returned, threw, hook_name, skipped, PreHookResult, HookEntry, PreHook, ToolHookRegistry,
  Progress, Step, goes_on, stops, settle_pre, recover_pre, run_pre_hook, then_run, run_hooks, allow,
  matched_hooks, apply_pre_hooks,
}

module _ {E A D W : Type 0} (run : E → Progress A W → Step A D W) where
  then_run-append :
      (f g h : Progress A W → Step A D W)
      → ((p : Progress A W) → f p ≡ then_run h (g p))
      → (s : Step A D W) → then_run f s ≡ then_run h (then_run g s)
  then_run-append f g h e (goes_on p) = e p
  then_run-append f g h e (stops d ws w) = refl

  pub run_hooks-append :
      (xs ys : List E) (p : Progress A W)
      → run_hooks run (xs ++ ys) p ≡ then_run (run_hooks run ys) (run_hooks run xs p)
  unfolding run_hooks
  run_hooks-append [] ys p = refl
  run_hooks-append (x ∷ xs) ys p =
      then_run-append (run_hooks run (xs ++ ys)) (run_hooks run xs) (run_hooks run ys)
        (run_hooks-append xs ys) (run x p)

  -- The hook `e` stops the loop, after the hooks `xs`, which did not.
  run_hooks-stops :
      (xs ys : List E) (e : E) (p q : Progress A W) (d : D) (ws : List Text) (w : W)
      → run_hooks run xs p ≡ goes_on q
      → run e q ≡ stops d ws w
      → run_hooks run (xs ++ e ∷ ys) p ≡ stops d ws w
  unfolding run_hooks
  run_hooks-stops xs ys e p q d ws w h k = rw (run_hooks-append xs (e ∷ ys) p, h, k) refl

module _ {M X A R W : Type 0} (name : M → Text) (meta : M) (ctx : X)
    (r : ToolHookRegistry M X A R W) where
  -- A hook that denies, or that throws under the policy `fail_closed`, decides the result: the hooks
  -- after it do not run and cannot override it, and warnings and outside state stay as it left them.
  pub apply_pre_hooks-stops :
      (empty : A) (xs ys : List (HookEntry (PreHook M X A W))) (e : HookEntry (PreHook M X A W))
      (p q : Progress A W) (d : PreHookResult A) (ws : List Text) (w : W)
      → matched_hooks (name meta) r.pre_hooks ≡ xs ++ e ∷ ys
      → run_hooks (run_pre_hook meta ctx empty) xs p ≡ goes_on q
      → run_pre_hook meta ctx empty e q ≡ stops d ws w
      → apply_pre_hooks name meta ctx r empty p ≡ (d, ws, w)
  unfolding apply_pre_hooks
  apply_pre_hooks-stops empty xs ys e p q d ws w matched h k =
      rw (matched, run_hooks-stops (run_pre_hook meta ctx empty) xs ys e p q d ws w h k) refl

action-cases : (x : Action) → (x ≡ continue) ⊎ (x ≡ modify_args) ⊎ (x ≡ deny)
action-cases continue = inl refl
action-cases modify_args = inr (inl refl)
action-cases deny = inr (inr refl)

policy-cases : (x : HookErrorPolicy) → (x ≡ fail_open) ⊎ (x ≡ fail_closed)
policy-cases fail_open = inl refl
policy-cases fail_closed = inr refl

continue-deny : continue ≢ deny
continue-deny e = cc

module _ {M X A W : Type 0} (meta : M) (ctx : X) (empty : A) where
  -- A hook returns `Continue` or new arguments, or it throws under the policy `fail_open`; what the loop
  -- goes on with then.
  abbrev pub LetsOn : HookEntry (PreHook M X A W) → Progress A W → Progress A W → Type 0
  LetsOn e p q =
      ((a : PreHookResult A) × (w : W) × (e.hook meta ctx p.current p.outside ≡ (returned a, w))
        × (((a.action ≡ continue) × (q ≡ record p { outside = w }))
            ⊎ ((a.action ≡ modify_args)
                × (q ≡ record p { current = a.modified_args; outside = w }))))
      ⊎ ((x : Thrown) × (w : W) × (e.hook meta ctx p.current p.outside ≡ (threw x, w))
          × (e.policy ≡ fail_open)
          × (q ≡ record p {
            warnings = p.warnings ++ (hook_name (codes "pre_hook_") e.seq ++ skipped x) ∷ [];
            outside = w;
          }))

  -- Every hook of the list runs, and each lets the next one run.
  abbrev pub AllGoOn : List (HookEntry (PreHook M X A W)) → Progress A W → Type 0
  AllGoOn [] p = Unit
  AllGoOn (e ∷ es) p = (q : Progress A W) × LetsOn e p q × AllGoOn es q

  goes_on-injective :
      (p q : Progress A W) → Path (Step A (PreHookResult A) W) (goes_on q) (goes_on p) → p ≡ q
  goes_on-injective p q e = cc

  abbrev settled :
      HookEntry (PreHook M X A W)
      → Progress A W
      → Attempt (PreHookResult A) × W
      → Step A (PreHookResult A) W
  settled e p r =
      let v : Progress A W = record p { outside = r.1 } in
      elim r.0 [
        | returned a ↦ settle_pre meta ctx e.seq a v
        | threw x ↦ recover_pre meta ctx empty e.seq e.policy x v
      ]

  returned-LetsOn :
      (e : HookEntry (PreHook M X A W)) (p q : Progress A W) (a : PreHookResult A) (w : W)
      → e.hook meta ctx p.current p.outside ≡ (returned a, w)
      → run_pre_hook meta ctx empty e p ≡ goes_on q
      → LetsOn e p q
  returned-LetsOn e p q a w k h = elim (action-cases a.action) [
    | inl c ↦ inl (
      a,
      w,
      k,
      inl (
        c,
        goes_on-injective _ _ (rw (c, settle_pre, recover_pre) at (sym (ap (settled e p) k) ∙ h)),
      ),
    )
    | inr (inl c) ↦ inl (
      a,
      w,
      k,
      inr (
        c,
        goes_on-injective _ _ (rw (c, settle_pre, recover_pre) at (sym (ap (settled e p) k) ∙ h)),
      ),
    )
    | inr (inr c) ↦ let z = rw (c, settle_pre, recover_pre) at (sym (ap (settled e p) k) ∙ h) in cc
  ]

  threw-LetsOn :
      (e : HookEntry (PreHook M X A W)) (p q : Progress A W) (x : Thrown) (w : W)
      → e.hook meta ctx p.current p.outside ≡ (threw x, w)
      → run_pre_hook meta ctx empty e p ≡ goes_on q
      → LetsOn e p q
  threw-LetsOn e p q x w k h = elim (policy-cases e.policy) [
    | inl c ↦ inr (
      x,
      w,
      k,
      c,
      goes_on-injective _ _ (rw (c, settle_pre, recover_pre) at (sym (ap (settled e p) k) ∙ h)),
    )
    | inr c ↦ let z = rw (c, settle_pre, recover_pre) at (sym (ap (settled e p) k) ∙ h) in cc
  ]

  hook-LetsOn :
      (e : HookEntry (PreHook M X A W)) (p q : Progress A W) (r : Attempt (PreHookResult A) × W)
      → e.hook meta ctx p.current p.outside ≡ r
      → run_pre_hook meta ctx empty e p ≡ goes_on q
      → LetsOn e p q
  hook-LetsOn e p q (returned a, w) k h = returned-LetsOn e p q a w k h
  hook-LetsOn e p q (threw x, w) k h = threw-LetsOn e p q x w k h

  LetsOn-goes_on :
      (e : HookEntry (PreHook M X A W)) (p q : Progress A W)
      → LetsOn e p q
      → run_pre_hook meta ctx empty e p ≡ goes_on q
  LetsOn-goes_on e p q (inl (a, w, k, inl (c, l))) =
      ap (settled e p) k ∙ rw (c, l, settle_pre, recover_pre) refl
  LetsOn-goes_on e p q (inl (a, w, k, inr (c, l))) =
      ap (settled e p) k ∙ rw (c, l, settle_pre, recover_pre) refl
  LetsOn-goes_on e p q (inr (x, w, k, c, l)) =
      ap (settled e p) k ∙ rw (c, l, settle_pre, recover_pre) refl

  -- What a stop returns is a denial.
  abbrev Denies : Step A (PreHookResult A) W → Type 0
  Denies (goes_on p) = Unit
  Denies (stops d ws w) = d.action ≡ deny

  run_pre_hook-Denies :
      (e : HookEntry (PreHook M X A W)) (p : Progress A W)
      → Denies (run_pre_hook meta ctx empty e p)
  run_pre_hook-Denies e p = ground arith

  then_run-Denies :
      (f : Progress A W → Step A (PreHookResult A) W)
      → ((q : Progress A W) → Denies (f q))
      → (s : Step A (PreHookResult A) W) → Denies s
      → Denies (then_run f s)
  then_run-Denies f ok (goes_on q) h = ok q
  then_run-Denies f ok (stops d ws w) h = h

  run_hooks-Denies :
      (es : List (HookEntry (PreHook M X A W))) (p : Progress A W)
      → Denies (run_hooks (run_pre_hook meta ctx empty) es p)
  unfolding run_hooks
  run_hooks-Denies [] p = tt
  run_hooks-Denies (e ∷ es) p =
      then_run-Denies (run_hooks (run_pre_hook meta ctx empty) es) (run_hooks-Denies es)
        (run_pre_hook meta ctx empty e p) (run_pre_hook-Denies e p)

  then_run-goes_on_iff :
      (f : Progress A W → Step A (PreHookResult A) W) (P : Progress A W → Type 0)
      → ((q : Progress A W) → ((z : Progress A W) × (f q ≡ goes_on z)) ↔ P q)
      → (s : Step A (PreHookResult A) W)
      → ((z : Progress A W) × (then_run f s ≡ goes_on z))
        ↔ ((q : Progress A W) × (s ≡ goes_on q) × P q)
  then_run-goes_on_iff f P ok (goes_on q) =
      (λ h. (q, refl, (ok q).0 h), λ (q', e, h). (ok q).1 (subst P (goes_on-injective q' q e) h))
  then_run-goes_on_iff f P ok (stops d ws w) = (λ (z, h). cc, λ (q, e, h). cc)

  run_hooks-goes_on_iff :
      (es : List (HookEntry (PreHook M X A W))) (p : Progress A W)
      → ((q : Progress A W) × (run_hooks (run_pre_hook meta ctx empty) es p ≡ goes_on q))
        ↔ AllGoOn es p
  unfolding run_hooks
  run_hooks-goes_on_iff [] p = (λ h. tt, λ h. (p, refl))
  run_hooks-goes_on_iff (e ∷ es) p =
      let (f, g) =
        then_run-goes_on_iff (run_hooks (run_pre_hook meta ctx empty) es) (AllGoOn es)
          (run_hooks-goes_on_iff es) (run_pre_hook meta ctx empty e p) in
      (
        λ h. let (q, k, l) = f h in (q, hook-LetsOn e p q _ refl k, l),
        λ (q, k, l). g (q, LetsOn-goes_on e p q k, l),
      )

  stops-goes_on :
      (d : PreHookResult A) (ws : List Text) (w : W) (z : Progress A W) {B : Type 0}
      → Path (Step A (PreHookResult A) W) (stops d ws w) (goes_on z)
      → B
  stops-goes_on d ws w z e = cc

  allow-continue_iff :
      (s : Step A (PreHookResult A) W)
      → Denies s
      → (P : Type 0) → ((z : Progress A W) × (s ≡ goes_on z)) ↔ P
      → (((allow s).0.action ≡ continue) ⊎ ((allow s).0.action ≡ deny))
        × (((allow s).0.action ≡ continue) ↔ P)
  allow-continue_iff (goes_on q) h P ok = (inl refl, (λ e. ok.0 (q, refl), λ x. refl))
  allow-continue_iff (stops d ws w) h P ok = (
    inr h,
    (λ e. absurd (continue-deny (sym e ∙ h)), λ x. stops-goes_on d ws w (ok.1 x).0 (ok.1 x).1),
  )

module _ {M X A R W : Type 0} (name : M → Text) (meta : M) (ctx : X)
    (r : ToolHookRegistry M X A R W) where
  -- `apply_pre_hooks` returns `Continue` or `Deny`, never `ModifyArgs`, and it returns `Continue` exactly
  -- if every matched hook, run on what the hooks before it leave, returns `Continue` or new arguments or
  -- throws under the policy `fail_open`.
  pub apply_pre_hooks-continue_iff :
      (empty : A) (p : Progress A W)
      → let action = (apply_pre_hooks name meta ctx r empty p).0.action in
        ((action ≡ continue) ⊎ (action ≡ deny))
        × ((action ≡ continue) ↔ AllGoOn meta ctx empty (matched_hooks (name meta) r.pre_hooks) p)
  unfolding apply_pre_hooks
  apply_pre_hooks-continue_iff empty p =
      allow-continue_iff meta ctx empty
        (run_hooks (run_pre_hook meta ctx empty) (matched_hooks (name meta) r.pre_hooks) p)
        (run_hooks-Denies meta ctx empty (matched_hooks (name meta) r.pre_hooks) p)
        (AllGoOn meta ctx empty (matched_hooks (name meta) r.pre_hooks) p)
        (run_hooks-goes_on_iff meta ctx empty (matched_hooks (name meta) r.pre_hooks) p)
