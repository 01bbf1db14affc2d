-- ===== src/Hooks.antt =====
-- `ToolHookRegistry` (src/common/tools/tool_hook_registry.cpp): hooks under a glob of the tool's name,
-- their order by priority and registration, and what a denial or an exception of a hook does. The
-- hooks are code of others: functions on an outside state `W`, which may throw. `M` is the tool's
-- metadata, of which the name is read, `X` the call's context, `A` the map of arguments, `R` the
-- result of the tool.
pub mod Globs
pub mod Order
pub mod Chain
pub mod Agents
mod Tests
use hydra_forge.Prelude.{
  ℕ, zero, suc, ◌+◌, ◌/◌, ◌%◌, Bool, true, false, ◌&&◌, ◌||◌, List, [], ◌∷◌, ◌++◌, if◌then◌else◌,
  ◌==◌, ltb, length, keep_if,
}
use hydra_forge.Prelude.Int.{ℤ, pos, negsuc}
use hydra_forge.Prelude.Text.{Text, codes, same}

-- Parts are kept only if they are not empty.
abbrev pub flush : Text → List Text
flush [] = []
flush (c ∷ cs) = (c ∷ cs) ∷ []

pub split_loop : ℕ → Text → Text → List Text
split_loop delim [] cur = flush cur
split_loop delim (c ∷ s) cur =
    let rest = split_loop delim s (if c == delim then [] else cur ++ c ∷ []) in
    if c == delim then flush cur ++ rest else rest

pub split : Text → ℕ → List Text
unfolding split_loop
split s delim = split_loop delim s []

abbrev pub slash : ℕ
slash = 47

-- The loop over the parts, of which there are as many in both lists.
pub match_parts : List Text → List Text → Bool
match_parts (p ∷ ps) (n ∷ ns) = (same p (codes "*") || same p n) && match_parts ps ns
match_parts _ _ = true

pub match_tool_glob : Text → Text → Bool
unfolding split match_parts
match_tool_glob pattern name =
    if same pattern (codes "*")
    then true
    else if length (split pattern slash) == length (split name slash)
    then match_parts (split pattern slash) (split name slash)
    else false

pub data HookErrorPolicy : Type 0 where
  fail_closed fail_open : HookErrorPolicy

pub data Action : Type 0 where
  continue deny modify_args : Action

pub record PreHookResult (A : Type 0) : Type 0 where
  pub action : Action
  pub deny_reason : Text
  pub modified_args : A

pub record PostHookResult (R : Type 0) : Type 0 where
  pub modify_result : Bool
  pub modified_result : R

-- `std::exception` with its text, or anything else.
pub data Thrown : Type 0 where
  exception : Text → Thrown
  unknown : Thrown

pub data Attempt {ℓ} (A : Type ℓ) : Type ℓ where
  returned : A → Attempt A
  threw : Thrown → Attempt A

pub record HookEntry (H : Type 0) : Type 0 where
  pub tool_glob : Text
  pub hook : H
  pub priority : ℤ
  pub policy : HookErrorPolicy
  pub seq : ℕ

abbrev pub PreHook : (M X A W : Type 0) → Type 0
PreHook M X A W = M → X → A → W → Attempt (PreHookResult A) × W

abbrev pub PostHook : (M X R W : Type 0) → Type 0
PostHook M X R W = M → X → R → W → Attempt (PostHookResult R) × W

pub record ToolHookRegistry (M X A R W : Type 0) : Type 0 where
  pub pre_hooks : List (HookEntry (PreHook M X A W))
  pub post_hooks : List (HookEntry (PostHook M X R W))
  pub next_seq : ℕ

abbrev pub less_int : ℤ → ℤ → Bool
less_int (pos a) (pos b) = ltb a b
less_int (pos a) (negsuc b) = false
less_int (negsuc a) (pos b) = true
less_int (negsuc a) (negsuc b) = ltb b a

abbrev pub same_int : ℤ → ℤ → Bool
same_int (pos a) (pos b) = a == b
same_int (negsuc a) (negsuc b) = a == b
same_int _ _ = false

-- The comparison of the two sorts: by priority, then by the order of registration.
abbrev pub before : {H : Type 0} → HookEntry H → HookEntry H → Bool
before a b =
    if same_int a.priority b.priority then ltb a.seq b.seq else less_int a.priority b.priority

-- `std::sort` by `before`, under which no two entries are equal.
abbrev pub insert_entry : {H : Type 0} → HookEntry H → List (HookEntry H) → List (HookEntry H)
insert_entry e [] = e ∷ []
insert_entry e (f ∷ fs) =
    let rest = insert_entry e fs in if before f e then f ∷ rest else e ∷ f ∷ fs

pub sort : {H : Type 0} → List (HookEntry H) → List (HookEntry H)
sort [] = []
sort (e ∷ es) = insert_entry e (sort es)

-- The entries whose glob matches, in the order in which they run.
pub matched_hooks : {H : Type 0} → Text → List (HookEntry H) → List (HookEntry H)
unfolding match_tool_glob sort
matched_hooks name es = sort (keep_if (λ e. match_tool_glob e.tool_glob name) es)

-- `std::to_string`, with the number itself as fuel.
abbrev pub digits : ℕ → ℕ → Text
digits zero n = (48 + n % 10) ∷ []
digits (suc fuel) n =
    let rest = digits fuel (n / 10) in
    if ltb n 10 then (48 + n) ∷ [] else rest ++ (48 + n % 10) ∷ []

abbrev pub hook_name : Text → ℕ → Text
hook_name kind seq = codes "[" ++ kind ++ digits seq seq ++ codes "] "

abbrev pub failed : Thrown → Text
failed (exception what) = codes "exception: " ++ what
failed unknown = codes "exception: unknown"

abbrev pub skipped : Thrown → Text
skipped (exception what) = codes "skipped: " ++ what
skipped unknown = codes "skipped: unknown exception"

module _ {M X A R W : Type 0} where
  pub register_pre_hook :
      Text
      → PreHook M X A W
      → ℤ
      → HookErrorPolicy
      → ToolHookRegistry M X A R W
      → ToolHookRegistry M X A R W
  register_pre_hook tool_glob hook priority policy r = record r {
    pre_hooks =
        r.pre_hooks
        ++ record {
          tool_glob = tool_glob;
          hook = hook;
          priority = priority;
          policy = policy;
          seq = r.next_seq;
        }
          ∷ [];
    next_seq = r.next_seq + 1;
  }

  pub register_post_hook :
      Text
      → PostHook M X R W
      → ℤ
      → HookErrorPolicy
      → ToolHookRegistry M X A R W
      → ToolHookRegistry M X A R W
  register_post_hook tool_glob hook priority policy r = record r {
    post_hooks =
        r.post_hooks
        ++ record {
          tool_glob = tool_glob;
          hook = hook;
          priority = priority;
          policy = policy;
          seq = r.next_seq;
        }
          ∷ [];
    next_seq = r.next_seq + 1;
  }

-- What the two loops carry: the current value, the warnings, the outside state.
pub record Progress (A W : Type 0) : Type 0 where
  pub current : A
  pub warnings : List Text
  pub outside : W

-- A loop goes on, or it returns at once.
pub data Step (A D W : Type 0) : Type 0 where
  goes_on : Progress A W → Step A D W
  stops : D → List Text → W → Step A D W

abbrev pub denied_by : {A : Type 0} → ℕ → Text → A → PreHookResult A
denied_by seq reason args = record {
  action = deny;
  deny_reason = hook_name (codes "pre_hook_") seq ++ reason;
  modified_args = args;
}

module _ {M X A W : Type 0} (meta : M) (ctx : X) where
  abbrev settle_pre : ℕ → PreHookResult A → Progress A W → Step A (PreHookResult A) W
  settle_pre seq r p = elim r.action [
    | deny ↦ stops (denied_by seq r.deny_reason r.modified_args) p.warnings p.outside
    | modify_args ↦ goes_on (record p { current = r.modified_args })
    | continue ↦ goes_on p
  ]

  -- The result that a denial for an exception returns has default arguments: `empty`.
  abbrev recover_pre :
      (empty : A) → ℕ → HookErrorPolicy → Thrown → Progress A W → Step A (PreHookResult A) W
  recover_pre empty seq fail_closed x p =
      stops (denied_by seq (failed x) empty) p.warnings p.outside
  recover_pre empty seq fail_open x p =
      goes_on (record p {
        warnings = p.warnings ++ (hook_name (codes "pre_hook_") seq ++ skipped x) ∷ [];
      })

  abbrev pub run_pre_hook :
      (empty : A) → HookEntry (PreHook M X A W) → Progress A W → Step A (PreHookResult A) W
  run_pre_hook empty e p =
      let r = e.hook meta ctx p.current p.outside in
      let v : Progress A W = record p { outside = r.1 } in
      elim r.0 [
        | returned a ↦ settle_pre e.seq a v
        | threw x ↦ recover_pre empty e.seq e.policy x v
      ]

module _ {M X R W : Type 0} (meta : M) (ctx : X) (error : Text → R) where
  abbrev settle_post : PostHookResult R → Progress R W → Step R R W
  settle_post r p =
      goes_on (if r.modify_result then record p { current = r.modified_result } else p)

  -- `error` makes the result of the code `PermissionDenied`.
  abbrev recover_post : ℕ → HookErrorPolicy → Thrown → Progress R W → Step R R W
  recover_post seq fail_closed x p =
      stops (error (hook_name (codes "post_hook_") seq ++ failed x)) p.warnings p.outside
  recover_post seq fail_open x p =
      goes_on (record p {
        warnings = p.warnings ++ (hook_name (codes "post_hook_") seq ++ skipped x) ∷ [];
      })

  abbrev pub run_post_hook : HookEntry (PostHook M X R W) → Progress R W → Step R R W
  run_post_hook e p =
      let r = e.hook meta ctx p.current p.outside in
      let v : Progress R W = record p { outside = r.1 } in
      elim r.0 [ returned a ↦ settle_post a v | threw x ↦ recover_post e.seq e.policy x v ]

module _ {A D W : Type 0} where
  abbrev pub then_run : (Progress A W → Step A D W) → Step A D W → Step A D W
  then_run rest (goes_on p) = rest p
  then_run rest (stops d ws w) = stops d ws w

-- The loop over the matched entries.
module _ {E A D W : Type 0} (run : E → Progress A W → Step A D W) where
  pub run_hooks : List E → Progress A W → Step A D W
  run_hooks [] p = goes_on p
  run_hooks (e ∷ es) p = then_run (run_hooks es) (run e p)

module _ {A W : Type 0} where
  abbrev pub allow : Step A (PreHookResult A) W → PreHookResult A × List Text × W
  allow (goes_on p) = (
    record { action = continue; deny_reason = []; modified_args = p.current },
    p.warnings,
    p.outside,
  )
  allow (stops d ws w) = (d, ws, w)

  abbrev keep_result : Step A A W → A × List Text × W
  keep_result (goes_on p) = (p.current, p.warnings, p.outside)
  keep_result (stops d ws w) = (d, ws, w)

module _ {M X A R W : Type 0} (name : M → Text) (meta : M) (ctx : X)
    (r : ToolHookRegistry M X A R W) where
  pub apply_pre_hooks : (empty : A) → Progress A W → PreHookResult A × List Text × W
  unfolding matched_hooks run_hooks
  apply_pre_hooks empty p =
      allow (run_hooks (run_pre_hook meta ctx empty) (matched_hooks (name meta) r.pre_hooks) p)

  pub apply_post_hooks : (error : Text → R) → Progress R W → R × List Text × W
  unfolding matched_hooks run_hooks
  apply_post_hooks error p =
      keep_result
        (run_hooks (run_post_hook meta ctx error) (matched_hooks (name meta) r.post_hooks) p)
