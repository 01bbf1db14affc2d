-- ===== src/Tools/Registry/Secure/Laws.antt =====
-- What the decorator lets through (secure_tool_registry.cpp).
use Prim.{tt}
use hydra_forge.Prelude.{
  ℕ, ◌≡◌, ◌≢◌, arith, refl, sym, ap, ◌∙◌, Bool, true, false, Option, none, some, if◌then◌else◌,
  Bool-cases, inl, inr,
}
use hydra_forge.Prelude.Text.{Text, same, same_iff, text_eq, codes, starts_with}
use hydra_forge.Prelude.Maps.{lookup, lookup-insert}
use hydra_forge.Json.{Json}
use hydra_forge.Hooks.{Attempt, returned, threw, exception, unknown}
use hydra_forge.Tools.Validation.{Args}
use hydra_forge.Tools.Registry.{ToolRegistry, has_tool, call_tool}
use hydra_forge.Tools.Registry.Secure.{
  SecurityError, SecureToolRegistry, Result, granted, rejected, disable_tool, is_disabled,
  check_security, after_security, granted_by, passed_on, call_passthrough, call_direct,
  secure_call_tool, secure_unregister, policy_of, get_path_policy, path_error, path_step,
  not_registered, command_step, or_then,
}
use hydra_forge.Tools.Guards.{
  CheckResult, PathPolicy, allowed, invalid_path, path_not_in_allowed_prefix,
  path_matches_denied_pattern, check, is_dangerous,
}

is_disabled-disable_tool :
    {W R : Type 0} (name : Text) (s : SecureToolRegistry W R)
    → is_disabled name (disable_tool name s) ≡ true
unfolding is_disabled disable_tool
is_disabled-disable_tool name s =
    rw (is_disabled, lookup-insert name name true s.disabled_tools)
      (rw ((same_iff name name).1 refl) refl)

if_none_else :
    {A : Type 0} (b : Bool) (x : A) (y : Option A)
    → (if b then some x else y) ≡ none
    → (b ≡ false) × (y ≡ none)
if_none_else true x y h = cc
if_none_else false x y h = (refl, h)

or_then-none : (a b : Option SecurityError) → or_then a b ≡ none → (a ≡ none) × (b ≡ none)
or_then-none (some e) b h = cc
or_then-none none b h = (refl, h)

path_error-none :
    (print : ℕ → Text) (name path : Text) (r : CheckResult)
    → path_error print name path r ≡ none
    → r ≡ allowed
path_error-none print name path allowed h = refl
path_error-none print name path invalid_path h = cc
path_error-none print name path path_not_in_allowed_prefix h = cc
path_error-none print name path (path_matches_denied_pattern i) h = cc

-- The command, if there is one, is not dangerous.
abbrev pub IsSafe : Option Text → Type 0
IsSafe none = Unit
IsSafe (some cmd) = is_dangerous cmd ≡ false

command_step-IsSafe : (name : Text) (o : Option Text) → command_step name o ≡ none → IsSafe o
command_step-IsSafe name none h = tt
command_step-IsSafe name (some cmd) h = ground arith

-- The policy allows the path, if there is one.
abbrev pub Allows :
    {R : Type 0} (weakly_canonical : Text → Option Text) (regex_search : R → Text → Bool)
    → PathPolicy R
    → Option Text
    → Type 0
Allows weakly_canonical regex_search policy none = Unit
Allows weakly_canonical regex_search policy (some path) =
    check weakly_canonical regex_search policy path ≡ allowed

if_fst : {A B : Type 0} (b : Bool) (x : A × B) (y : A × B) → b ≡ true → (if b then x else y).1 ≡ x.1
if_fst true x y h = refl
if_fst false x y h = cc

module _ {W R : Type 0} (print : ℕ → Text) (weakly_canonical : Text → Option Text)
    (regex_search : R → Text → Bool) where
  disabled-call_passthrough :
      (name : Text) (args : Args) (s : SecureToolRegistry W R) (w : W)
      → is_disabled name s ≡ true
      → (call_passthrough print weakly_canonical regex_search name args s w).1 ≡ w
  unfolding call_passthrough
  disabled-call_passthrough name args s w d = if_fst (is_disabled name s) _ _ d

  disabled-secure_call_tool :
      (name : Text) (args : Args) (s : SecureToolRegistry W R) (w : W)
      → is_disabled name s ≡ true
      → (secure_call_tool print weakly_canonical regex_search name args s w).1 ≡ w
  unfolding secure_call_tool call_direct check_security
  disabled-secure_call_tool name args s w d = elim (Bool-cases (is_disabled name s)) [
    | inl q ↦ rw (is_disabled, q) refl
    | inr q ↦ let c : true ≡ false = sym d ∙ q in cc
  ]

  disabled-secure_unregister :
      (name : Text) (s : SecureToolRegistry W R)
      → is_disabled name s ≡ true
      → secure_unregister name s ≡ s
  unfolding secure_unregister
  disabled-secure_unregister name s d = rw d refl

  -- Neither `call_tool` nor `call_passthrough` acts on the outside state for a tool that is disabled, and
  -- `unregister` leaves it registered.
  pub disable_tool-call_tool :
      (name : Text) (args : Args) (s : SecureToolRegistry W R) (w : W)
      → let d = disable_tool name s in
        ((secure_call_tool print weakly_canonical regex_search name args d w).1 ≡ w)
        × ((call_passthrough print weakly_canonical regex_search name args d w).1 ≡ w)
        × (secure_unregister name d ≡ d)
  disable_tool-call_tool name args s w =
      let e = is_disabled-disable_tool name s in
      (
        disabled-secure_call_tool name args (disable_tool name s) w e,
        disabled-call_passthrough name args (disable_tool name s) w e,
        disabled-secure_unregister name (disable_tool name s) e,
      )

  call_direct-checked :
      (name : Text) (args : Args) (s : SecureToolRegistry W R) (w w' : W) (j : Json)
      → call_direct print weakly_canonical regex_search name args s w ≡ (returned (granted j), w')
      → (check_security print weakly_canonical regex_search name args s ≡ none)
        × ((r : ToolRegistry W) × (s.registry_ref ≡ some r)
            × (has_tool name r ≡ true)
            × (call_tool name args r w ≡ (returned j, w')))
  unfolding call_direct call_passthrough
  call_direct-checked name args s w w' j h =
      let p =
        granted-after_security (check_security print weakly_canonical regex_search name args s) h in
      (p.0, granted-passed_on s.registry_ref (granted-if (is_disabled name s) _ _ p.1))
    where
      granted-after_security :
          (o : Option SecurityError)
          → after_security print weakly_canonical regex_search name args s w o
            ≡ (returned (granted j), w')
          → (o ≡ none)
            × (call_passthrough print weakly_canonical regex_search name args s w
                ≡ (returned (granted j), w'))
      granted-after_security none k = (refl, k)
      granted-after_security (some e) k = cc

      granted-if :
          (b : Bool) (e : SecurityError) (x : Attempt Result × W)
          → (if b then (returned (rejected e), w) else x) ≡ (returned (granted j), w')
          → x ≡ (returned (granted j), w')
      granted-if true e x k = cc
      granted-if false e x k = k

      granted-else :
          (b : Bool) (x : Attempt Result × W) (e : SecurityError)
          → (if b then x else (returned (rejected e), w)) ≡ (returned (granted j), w')
          → (b ≡ true) × (x ≡ (returned (granted j), w'))
      granted-else true x e k = (refl, k)
      granted-else false x e k = cc

      granted-granted_by :
          (x : Attempt Json × W)
          → granted_by print weakly_canonical regex_search name x ≡ (returned (granted j), w')
          → x ≡ (returned j, w')
      granted-granted_by (returned i, v) k =
          let a = ap (λ p. p.0) k in let b = ap (λ p. p.1) k in cc
      granted-granted_by (threw (exception what), v) k = cc
      granted-granted_by (threw unknown, v) k = cc

      granted-passed_on :
          (o : Option (ToolRegistry W))
          → passed_on print weakly_canonical regex_search name args o w ≡ (returned (granted j), w')
          → (r : ToolRegistry W) × (o ≡ some r)
            × (has_tool name r ≡ true)
            × (call_tool name args r w ≡ (returned j, w'))
      granted-passed_on none k = cc
      granted-passed_on (some r) k =
          let (b, x) = granted-else (has_tool name r) _ _ k in
          (r, refl, b, granted-granted_by (call_tool name args r w) x)

  -- The tool may run: it is not disabled, the path of a file tool is allowed by the tool's own policy or else
  -- by the default, and the command of the shell is not dangerous.
  pub record Secured (name : Text) (args : Args) (s : SecureToolRegistry W R) : Type 0 where
    pub enabled : lookup name s.disabled_tools ≢ some true
    pub path_allowed :
        Allows weakly_canonical regex_search
          (policy_of (lookup name s.tool_policies) s.default_policy)
          (if starts_with (codes "fs.") name then lookup (codes "path") args else none)
    pub command_safe :
        IsSafe (if same name (codes "shell.exec") then lookup (codes "command") args else none)

  path_step-Allows :
      (name : Text) (s : SecureToolRegistry W R) (o : Option Text)
      → path_step print weakly_canonical regex_search name s o ≡ none
      → Allows weakly_canonical regex_search (get_path_policy name s) o
  path_step-Allows name s none h = tt
  path_step-Allows name s (some path) h = path_error-none print name path _ h

  check_security-Secured :
      (name : Text) (args : Args) (s : SecureToolRegistry W R)
      → check_security print weakly_canonical regex_search name args s ≡ none
      → Secured name args s
  unfolding check_security is_disabled get_path_policy
  check_security-Secured name args s h =
      let (d, rest) = if_none_else (is_disabled name s) _ _ h in
      let (p, c) =
        or_then-none
          (path_step print weakly_canonical regex_search name s
            (if starts_with (codes "fs.") name then lookup (codes "path") args else none))
          (command_step name
            (if same name (codes "shell.exec") then lookup (codes "command") args else none))
          (or_then-none (not_registered print weakly_canonical regex_search name s.registry_ref) _
            rest).1 in
      record {
        enabled = λ e. let z = rw (e, is_disabled) at d in cc;
        path_allowed = path_step-Allows name s _ p;
        command_safe = command_step-IsSafe name _ c;
      }

  -- What a call gives that the decorator grants: the tool may run, and it is what the wrapped registry's call
  -- gives for a tool that is registered there.
  pub call_direct-granted :
      (name : Text) (args : Args) (s : SecureToolRegistry W R) (w w' : W) (j : Json)
      → call_direct print weakly_canonical regex_search name args s w ≡ (returned (granted j), w')
      → Secured name args s
        × ((r : ToolRegistry W) × (s.registry_ref ≡ some r)
            × (has_tool name r ≡ true)
            × (call_tool name args r w ≡ (returned j, w')))
  call_direct-granted name args s w w' j h =
      let (c, q) = call_direct-checked name args s w w' j h in
      (check_security-Secured name args s c, q)
