-- ===== src/Tools/Guards.antt =====
-- `PathPolicy` and `ShellGuard` (include/agenticdsl/policy/path_policy.h, src/common/policy/path_policy.cpp),
-- and `DangerousPatterns` (dangerous_patterns.cpp). `weakly_canonical` of the file system and the search of
-- a regular expression are parameters.
pub mod Laws
mod Tests
use hydra_forge.Prelude.{
  ℕ, suc, Bool, true, false, ◌||◌, List, [], ◌∷◌, Option, none, some, if◌then◌else◌, map, any,
}
use hydra_forge.Prelude.Text.{Text, codes, contains, starts_with}
use hydra_forge.Policy.{tolower}

-- A refusal has a reason; the one for a pattern has its index.
pub data CheckResult : Type 0 where
  allowed invalid_path path_not_in_allowed_prefix : CheckResult
  path_matches_denied_pattern : ℕ → CheckResult

pub record PathPolicy (R : Type 0) : Type 0 where
  pub allowed_prefixes : List Text
  pub denied_patterns : List R

module _ {R : Type 0} (regex_search : R → Text → Bool) where
  -- The index of the first pattern that matches, from `i` on.
  pub first_denied : ℕ → List R → Text → Option ℕ
  first_denied i [] path = none
  first_denied i (p ∷ ps) path =
      let rest = first_denied (suc i) ps path in if regex_search p path then some i else rest

-- `none`: an exception.
module _ (weakly_canonical : Text → Option Text) where
  abbrev pub under_prefix : Option Text → Text → Bool
  under_prefix none path = false
  under_prefix (some prefix) path = starts_with prefix path

  -- The loop over the prefixes; one that cannot be resolved is passed over.
  pub in_prefixes : List Text → Text → Bool
  unfolding starts_with
  in_prefixes [] path = false
  in_prefixes (p ∷ ps) path = under_prefix (weakly_canonical p) path || in_prefixes ps path

  abbrev pub in_allowed : List Text → Text → Bool
  in_allowed [] path = true
  in_allowed (p ∷ ps) path = in_prefixes (p ∷ ps) path

module _ {R : Type 0} (weakly_canonical : Text → Option Text) (regex_search : R → Text → Bool) where
  abbrev pub check_canonical : PathPolicy R → Text → Option ℕ → CheckResult
  check_canonical policy path (some i) = path_matches_denied_pattern i
  check_canonical policy path none =
      if in_allowed weakly_canonical policy.allowed_prefixes path
      then allowed
      else path_not_in_allowed_prefix

  abbrev pub check_resolved : PathPolicy R → Option Text → CheckResult
  check_resolved policy none = invalid_path
  check_resolved policy (some path) =
      check_canonical policy path (first_denied regex_search 0 policy.denied_patterns path)

  pub check : PathPolicy R → Text → CheckResult
  unfolding first_denied in_prefixes
  check policy path = check_resolved policy (weakly_canonical path)

-- The loops over the patterns, on the command in lower case.
abbrev pub finds : List Text → Text → Bool
finds patterns cmd = any (λ p. contains p cmd) patterns

abbrev pub shell_patterns : List Text
shell_patterns =
    codes "rm -rf"
    ∷ codes "rm -r /"
    ∷ codes "dd if="
    ∷ codes "mkfs"
    ∷ codes "| bash"
    ∷ codes "; bash"
    ∷ codes "&& bash"
    ∷ codes "> /dev/"
    ∷ codes "curl | sh"
    ∷ codes "wget | sh"
    ∷ codes "| sh"
    ∷ codes "chmod 777"
    ∷ codes "chown root"
    ∷ []

pub is_dangerous : Text → Bool
unfolding contains
is_dangerous command = finds shell_patterns (map tolower command)

pub suggest_safe_alternative : Text → Option Text
unfolding contains
suggest_safe_alternative command =
    if contains (codes "rm -rf") command
    then some (codes "rm -i (interactive mode)")
    else if contains (codes "| bash") command || contains (codes "; bash") command
    then some (codes "use a dedicated tool instead of piping to bash")
    else none

abbrev pub dangerous_patterns : List Text
dangerous_patterns =
    codes "rm -rf"
    ∷ codes "mkfs"
    ∷ codes ":(){ :|:& };:"
    ∷ codes "dd if=/dev/zero"
    ∷ codes ">/dev/sd"
    ∷ []

unfoldable pub contains_dangerous : Text → Bool
unfolding contains
contains_dangerous cmd = finds (map (map tolower) dangerous_patterns) (map tolower cmd)

-- The empty text where there is none.
abbrev pub first_found : List Text → Text → Text
first_found [] cmd = []
first_found (p ∷ ps) cmd =
    let rest = first_found ps cmd in if contains (map tolower p) cmd then p else rest

pub first_match : Text → Text
unfolding contains
first_match cmd = first_found dangerous_patterns (map tolower cmd)
