-- ===== src/Scheduler/Node.antt =====
-- What the scheduler reads of a node (src/core/types/node.h), of a dependency written in its
-- metadata, and of JSON; and the exceptions that the scheduler throws.
use hydra_forge.Prelude.{
  ◌≡◌, refl, ◌⊎◌, inl, inr, Bool, true, false, List, [], ◌∷◌, ◌++◌, Option, none, some,
}
use hydra_forge.Prelude.Text.{Text}

pub data NodeType : Type 0 where
  start_node end_node assign dsl_call tool_call resource fork join : NodeType
  generate_subgraph assert_node yield_node : NodeType

-- A JSON value that stands where paths are expected: an array whose items are strings or not
-- (`none`), one string, or anything else.
pub data Spec : Type 0 where
  items : List (Option Text) → Spec
  single : Text → Spec
  neither : Spec

-- `metadata["wait_for"]`: an object with the entries `all_of` and `any_of`, or no object.
pub data WaitFor : Type 0 where
  plain : Spec → WaitFor
  object : Option Spec → Option Spec → WaitFor

-- The class of the node: what `dynamic_cast` asks for.
pub data Class : Type 0 where
  resource_class : (uri scope : Text) → Class
  fork_class : (branches : List Text) → Class
  join_class : (wait_for : List Text) → (merge_strategy : Text) → Class
  other_class : Class

pub record Node : Type 0 where
  pub path : Text
  pub type : NodeType
  pub next : List Text
  pub wait_for : Option WaitFor
  -- `metadata.value("termination_mode", "hard")`
  pub termination_mode : Text
  pub class : Class

-- A clone of a resource has no successors (its constructor takes none); the other classes copy theirs.
abbrev pub kept_next : Class → List Text → List Text
kept_next (resource_class uri scope) next = []
kept_next (fork_class branches) next = next
kept_next (join_class waits strategy) next = next
kept_next other_class next = next

abbrev pub clone : Node → Node
clone n = record n { next = kept_next n.class n.next }

pub data Failure : Type 0 where
  next_not_found branch_not_found dependency_not_found : Text → Failure
  not_a_string : Failure
  hard_end : Failure
  node_not_found no_start_node branch_failed : Text → Failure
  snapshot_not_found : Text → Failure
  not_a_fork not_a_join : Failure
  missing_results : Failure
  merge_conflict : Failure
  -- `value()` of an empty optional.
  bad_optional_access : Failure
  -- Of the model only: a loop has used up its fuel.
  out_of_fuel : Failure

-- An exception leaves the scheduler, so no state comes with it.
pub data Outcome {ℓ} (A : Type ℓ) : Type ℓ where
  value : A → Outcome A
  throws : Failure → Outcome A

infixl 5 ◌>>=◌
abbrev pub ◌>>=◌ {ℓ κ} : {A : Type ℓ} {B : Type κ} → Outcome A → (A → Outcome B) → Outcome B
value a >>= f = f a
throws e >>= f = throws e

pub >>=-eq-throws {ℓ κ} :
    {A : Type ℓ} {B : Type κ} (m : Outcome A) (f : A → Outcome B) (x : Failure)
    → (m >>= f) ≡ throws x
    → (m ≡ throws x) ⊎ ((a : A) × (m ≡ value a) × (f a ≡ throws x))
>>=-eq-throws (value a) f x h = inr (a, refl, h)
>>=-eq-throws (throws e) f x h = inl (cc)

pub value-injective {ℓ} : {A : Type ℓ} (a b : A) → value a ≡ value b → a ≡ b
value-injective a b e = cc

pub >>=-eq-value {ℓ κ} :
    {A : Type ℓ} {B : Type κ} (m : Outcome A) (f : A → Outcome B) {b : B}
    → (m >>= f) ≡ value b
    → (a : A) × (m ≡ value a) × (f a ≡ value b)
>>=-eq-value (value a) f h = (a, refl, h)
>>=-eq-value (throws e) f h = cc

-- `item.get<std::string>()` throws on an item that is no string.
pub strings : List (Option Text) → Outcome (List Text)
strings [] = value []
strings (none ∷ xs) = throws not_a_string
strings (some x ∷ xs) = do rest ← strings xs; value (x ∷ rest)

pub spec_paths : Spec → Outcome (List Text)
unfolding strings
spec_paths (items xs) = strings xs
spec_paths (single x) = value (x ∷ [])
spec_paths neither = value []

entry_paths : Option Spec → Outcome (List Text)
unfolding spec_paths
entry_paths none = value []
entry_paths (some s) = spec_paths s

-- `any_of` is read like `all_of`.
unfoldable pub collect_wait_for_deps : WaitFor → Outcome (List Text)
unfolding entry_paths
collect_wait_for_deps (plain s) = spec_paths s
collect_wait_for_deps (object all_of any_of) = do
  all ← entry_paths all_of
  any ← entry_paths any_of
  value (all ++ any)

-- `is_string()`: such a dependency is a template that is rendered when the node's turn comes.
unfoldable pub is_dynamic : WaitFor → Bool
is_dynamic (plain (single x)) = true
is_dynamic (plain (items xs)) = false
is_dynamic (plain neither) = false
is_dynamic (object all_of any_of) = false
