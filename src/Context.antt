-- ===== src/Context.antt =====
-- `ContextEngine` (src/modules/context/context_engine.{h,cpp}): the merge of contexts under a policy, and
-- the snapshots with their limits. Comparison of JSON values and the size of a printed value are the JSON
-- library's, so parameters.
pub mod Merge
pub mod Snapshots
mod Tests
use hydra_forge.Prelude.{
  ℕ, ◌+◌, ◌-◌, ◌/◌, ◌%◌, Bool, true, false, not, ◌&&◌, ◌||◌, List, [], ◌∷◌, ◌++◌, Option, none,
  some, if◌then◌else◌, ltb, leb, length,
}
use hydra_forge.Prelude.Maps.{lookup, insert, erase}
use hydra_forge.Prelude.Text.{Text, text_eq, codes, same, starts_with}
use hydra_forge.Json.{
  Json, Items, Members, null, boolean, integer, double, text, array, object, no_items, item,
  no_members, member, is_array, get_member, set_member, push_item, has_item,
}

abbrev pub MergeStrategy : Type 0
MergeStrategy = Text

pub record ContextMergePolicy : Type 0 where
  pub field_policies : List (Text × MergeStrategy)
  pub default_strategy : MergeStrategy

-- A pattern that ends in `*`, without the star.
pub wildcard : Text → Option Text
wildcard [] = none
wildcard (c ∷ []) = if same (c ∷ []) (codes "*") then some [] else none
wildcard (c ∷ d ∷ p) = elim (wildcard (d ∷ p)) [ none ↦ none | some q ↦ some (c ∷ q) ]

pub wildcard_strategy : Text → List (Text × MergeStrategy) → Option MergeStrategy
unfolding wildcard
wildcard_strategy path [] = none
wildcard_strategy path ((pattern, strategy) ∷ rest) =
    let later = wildcard_strategy path rest in
    elim (wildcard pattern) [
      | none ↦ later
      | some prefix ↦ if starts_with prefix path then some strategy else later
    ]

pub get_merge_strategy_for_path : Text → ContextMergePolicy → MergeStrategy
unfolding wildcard_strategy
get_merge_strategy_for_path path policy = elim (lookup path policy.field_policies) [
  | some strategy ↦ strategy
  | none ↦ elim (wildcard_strategy path policy.field_policies) [
    | some strategy ↦ strategy
    | none ↦ policy.default_strategy
  ]
]

-- A merge, or `std::runtime_error` with the target as it is left.
pub data Merged {ℓ} (A : Type ℓ) : Type ℓ where
  merged : A → Merged A
  conflict : A → Merged A

abbrev pub with_target {ℓ κ} : {A : Type ℓ} {B : Type κ} → (A → B) → Merged A → Merged B
with_target f (merged a) = merged (f a)
with_target f (conflict a) = conflict (f a)

-- `if (!target.is_array()) target = array()`
abbrev pub items_of : Json → Items
items_of (array xs) = xs
items_of _ = no_items

abbrev pub extend : Items → Items → Items
extend xs no_items = xs
extend xs (item y ys) = extend (push_item xs y) ys

abbrev pub path_of : (prefix key : Text) → Text
path_of [] key = key
path_of (c ∷ prefix) key = (c ∷ prefix) ++ codes "." ++ key

module _ (eq : Json → Json → Bool) where
  abbrev pub extend_unique : Items → Items → Items
  extend_unique xs no_items = xs
  extend_unique xs (item y ys) = extend_unique (if has_item eq y xs then xs else push_item xs y) ys

  -- `source` is an array.
  pub merge_array : Json → Items → MergeStrategy → Merged Json
  merge_array target source strategy =
      if same strategy (codes "array_concat")
      then merged (array (extend (items_of target) source))
      else if same strategy (codes "array_merge_unique")
      then merged (array (extend_unique (items_of target) source))
      else if same strategy (codes "deep_merge")
      then merged (array source)
      else if same strategy (codes "last_write_wins")
      then merged (array source)
      else conflict target

  pub merge_scalar : Json → Json → MergeStrategy → Merged Json
  merge_scalar target source strategy =
      if same strategy (codes "last_write_wins")
      then merged source
      else if same strategy (codes "deep_merge")
      then merged source
      else if eq target source
      then merged target
      else conflict target

  -- The field is written, also by a merge that throws; the loop goes on after one that does not.
  abbrev pub store_member :
      Text → Members → (Members → Merged Members) → Merged Json → Merged Members
  store_member k target onward (merged u) = onward (set_member k u target)
  store_member k target onward (conflict u) = conflict (set_member k u target)

  mutual
    -- A field that is in both.
    pub merge_field : ContextMergePolicy → Text → Json → Json → Merged Json
    merge_field policy path (object ts) (object ss) =
        with_target object (merge_members policy path ts ss)
    merge_field policy path (array xs) (array ys) =
        merge_array (array xs) ys (get_merge_strategy_for_path path policy)
    merge_field policy path target source =
        merge_scalar target source (get_merge_strategy_for_path path policy)

    -- The loop over the fields of the source, which stops at the first conflict.
    pub merge_members : ContextMergePolicy → Text → Members → Members → Merged Members
    merge_members policy prefix target no_members = merged target
    merge_members policy prefix target (member k v rest) =
        store_member k target (λ t. merge_members policy prefix t rest)
          (elim (get_member k target) [
            | none ↦ merged v
            | some w ↦ merge_field policy (path_of prefix k) w v
          ])

  pub merge_recursive : ContextMergePolicy → Text → Json → Json → Merged Json
  unfolding merge_members merge_array merge_scalar
  merge_recursive policy prefix (object ts) (object ss) =
      with_target object (merge_members policy prefix ts ss)
  merge_recursive policy prefix target (array ys) = merge_array target ys policy.default_strategy
  merge_recursive policy prefix target source = merge_scalar target source policy.default_strategy

  -- A source that is no object is passed over.
  pub merge : ContextMergePolicy → Json → Json → Merged Json
  unfolding merge_recursive
  merge policy target (object ss) = merge_recursive policy [] target (object ss)
  merge policy target _ = merged target
