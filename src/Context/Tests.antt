-- ===== src/Context/Tests.antt =====
-- Runs of the merge on small contexts.
use hydra_forge.Prelude.{
  ℕ, ◌≡◌, refl, Bool, true, false, List, [], ◌∷◌, Option, none, some, arith, ◌==◌, if◌then◌else◌,
  length,
}
use hydra_forge.Prelude.Text.{Text, codes, same}
use hydra_forge.Json.{
  Json, Items, Members, null, text, array, object, no_items, item, no_members, member, get_member,
  set_member,
}
use hydra_forge.Context.{ContextMergePolicy, merged, merge, get_merge_strategy_for_path}
use hydra_forge.Context.Merge.{joined_at, merge-get_member}

-- An equality that tells only texts apart.
abbrev same_text : Json → Json → Bool
same_text (text a) (text b) = same a b
same_text _ _ = false

abbrev policy : ContextMergePolicy
policy = record {
  field_policies = (codes "results.*", codes "array_concat") ∷ [];
  default_strategy = codes "error_on_conflict";
}

abbrev left : Members
left = member (codes "a") (text (codes "x")) (
    member (codes "results") (object (member (codes "r") (array (item null no_items)) no_members))
      (member (codes "c") (array no_items) no_members))

abbrev right : Members
right =
    member (codes "results") (object (member (codes "r") (array (item null no_items)) no_members))
      (member (codes "b") (text (codes "y")) no_members)

abbrev both : Members
both = member (codes "a") (text (codes "x")) (
    member (codes "results")
      (object (member (codes "r") (array (item null (item null no_items))) no_members))
      (member (codes "c") (array no_items) (member (codes "b") (text (codes "y")) no_members)))

merge_run : merge same_text policy (object left) (object right) ≡ merged (object both)
unfolding merge get_member same get_merge_strategy_for_path hydra_forge.Prelude.Maps.lookup
    hydra_forge.Prelude.Text.starts_with set_member hydra_forge.Json.push_item
merge_run = refl

merge-get_member_example :
    get_member (codes "results") both
    ≡ joined_at same_text policy
        (codes "results")
        (get_member (codes "results") left)
        (get_member (codes "results") right)
unfolding get_member same
merge-get_member_example =
    merge-get_member same_text policy (codes "results") left right both (refl, (refl, tt)) merge_run
