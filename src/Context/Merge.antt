-- ===== src/Context/Merge.antt =====
-- What a merge of two objects holds under each key (`merge_recursive` of context_engine.cpp).
use hydra_forge.Prelude.{
  ◌≡◌, refl, sym, ap, ◌∙◌, Bool, true, false, [], Option, none, some, if◌then◌else◌, Bool-cases,
  inl, inr,
}
use hydra_forge.Prelude.Text.{Text, same, same_iff, codes}
use hydra_forge.Json.{
  Json, Items, Members, no_members, member, object, array, get_member, set_member,
}
use hydra_forge.Json.Fields.{get_member-set_member}
use hydra_forge.Context.{
  ContextMergePolicy, Merged, merged, conflict, with_target, path_of, store_member, merge_array,
  merge_field, merge_members, merge_recursive, merge, get_merge_strategy_for_path,
}

-- An object has each key once.
abbrev pub Distinct : Members → Type 0
Distinct no_members = Unit
Distinct (member k v ms) = (get_member k ms ≡ none) × Distinct ms

abbrev pub value_of : Merged Json → Option Json
value_of (merged v) = some v
value_of (conflict v) = none

object_merged :
    {us : Members} (m : Merged Members) → with_target object m ≡ merged (object us) → m ≡ merged us
object_merged (merged ts) h = cc
object_merged (conflict ts) h = cc

not_merged :
    {u : Json} (m : Merged Members)
    → ((us : Members) → ¬ (m ≡ merged us))
    → ¬ (with_target object m ≡ merged u)
not_merged (merged ts) h g = h ts refl
not_merged (conflict ts) h g = cc

module _ (eq : Json → Json → Bool) (policy : ContextMergePolicy) where
  abbrev pub field_of : Text → Json → Option Json → Merged Json
  field_of path v none = merged v
  field_of path v (some w) = merge_field eq policy path w v

  -- What one key comes to: the only value, or the merge of the two.
  abbrev pub joined_at : Text → Option Json → Option Json → Option Json
  joined_at path t none = t
  joined_at path t (some v) = value_of (field_of path v t)

  merge_members-member :
      (prefix k : Text) (v : Json) (ts rest : Members)
      → merge_members eq policy prefix ts (member k v rest)
        ≡ store_member eq k ts
            (λ t. merge_members eq policy prefix t rest)
            (field_of (path_of prefix k) v (get_member k ts))
  unfolding merge_members merge_field
  merge_members-member prefix k v ts rest = elim (get_member k ts) [ none ↦ refl | some w ↦ refl ]

  -- The first field of the source, from what the rest of the loop does.
  module _ (prefix k j : Text) (v : Json) (ts rest us : Members) where
    same_key :
        {u : Json}
        → same j k ≡ true
        → get_member j rest ≡ none
        → get_member k us ≡ joined_at (path_of prefix k) (some u) (get_member k rest)
        → field_of (path_of prefix j) v (get_member j ts) ≡ merged u
        → get_member k us
          ≡ joined_at (path_of prefix k) (get_member k ts) (get_member k (member j v rest))
    unfolding get_member
    same_key {u} q d l e =
        let p = (same_iff j k).0 q in
        l
        ∙ ap (joined_at (path_of prefix k) (some u)) (ap (λ i. get_member i rest) (sym p) ∙ d)
        ∙ ap value_of (sym e)
        ∙ ap (λ i. value_of (field_of (path_of prefix i) v (get_member i ts))) p
        ∙ ap
            (λ b.
              joined_at (path_of prefix k) (get_member k ts)
                (if b then some v else get_member k rest))
            (sym q)

    first_field :
        (m : Merged Json)
        → get_member j rest ≡ none
        → ((u : Json)
            → merge_members eq policy prefix (set_member j u ts) rest ≡ merged us
            → get_member k us
              ≡ joined_at (path_of prefix k) (get_member k (set_member j u ts)) (get_member k rest))
        → field_of (path_of prefix j) v (get_member j ts) ≡ m
        → store_member eq j ts (λ t. merge_members eq policy prefix t rest) m ≡ merged us
        → get_member k us
          ≡ joined_at (path_of prefix k) (get_member k ts) (get_member k (member j v rest))
    unfolding get_member
    first_field (conflict u) d later e g = cc
    first_field (merged u) d later e g =
        let l =
          later u g
          ∙ ap (λ t. joined_at (path_of prefix k) t (get_member k rest))
              (get_member-set_member k j u ts) in
        elim (Bool-cases (same j k)) [
          | inl q ↦ same_key q d (rw q at l) e
          | inr q ↦ rw q (rw q at l)
        ]

  pub merge_members-get_member :
      (prefix k : Text) (ts ss us : Members)
      → Distinct ss
      → merge_members eq policy prefix ts ss ≡ merged us
      → get_member k us ≡ joined_at (path_of prefix k) (get_member k ts) (get_member k ss)
  unfolding merge_members get_member
  merge_members-get_member prefix k ts no_members us d h = cc
  merge_members-get_member prefix k ts (member j v rest) us d h =
      first_field prefix k j v ts rest us (field_of (path_of prefix j) v (get_member j ts)) d.0
        (λ u. merge_members-get_member prefix k (set_member j u ts) rest us d.1) refl
        (sym (merge_members-member prefix j v ts rest) ∙ h)

  module _ (prefix k j : Text) (x v w : Json) (ts rest us : Members) where
    stopped_here :
        j ≡ k
        → some x ≡ some v
        → field_of (path_of prefix k) v (get_member k ts) ≡ conflict w
        → ¬ (
            store_member eq j ts
              (λ t. merge_members eq policy prefix t rest)
              (field_of (path_of prefix j) x (get_member j ts))
            ≡ merged us)
    stopped_here p e q g =
        let e' : x ≡ v = cc in
        let q' =
          ap (λ i. field_of (path_of prefix i) x (get_member i ts)) p
          ∙ ap (λ y. field_of (path_of prefix k) y (get_member k ts)) e'
          ∙ q in
        let g' = rw q' at g in cc

    stopped_at :
        (m : Merged Json)
        → ((u : Json)
            → field_of (path_of prefix k) v (get_member k (set_member j u ts)) ≡ conflict w
            → ¬ (merge_members eq policy prefix (set_member j u ts) rest ≡ merged us))
        → same j k ≡ false
        → field_of (path_of prefix k) v (get_member k ts) ≡ conflict w
        → ¬ (store_member eq j ts (λ t. merge_members eq policy prefix t rest) m ≡ merged us)
    stopped_at (conflict u) later d q g = cc
    stopped_at (merged u) later d q g =
        later u
          (ap (field_of (path_of prefix k) v)
              (get_member-set_member k j u ts ∙ ap (λ b. if b then some u else get_member k ts) d)
            ∙ q)
          g

  -- A field that cannot be joined stops the merge, whatever the other fields are.
  pub merge_members-conflict :
      (prefix k : Text) (ts ss : Members) (v w : Json)
      → (us : Members) → get_member k ss ≡ some v
      → field_of (path_of prefix k) v (get_member k ts) ≡ conflict w
      → ¬ (merge_members eq policy prefix ts ss ≡ merged us)
  unfolding merge_members get_member
  merge_members-conflict prefix k ts no_members v w us p q h = cc
  merge_members-conflict prefix k ts (member j x rest) v w us p q h =
      let g = sym (merge_members-member prefix j x ts rest) ∙ h in
      elim (Bool-cases (same j k)) [
        | inl d ↦ stopped_here prefix k j x v w ts rest us ((same_iff j k).0 d) (rw d at p) q g
        | inr d ↦
            stopped_at prefix k j x v w ts rest us _
              (λ u. merge_members-conflict prefix k (set_member j u ts) rest v w us (rw d at p)) d q
              g
      ]

  -- The merge of two objects that does not throw holds under each key: the target's value if the source
  -- has no such key, the source's if the target has none, and else the merge of the two values under the
  -- key as path; no key's result depends on the other keys. The source has each key once.
  pub merge-get_member :
      (k : Text) (ts ss us : Members)
      → Distinct ss
      → merge eq policy (object ts) (object ss) ≡ merged (object us)
      → get_member k us ≡ joined_at k (get_member k ts) (get_member k ss)
  unfolding merge merge_recursive
  merge-get_member k ts ss us d h =
      merge_members-get_member [] k ts ss us d (object_merged (merge_members eq policy [] ts ss) h)

  array_stops :
      (k : Text) (xs ys : Items)
      → get_merge_strategy_for_path k policy ≡ codes "error_on_conflict"
      → merge_field eq policy k (array xs) (array ys) ≡ conflict (array xs)
  unfolding merge_field merge_array same
  array_stops k xs ys s = ap (merge_array eq (array xs) ys) s ∙ refl

  -- Under the strategy `error_on_conflict` for a key, a merge throws as soon as both sides have an array
  -- under the key, also if the two arrays are equal.
  pub merge-error_on_conflict :
      (k : Text) (ts ss : Members) (xs ys : Items) (u : Json)
      → get_merge_strategy_for_path k policy ≡ codes "error_on_conflict"
      → get_member k ts ≡ some (array xs)
      → get_member k ss ≡ some (array ys)
      → ¬ (merge eq policy (object ts) (object ss) ≡ merged u)
  unfolding merge merge_recursive
  merge-error_on_conflict k ts ss xs ys u s p q h =
      not_merged (merge_members eq policy [] ts ss)
        (λ us.
          merge_members-conflict [] k ts ss (array ys) (array xs) us q
            (ap (field_of k (array ys)) p ∙ array_stops k xs ys s))
        h
