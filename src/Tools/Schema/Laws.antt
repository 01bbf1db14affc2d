-- ===== src/Tools/Schema/Laws.antt =====
-- The messages of the validator, of which there are three kinds (tool_schema_validator.cpp).
use hydra_forge.Prelude.{
  ℕ, suc, Bool, true, false, List, [], ◌∷◌, ◌++◌, Option, none, some, if◌then◌else◌, All,
  All-append,
}
use hydra_forge.Prelude.Text.{Text, same, codes}
use hydra_forge.Json.{
  Json, Items, Members, text, array, object, no_items, item, no_members, member, get_member,
  has_item,
}
use hydra_forge.Tools.Schema.{
  SchemaIssue, PathStep, key, index, issue, has_key, type_ok, type_message, enum_issues,
  missing_issues, required_issues, items_issues, array_issues, field_issues, validate_node,
  properties_field, properties_object, properties_issues, items_field, validate,
}

module _ (P : SchemaIssue → Type 0) (dump : Json → Text) (eq : Json → Json → Bool)
    (mismatch : (t v : Json) (path : List PathStep)
      → P (record { path = path; message = type_message dump eq (some t) v }))
    (not_in_enum : (path : List PathStep)
      → P (record { path = path; message = codes "value not in enum" }))
    (is_missing : (path : List PathStep)
      → P (record { path = path; message = codes "required field missing" })) where
  All-if :
      (b : Bool) (xs ys : List SchemaIssue) → All P xs → All P ys → All P (if b then xs else ys)
  All-if true xs ys h k = h
  All-if false xs ys h k = k

  type_All :
      (o : Option Json) (v : Json) (path : List PathStep) (deeper : List SchemaIssue)
      → All P deeper
      → All P (if type_ok dump eq o v then deeper else issue path (type_message dump eq o v))
  type_All none v path deeper h = h
  type_All (some t) v path deeper h =
      All-if (type_ok dump eq (some t) v) _ _ h (mismatch t v path, tt)

  enum_All :
      (o : Option Json) (v : Json) (path : List PathStep) → All P (enum_issues dump eq o v path)
  enum_All (some (array vs)) v path = All-if (has_item eq v vs) _ _ tt (not_in_enum path, tt)
  enum_All _ v path = tt

  missing_All :
      (fs : Items) (v : Json) (path : List PathStep) → All P (missing_issues dump eq fs v path)
  missing_All no_items v path = tt
  missing_All (item (text f) fs) v path =
      All-append P _ _ (All-if (has_key f v) _ _ tt (is_missing (path ++ key f ∷ []), tt))
        (missing_All fs v path)
  missing_All (item _ fs) v path = missing_All fs v path

  required_All :
      (o : Option Json) (v : Json) (path : List PathStep) → All P (required_issues dump eq o v path)
  required_All (some (array fs)) (object ms) path = missing_All fs (object ms) path
  required_All _ _ path = tt

  items_All :
      (f : Json → List PathStep → List SchemaIssue)
      → ((v : Json) (path : List PathStep) → All P (f v path))
      → (i : ℕ) (xs : Items) (path : List PathStep) → All P (items_issues dump eq f i xs path)
  items_All f h i no_items path = tt
  items_All f h i (item x xs) path =
      All-append P _ _ (h x (path ++ index i ∷ [])) (items_All f h (suc i) xs path)

  array_All :
      (f : Json → List PathStep → List SchemaIssue)
      → ((v : Json) (path : List PathStep) → All P (f v path))
      → (v : Json) (path : List PathStep) → All P (array_issues dump eq f v path)
  array_All f h (array xs) path = items_All f h 0 xs path
  array_All f h _ path = tt

  found_All :
      (f : Json → List PathStep → List SchemaIssue)
      → ((v : Json) (path : List PathStep) → All P (f v path))
      → (o : Option Json) (path : List PathStep) → All P (elim o [ none ↦ [] | some v ↦ f v path ])
  found_All f h none path = tt
  found_All f h (some v) path = h v path

  field_All :
      (f : Json → List PathStep → List SchemaIssue)
      → ((v : Json) (path : List PathStep) → All P (f v path))
      → (k : Text) (v : Json) (path : List PathStep) → All P (field_issues dump eq f k v path)
  field_All f h k (object ms) path = found_All f h (get_member k ms) (path ++ key k ∷ [])
  field_All f h k _ path = tt

  mutual
    unfolding validate_node properties_field properties_object properties_issues items_field

    validate_node-All : (s v : Json) (path : List PathStep) → All P (validate_node dump eq s v path)
    validate_node-All (object ms) v path = type_All (get_member (codes "type") ms) v path _ (
        All-append P _ _
          (All-append P _ _
            (All-append P _ _ (enum_All (get_member (codes "enum") ms) v path)
              (required_All (get_member (codes "required") ms) v path))
            (properties_field-All ms v path))
          (items_field-All ms v path))
    validate_node-All _ v path = tt

    properties_field-All :
        (ms : Members) (v : Json) (path : List PathStep)
        → All P (properties_field dump eq ms v path)
    properties_field-All no_members v path = tt
    properties_field-All (member k s ms) v path =
        All-if (same k (codes "properties")) _ _ (properties_object-All s v path)
          (properties_field-All ms v path)

    properties_object-All :
        (s v : Json) (path : List PathStep) → All P (properties_object dump eq s v path)
    properties_object-All (object ps) v path = properties_issues-All ps v path
    properties_object-All _ v path = tt

    properties_issues-All :
        (ps : Members) (v : Json) (path : List PathStep)
        → All P (properties_issues dump eq ps v path)
    properties_issues-All no_members v path = tt
    properties_issues-All (member k s ps) v path =
        All-append P _ _ (field_All (validate_node dump eq s) (validate_node-All s) k v path)
          (properties_issues-All ps v path)

    items_field-All :
        (ms : Members) (v : Json) (path : List PathStep) → All P (items_field dump eq ms v path)
    items_field-All no_members v path = tt
    items_field-All (member k s ms) v path =
        All-if (same k (codes "items")) _ _
          (array_All (validate_node dump eq s) (validate_node-All s) v path)
          (items_field-All ms v path)

  pub validate-All : (schema v : Json) → All P (validate dump eq schema v)
  unfolding validate
  validate-All schema v = validate_node-All schema v []
