-- ===== src/Tools/Schema.antt =====
-- `ToolSchemaValidator` (src/common/tools/tool_schema_validator.cpp): the part of JSON Schema that is
-- checked. Printing and comparison of JSON values are the JSON library's, so parameters; the pointer to a
-- place in a value is the list of its steps.
pub mod Laws
use hydra_forge.Prelude.{
  ℕ, suc, Bool, true, false, not, ◌||◌, List, [], ◌∷◌, ◌++◌, Option, none, some, if◌then◌else◌,
}
use hydra_forge.Prelude.Text.{Text, same, codes}
use hydra_forge.Json.{
  Json, Items, Members, null, boolean, integer, double, text, array, object, no_items, item,
  no_members, member, is_object, is_array, get_member, has_item,
}

abbrev pub is_text : Json → Bool
is_text (text t) = true
is_text _ = false

abbrev pub is_integer : Json → Bool
is_integer (integer n) = true
is_integer _ = false

abbrev pub is_number : Json → Bool
is_number (integer n) = true
is_number (double bits) = true
is_number _ = false

abbrev pub is_boolean : Json → Bool
is_boolean (boolean b) = true
is_boolean _ = false

abbrev pub is_null : Json → Bool
is_null null = true
is_null _ = false

-- The two readings of a type's name differ on a name that is none of the seven: `otherwise`.
unfoldable pub type_is : (otherwise : Bool) → Text → Json → Bool
unfolding same
type_is otherwise expected v =
    if same expected (codes "object")
    then is_object v
    else if same expected (codes "array")
    then is_array v
    else if same expected (codes "string")
    then is_text v
    else if same expected (codes "integer")
    then is_integer v
    else if same expected (codes "number")
    then is_number v
    else if same expected (codes "boolean")
    then is_boolean v
    else if same expected (codes "null")
    then is_null v
    else otherwise

pub type_matches : Text → Json → Bool
unfolding type_is
type_matches = type_is false

-- The loop over a list of types, in which only texts count.
pub some_type : (Text → Json → Bool) → Items → Json → Bool
some_type matches no_items v = false
some_type matches (item (text t) ts) v = matches t v || some_type matches ts v
some_type matches (item _ ts) v = some_type matches ts v

pub instance_type_name : Json → Text
instance_type_name (object ms) = codes "object"
instance_type_name (array xs) = codes "array"
instance_type_name (text t) = codes "string"
instance_type_name (integer n) = codes "integer"
instance_type_name (double bits) = codes "number"
instance_type_name (boolean b) = codes "boolean"
instance_type_name null = codes "null"

pub data PathStep : Type 0 where
  key : Text → PathStep
  index : ℕ → PathStep

pub record SchemaIssue : Type 0 where
  pub path : List PathStep
  pub message : Text

abbrev pub issue : List PathStep → Text → List SchemaIssue
issue path message = record { path = path; message = message } ∷ []

abbrev pub has_key : Text → Json → Bool
has_key k (object ms) = elim (get_member k ms) [ none ↦ false | some v ↦ true ]
has_key k _ = false

module _ (dump : Json → Text) (eq : Json → Json → Bool) where
  -- Whether the value of the field `type` of a schema is matched.
  abbrev pub type_ok : Option Json → Json → Bool
  type_ok none instance_json = true
  type_ok (some (text t)) instance_json = type_matches t instance_json
  type_ok (some (array ts)) instance_json = some_type type_matches ts instance_json
  type_ok (some _) instance_json = false

  abbrev pub type_message : Option Json → Json → Text
  type_message none instance_json = []
  type_message (some t) instance_json =
      codes "type mismatch: expected "
      ++ dump t
      ++ codes ", got "
      ++ instance_type_name instance_json

  abbrev pub enum_issues : Option Json → Json → List PathStep → List SchemaIssue
  enum_issues (some (array vs)) instance_json path =
      if has_item eq instance_json vs then [] else issue path (codes "value not in enum")
  enum_issues _ instance_json path = []

  abbrev pub missing_issues : Items → Json → List PathStep → List SchemaIssue
  missing_issues no_items instance_json path = []
  missing_issues (item (text field) fs) instance_json path =
      (if has_key field instance_json
        then []
        else issue (path ++ key field ∷ []) (codes "required field missing"))
      ++ missing_issues fs instance_json path
  missing_issues (item _ fs) instance_json path = missing_issues fs instance_json path

  abbrev pub required_issues : Option Json → Json → List PathStep → List SchemaIssue
  required_issues (some (array fs)) (object ms) path = missing_issues fs (object ms) path
  required_issues _ instance_json path = []

  -- The items of an array, each under one check.
  abbrev pub items_issues :
      (Json → List PathStep → List SchemaIssue) → ℕ → Items → List PathStep → List SchemaIssue
  items_issues check i no_items path = []
  items_issues check i (item x xs) path =
      check x (path ++ index i ∷ []) ++ items_issues check (suc i) xs path

  abbrev pub array_issues :
      (Json → List PathStep → List SchemaIssue) → Json → List PathStep → List SchemaIssue
  array_issues check (array xs) path = items_issues check 0 xs path
  array_issues check _ path = []

  abbrev pub field_issues :
      (Json → List PathStep → List SchemaIssue) → Text → Json → List PathStep → List SchemaIssue
  field_issues check k (object ms) path = elim (get_member k ms) [
    | none ↦ []
    | some v ↦ check v (path ++ key k ∷ [])
  ]
  field_issues check k _ path = []

  mutual
    -- A schema that is no object is skipped; a type that is not matched stops the check.
    pub validate_node : Json → Json → List PathStep → List SchemaIssue
    validate_node (object ms) instance_json path =
        let deeper =
          enum_issues (get_member (codes "enum") ms) instance_json path
          ++ required_issues (get_member (codes "required") ms) instance_json path
          ++ properties_field ms instance_json path
          ++ items_field ms instance_json path in
        if type_ok (get_member (codes "type") ms) instance_json
        then deeper
        else issue path (type_message (get_member (codes "type") ms) instance_json)
    validate_node _ instance_json path = []

    -- The field `properties` of a schema, if it is an object.
    pub properties_field : Members → Json → List PathStep → List SchemaIssue
    properties_field no_members instance_json path = []
    properties_field (member k v ms) instance_json path =
        let here = properties_object v instance_json path in
        let later = properties_field ms instance_json path in
        if same k (codes "properties") then here else later

    pub properties_object : Json → Json → List PathStep → List SchemaIssue
    properties_object (object ps) instance_json path = properties_issues ps instance_json path
    properties_object _ instance_json path = []

    pub properties_issues : Members → Json → List PathStep → List SchemaIssue
    properties_issues no_members instance_json path = []
    properties_issues (member k s ps) instance_json path =
        field_issues (validate_node s) k instance_json path
        ++ properties_issues ps instance_json path

    -- The field `items` of a schema.
    pub items_field : Members → Json → List PathStep → List SchemaIssue
    items_field no_members instance_json path = []
    items_field (member k s ms) instance_json path =
        let here = array_issues (validate_node s) instance_json path in
        let later = items_field ms instance_json path in
        if same k (codes "items") then here else later

  -- `ok` is that the list is empty.
  pub validate : Json → Json → List SchemaIssue
  unfolding validate_node
  validate schema input_args = validate_node schema input_args []
