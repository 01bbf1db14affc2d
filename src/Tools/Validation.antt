-- ===== src/Tools/Validation.antt =====
-- The four steps of the check of arguments in `ToolCoordinator::execute` (src/common/tools/tool_coordinator.cpp):
-- SchemaValidate, Coercion, RequiredField, BusinessRules. The conversions of texts to numbers, printing and
-- comparison of JSON values, the file system and regular expressions are parameters. Of a refusal's
-- metadata the model keeps the stage.
pub mod Laws
mod Tests
use hydra_forge.Prelude.{
  ℕ, Bool, true, false, not, ◌&&◌, ◌||◌, List, [], ◌∷◌, ◌++◌, Option, none, some, if◌then◌else◌,
  ◌==◌, length, any, keep_if,
}
use hydra_forge.Prelude.Int.{ℤ}
use hydra_forge.Prelude.Text.{Text, same, codes, starts_with, text_eq}
use hydra_forge.Prelude.Maps.{insert}
use hydra_forge.Json.{
  Json, Items, Members, null, boolean, integer, double, text, array, object, no_items, item,
  no_members, member, get_member, set_member,
}
use hydra_forge.Governance.{ToolCategory, read_only, write_file, execute, network, state_modify}
use hydra_forge.Tools.{ToolMetadata, ValidationMode, strict, warn, ignore}
use hydra_forge.Tools.Guards.{
  CheckResult, allowed, invalid_path, path_not_in_allowed_prefix, path_matches_denied_pattern,
  PathPolicy, check, contains_dangerous, first_match,
}
use hydra_forge.Tools.Schema.{type_is, some_type, has_key, SchemaIssue, validate}

abbrev pub Args : Type 0
Args = List (Text × Text)

pub data ValidationStage : Type 0 where
  schema_validate coercion required_field business_rules : ValidationStage

pub stage_name : ValidationStage → Text
stage_name schema_validate = codes "schema_validate"
stage_name coercion = codes "coercion"
stage_name required_field = codes "required_field"
stage_name business_rules = codes "business_rules"

-- A type's name that is none of the seven constrains nothing here.
pub json_type_matches : Text → Json → Bool
json_type_matches = type_is true

-- The declaration of a property, where the schema, the properties and it are objects.
abbrev pub properties_of : Json → Option Members
properties_of (object ms) = elim (get_member (codes "properties") ms) [
  | some (object ps) ↦ some ps
  | some _ ↦ none
  | none ↦ none
]
properties_of _ = none

abbrev pub declared : Option Members → Text → Option Members
declared none k = none
declared (some ps) k = elim (get_member k ps) [
  | some (object ds) ↦ some ds
  | some _ ↦ none
  | none ↦ none
]

abbrev pub type_of : Option Members → Option Json
type_of none = none
type_of (some ds) = get_member (codes "type") ds

abbrev pub type_fits : Option Json → Json → Bool
type_fits (some (text t)) v = json_type_matches t v
type_fits (some (array ts)) v = some_type json_type_matches ts v
type_fits _ v = true

pub check_type : Json → Text → Json → Bool
unfolding get_member
check_type schema k v = type_fits (type_of (declared (properties_of schema) k)) v

abbrev pub texts_of : Items → List Text
texts_of no_items = []
texts_of (item (text t) xs) = t ∷ texts_of xs
texts_of (item _ xs) = texts_of xs

abbrev pub required_texts : Option Json → List Text
required_texts (some (array fs)) = texts_of fs
required_texts _ = []

pub get_required_fields : Json → List Text
unfolding get_member
get_required_fields (object ms) = required_texts (get_member (codes "required") ms)
get_required_fields _ = []

-- A refusal: the stage, the reason of the audit event, the message of the result.
pub data Checked (A : Type 0) : Type 0 where
  passes : A → Checked A
  refuses : ValidationStage → (reason message : Text) → Checked A

abbrev pub and_then : {A B : Type 0} → Checked A → (A → Checked B) → Checked B
and_then (passes a) next = next a
and_then (refuses stage reason message) next = refuses stage reason message

abbrev pub args_object : Args → Members → Members
args_object [] ms = ms
args_object ((k, v) ∷ args) ms = args_object args (set_member k (text v) ms)

-- The issues that step 1 leaves to the later steps.
pub is_deferred : Text → Bool
unfolding starts_with same
is_deferred message =
    starts_with (codes "type mismatch") message
    || same message (codes "required field missing")
    || same message (codes "value not in enum")

abbrev pub is_empty : {A : Type 0} → List A → Bool
is_empty [] = true
is_empty (x ∷ xs) = false

-- Step 2 in Strict mode: the first field whose type does not fit.
pub strict_types : Json → Text → Members → Checked (Unit {0})
unfolding check_type
strict_types schema name no_members = passes tt
strict_types schema name (member k v ms) =
    let later = strict_types schema name ms in
    if check_type schema k v
    then later
    else refuses coercion (codes "strict type check failed on field: " ++ k)
        (codes "type mismatch on field '" ++ k ++ codes "' for tool: " ++ name)

-- Step 3.
pub required_present : Text → List Text → Members → Checked (Unit {0})
unfolding get_member
required_present name [] args = passes tt
required_present name (f ∷ fs) args =
    let later = required_present name fs args in
    if has_key f (object args)
    then later
    else refuses required_field (codes "required field missing: " ++ f)
        (codes "required field '" ++ f ++ codes "' missing for tool: " ++ name)

abbrev pub text_at : Text → Members → Option Text
text_at k ms = elim (get_member k ms) [ some (text t) ↦ some t | some _ ↦ none | none ↦ none ]

abbrev pub is_execute : ToolCategory → Bool
is_execute execute = true
is_execute read_only = false
is_execute write_file = false
is_execute network = false
is_execute state_modify = false

pub reason_of : CheckResult → Text
reason_of allowed = codes "allowed"
reason_of invalid_path = codes "invalid_path"
reason_of path_not_in_allowed_prefix = codes "path_not_in_allowed_prefix"
reason_of (path_matches_denied_pattern i) = codes "path_matches_denied_pattern"

-- The library's conversions: `std::stoll` and `std::stod` with the number of characters that they read,
-- `none` an exception.
pub record JsonLibrary : Type 0 where
  pub dump : Json → Text
  pub eq : Json → Json → Bool
  pub stoll : Text → Option (ℤ × ℕ)
  pub stod : Text → Option (ℕ × ℕ)

-- A field's value after the coercion, or the failure of it.
abbrev pub whole_number : {N : Type 0} → (N → Json) → Text → Option (N × ℕ) → Option Json
whole_number f s none = none
whole_number f s (some (n, read)) = if read == length s then some (f n) else none

module _ (lib : JsonLibrary) where
  pub convert : (expected s : Text) → Option Json
  unfolding same
  convert expected s =
      if same expected (codes "integer")
      then whole_number integer s (lib.stoll s)
      else if same expected (codes "number")
      then whole_number double s (lib.stod s)
      else if same expected (codes "boolean")
      then if same s (codes "true")
        then some (boolean true)
        else if same s (codes "false")
        then some (boolean false)
        else none
      else some (text s)

  -- Only texts are converted, to a type that is one name.
  abbrev pub coerce_value : Option Json → Json → Option Json
  coerce_value (some (text expected)) (text s) = convert expected s
  coerce_value _ v = some v

  -- The fields after the coercion, each failed one as it was, and the names of those.
  pub coerce_fields : Option Members → Members → Members × List Text
  unfolding get_member
  coerce_fields ps no_members = (no_members, [])
  coerce_fields ps (member k v ms) =
      let later = coerce_fields ps ms in
      elim (coerce_value (type_of (declared ps k)) v) [
        | some w ↦ (member k w later.0, later.1)
        | none ↦ (member k v later.0, k ∷ later.1)
      ]

  pub coerce_args : Json → Members → Members × List Text
  unfolding coerce_fields
  coerce_args schema args = elim (properties_of schema) [
    | none ↦ (args, [])
    | some ps ↦ coerce_fields (some ps) args
  ]

  -- Step 2 in Warn mode, with the second run of step 1 if it left issues.
  pub warn_types : Json → Text → (deferred : List SchemaIssue) → Members → Checked Members
  unfolding coerce_args
  warn_types schema name deferred args =
      let r = coerce_args schema args in
      if not (is_empty r.1)
      then refuses coercion (codes "coercion_failed") (codes "coercion failed for tool: " ++ name)
      else if not (is_empty deferred)
          && not (is_empty (validate lib.dump lib.eq schema (object r.0)))
      then refuses schema_validate (codes "schema validation failed after coercion")
          (codes "schema validation failed after coercion for tool: " ++ name)
      else passes r.0

  pub coercion_step :
      ValidationMode → Json → Text → (deferred : List SchemaIssue) → Members → Checked Members
  unfolding strict_types
  coercion_step strict schema name deferred args =
      and_then (strict_types schema name args) (λ u. passes args)
  coercion_step warn schema name deferred args = warn_types schema name deferred args
  coercion_step ignore schema name deferred args = passes args

  -- Steps 1 to 3.
  pub schema_steps : ToolMetadata → Json → Members → Checked Members
  unfolding is_deferred coercion_step required_present
  schema_steps meta schema args =
      let issues = validate lib.dump lib.eq schema (object args) in
      let fatal = keep_if (λ i. not (is_deferred i.message)) issues in
      let deferred = keep_if (λ i. is_deferred i.message) issues in
      if is_empty fatal
      then and_then (coercion_step meta.validation_mode schema meta.name deferred args) (λ coerced.
        and_then (required_present meta.name (get_required_fields schema) coerced)
          (λ u. passes coerced))
      else refuses schema_validate (codes "schema validation failed")
          (codes "schema validation failed for tool: " ++ meta.name)

-- Step 4, for the tools of the category Execute; `R` are the regular expressions.
module _ {R : Type 0} (weakly_canonical : Text → Option Text) (regex_search : R → Text → Bool)
    (policy : PathPolicy R) where
  abbrev pub path_refusal : Text → CheckResult → Checked (Unit {0})
  path_refusal name allowed = passes tt
  path_refusal name r =
      refuses business_rules (codes "path policy violation: " ++ reason_of r)
        (codes "path policy violation for tool: " ++ name)

  -- The schema has a property `path`, and the argument is a text.
  abbrev pub path_rule : ToolMetadata → Option Text → Checked (Unit {0})
  path_rule meta none = passes tt
  path_rule meta (some path) =
      path_refusal meta.name (check weakly_canonical regex_search policy path)

  abbrev pub command_rule : ToolMetadata → Option Text → Checked (Unit {0})
  command_rule meta none = passes tt
  command_rule meta (some cmd) =
      if contains_dangerous cmd
      then refuses business_rules (codes "dangerous pattern detected: " ++ first_match cmd)
          (codes "dangerous pattern detected for tool: " ++ meta.name)
      else passes tt

  abbrev pub has_path_property : Option Json → Bool
  has_path_property (some (object ms)) = elim (get_member (codes "properties") ms) [
    | some properties ↦ has_key (codes "path") properties
    | none ↦ false
  ]
  has_path_property _ = false

  pub business_step : ToolMetadata → Members → Checked (Unit {0})
  unfolding get_member
  business_step meta args =
      if is_execute meta.category
      then and_then
          (path_rule meta
            (if has_path_property meta.input_schema then text_at (codes "path") args else none))
          (λ u. command_rule meta (text_at (codes "cmd") args))
      else passes tt

  module _ (lib : JsonLibrary) where
    -- The arguments are written back as texts.
    abbrev pub text_or_dump : Json → Text
    text_or_dump (text t) = t
    text_or_dump v = lib.dump v

    abbrev pub write_back : Members → Args → Args
    write_back no_members args = args
    write_back (member k v ms) args = write_back ms (insert k (text_or_dump v) args)

    abbrev pub schema_part : ToolMetadata → Option Json → Members → Checked Members
    schema_part meta none args = passes args
    schema_part meta (some schema) args = schema_steps lib meta schema args

    pub sanitize : ToolMetadata → Args → Checked Args
    unfolding schema_steps business_step
    sanitize meta args =
        and_then (schema_part meta meta.input_schema (args_object args no_members))
          (λ checked. and_then (business_step meta checked) (λ u. passes (write_back checked args)))
