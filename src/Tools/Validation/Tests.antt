-- ===== src/Tools/Validation/Tests.antt =====
-- Arguments of a shell tool, with a schema and without one.
use hydra_forge.Prelude.{◌≡◌, refl, Bool, true, false, [], ◌∷◌, none, some}
use hydra_forge.Prelude.Text.{Text, same, codes, contains, starts_with}
use hydra_forge.Json.{
  Json, Members, text, array, object, no_items, item, no_members, member, get_member, set_member,
}
use hydra_forge.Governance.{execute, workflow}
use hydra_forge.Tools.{ToolMetadata, strict}
use hydra_forge.Tools.Guards.{PathPolicy, contains_dangerous}
use hydra_forge.Tools.Schema.{type_is}
use hydra_forge.Prelude.Maps.{insert}
use hydra_forge.Tools.Validation.{
  passes, and_then, JsonLibrary, strict_types, required_present, get_required_fields, schema_steps,
  business_step, json_type_matches, sanitize, check_type,
}
use hydra_forge.Tools.Validation.Laws.{schema_steps-validate, sanitize-contains_dangerous}

abbrev same_text : Json → Json → Bool
same_text (text a) (text b) = same a b
same_text _ _ = false

abbrev lib : JsonLibrary
lib = record { dump = λ j. codes "j"; eq = same_text; stoll = λ s. none; stod = λ s. none }

-- A field `mode` of an enumeration that does not have the value given.
abbrev schema : Json
schema = object (
    member (codes "properties")
      (object (
        member (codes "mode")
          (object (
            member (codes "type") (text (codes "string"))
              (member (codes "enum") (array (item (text (codes "fast")) no_items)) no_members)))
          no_members))
      no_members)

abbrev shell : ToolMetadata
shell = record {
  name = codes "sh";
  description = [];
  domain = codes "os";
  category = execute;
  min_layer = workflow;
  approval = record {
    requires_approval_in_plan = true;
    requires_approval_in_agent = true;
    requires_approval_in_yolo = false;
    force_approval_always = false;
  };
  allowed_layers = [];
  cost_estimate = 0;
  timeout_ms = 30000;
  input_schema = some schema;
  output_schema = none;
  validation_mode = strict;
}

abbrev jail : PathPolicy Text
jail = record { allowed_prefixes = []; denied_patterns = [] }

abbrev slow : Members
slow = member (codes "mode") (text (codes "slow")) no_members

schema_steps-validate_example :
    schema_steps lib shell schema slow
    ≡ and_then (strict_types schema (codes "sh") slow) (λ u.
      and_then (required_present (codes "sh") (get_required_fields schema) slow) (λ v. passes slow))
schema_steps-validate_example = (schema_steps-validate lib shell schema slow).0 refl

sanitize-contains_dangerous_example : ¬ (
    sanitize some contains jail lib shell ((codes "cmd", codes "echo; RM -RF /") ∷ []) ≡ passes [])
unfolding set_member get_member contains_dangerous contains starts_with same
sanitize-contains_dangerous_example =
    sanitize-contains_dangerous lib some contains jail shell
      ((codes "cmd", codes "echo; RM -RF /") ∷ []) [] (codes "echo; RM -RF /") (λ h. cc) refl refl
      refl

slow_passes :
    sanitize some contains jail lib shell ((codes "mode", codes "slow") ∷ [])
    ≡ passes ((codes "mode", codes "slow") ∷ [])
unfolding sanitize strict_types check_type json_type_matches type_is required_present
    get_required_fields business_step set_member get_member same insert
slow_passes = rw ((schema_steps-validate lib shell schema slow).0 refl) refl
