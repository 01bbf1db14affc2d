-- ===== src/Tools/Validation/Laws.antt =====
-- What the check of the arguments refuses in each mode (tool_coordinator.cpp).
use hydra_forge.Prelude.{
  ◌≡◌, refl, sym, ap, ◌∙◌, Bool, true, not, List, [], ◌∷◌, ◌++◌, Option, none, some, arith,
  if◌then◌else◌, All, keep_if, Bool-cases, subst, some_inj, ◌⊎◌, inl, inr,
}
use hydra_forge.Prelude.Text.{Text, same, same_iff, codes, starts_with}
use hydra_forge.Json.{Json, Members, text, object, no_members, member, get_member}
use hydra_forge.Governance.{execute}
use hydra_forge.Tools.{ToolMetadata, ValidationMode, strict, warn, ignore}
use hydra_forge.Tools.Guards.{PathPolicy, contains_dangerous}
use hydra_forge.Tools.Schema.{SchemaIssue, validate}
use hydra_forge.Tools.Schema.Laws.{validate-All}
use hydra_forge.Tools.Validation.{
  Args, Checked, passes, refuses, and_then, is_deferred, is_empty, strict_types, required_present,
  get_required_fields, check_type, JsonLibrary, coercion_step, schema_steps, text_at, command_rule,
  path_rule, business_step, sanitize, schema_part, has_path_property, args_object,
}

mismatch-is_deferred :
    (a b : Text) → is_deferred (codes "type mismatch: expected " ++ a ++ b) ≡ true
unfolding is_deferred starts_with
mismatch-is_deferred a b = refl

none_fatal :
    (is : List SchemaIssue)
    → All (λ i. is_deferred i.message ≡ true) is
    → keep_if (λ i. not (is_deferred i.message)) is ≡ []
none_fatal [] h = refl
none_fatal (i ∷ is) (h, hs) = ground (arith, h, none_fatal is hs)

and_then-and_then :
    {A : Type 0} (x : A) (f : A → Checked A) (c : Checked (Unit {0}))
    → and_then (and_then c (λ u. passes x)) f ≡ and_then c (λ u. f x)
and_then-and_then x f (passes u) = refl
and_then-and_then x f (refuses stage reason message) = refl

passes_unit :
    {B : Type 0} (b c : B) (u : Checked (Unit {0}))
    → and_then u (λ v. passes b) ≡ passes c
    → u ≡ passes tt
passes_unit b c (passes u) k = refl
passes_unit b c (refuses stage reason message) k = cc

one_passed :
    {B : Type 0} (b c : B) (u : Checked (Unit {0})) → and_then u (λ v. passes b) ≡ passes c → c ≡ b
one_passed b c (passes u) k = cc
one_passed b c (refuses stage reason message) k = cc

both_passed :
    {B : Type 0} (b c : B) (t u : Checked (Unit {0}))
    → and_then t (λ v. and_then u (λ w. passes b)) ≡ passes c
    → (t ≡ passes tt) × (c ≡ b)
both_passed b c (passes t) u k = (refl, one_passed b c u k)
both_passed b c (refuses stage reason message) u k = cc

second_passed : (t u : Checked (Unit {0})) → and_then t (λ v. u) ≡ passes tt → u ≡ passes tt
second_passed (passes t) u k = k
second_passed (refuses stage reason message) u k = cc

mode_cases : (m : ValidationMode) → (m ≡ ignore) ⊎ ((m ≡ warn) ⊎ (m ≡ strict))
mode_cases ignore = inl refl
mode_cases warn = inr (inl refl)
mode_cases strict = inr (inr refl)

passes_both :
    {A B : Type 0} (c : Checked A) (f : A → Checked (Unit {0})) (g : A → B) (b : B)
    → and_then c (λ a. and_then (f a) (λ u. passes (g a))) ≡ passes b
    → (a : A) × (c ≡ passes a) × (f a ≡ passes tt)
passes_both (refuses stage reason message) f g b h = cc
passes_both (passes a) f g b h = (a, refl, passes_unit (g a) b (f a) h)

module _ (lib : JsonLibrary) where
  All-deferred :
      (schema v : Json)
      → All (λ i. is_deferred i.message ≡ true) (validate lib.dump lib.eq schema v)
  unfolding is_deferred same starts_with
  All-deferred =
      validate-All (λ i. is_deferred i.message ≡ true) lib.dump lib.eq (λ t v path. refl)
        (λ path. refl) (λ path. refl)

  -- Step 1 refuses nothing.
  schema_steps-fatal :
      (schema v : Json)
      → is_empty (keep_if (λ i. not (is_deferred i.message)) (validate lib.dump lib.eq schema v))
        ≡ true
  schema_steps-fatal schema v = ap is_empty (none_fatal _ (All-deferred schema v))

  -- What the validator finds counts in Warn mode only: in Strict mode the arguments pass exactly if the
  -- types of the declared fields fit and the required fields are there, and in Ignore mode if these are
  -- there, whatever enumerations and nested schemas say.
  pub schema_steps-validate :
      (meta : ToolMetadata) (schema : Json) (args : Members)
      → let required =
          and_then
            (required_present meta.name (get_required_fields schema) args)
            (λ u. passes args) in
        (meta.validation_mode ≡ strict
          → schema_steps lib meta schema args
            ≡ and_then (strict_types schema meta.name args) (λ u. required))
        × (meta.validation_mode ≡ ignore → schema_steps lib meta schema args ≡ required)
  unfolding schema_steps coercion_step
  schema_steps-validate meta schema args =
      rw (schema_steps-fatal schema (object args))
        (λ h. rw h (and_then-and_then args _ (strict_types schema meta.name args)), λ h. rw h refl)

  strict_types-passes :
      (schema : Json) (name k : Text) (v : Json) (ms : Members)
      → strict_types schema name ms ≡ passes tt
      → get_member k ms ≡ some v
      → check_type schema k v ≡ true
  unfolding strict_types get_member
  strict_types-passes schema name k v no_members h e = cc
  strict_types-passes schema name k v (member j w ms) h e =
      elim (Bool-cases (check_type schema j w)) [
        | inl p ↦ elim (Bool-cases (same j k)) [
          | inl q ↦
              subst (λ x. check_type schema k x ≡ true) (some_inj w v (rw q at e))
                (subst (λ i. check_type schema i w ≡ true) ((same_iff j k).0 q) p)
          | inr q ↦ strict_types-passes schema name k v ms (rw p at h) (rw q at e)
        ]
        | inr p ↦ let h' = rw p at h in cc
      ]

  -- Without Warn mode the schema's steps leave the arguments as they are.
  schema_steps-kept :
      (meta : ToolMetadata) (schema : Json) (args checked : Members)
      → ¬ (meta.validation_mode ≡ warn)
      → schema_steps lib meta schema args ≡ passes checked
      → (checked ≡ args)
        × (meta.validation_mode ≡ strict → strict_types schema meta.name args ≡ passes tt)
  schema_steps-kept meta schema args checked n h =
      let l = schema_steps-validate meta schema args in
      elim (mode_cases meta.validation_mode) [
        | inl e ↦
            let r = one_passed args checked _ (sym (l.1 e) ∙ h) in
            (r, λ e'. let c : strict ≡ ignore = sym e' ∙ e in cc)
        | inr (inl e) ↦ elim (n e) [ ]
        | inr (inr e) ↦ let r = both_passed args checked _ _ (sym (l.0 e) ∙ h) in (r.1, λ e'. r.0)
      ]

  module _ {R : Type 0} (weakly_canonical : Text → Option Text) (regex_search : R → Text → Bool)
      (policy : PathPolicy R) where
    -- Arguments that pass: what the schema's steps leave, it passes the rules, and it is written back.
    pub sanitize-passes :
        (meta : ToolMetadata) (args out : Args)
        → sanitize weakly_canonical regex_search policy lib meta args ≡ passes out
        → (checked : Members) × (schema_part weakly_canonical regex_search policy lib meta
              meta.input_schema
              (args_object args no_members)
            ≡ passes checked)
          × (business_step weakly_canonical regex_search policy meta checked ≡ passes tt)
    unfolding sanitize
    sanitize-passes meta args out h = passes_both _ _ _ out h

    -- The schema's part, on the schema where there is one.
    schema_part-kept :
        (meta : ToolMetadata) (o : Option Json) (args checked : Members)
        → ¬ (meta.validation_mode ≡ warn)
        → schema_part weakly_canonical regex_search policy lib meta o args ≡ passes checked
        → (checked ≡ args)
          × ((schema : Json)
              → o ≡ some schema
              → meta.validation_mode ≡ strict
              → strict_types schema meta.name args ≡ passes tt)
    schema_part-kept meta none args checked n h = (cc, λ schema e. cc)
    schema_part-kept meta (some schema) args checked n h =
        let r = schema_steps-kept meta schema args checked n h in
        (
          r.0,
          λ s e m.
              subst (λ s. strict_types s meta.name args ≡ passes tt) (some_inj schema s e) (r.1 m),
        )

    business_step-contains_dangerous :
        (meta : ToolMetadata) (checked : Members) (cmd : Text)
        → meta.category ≡ execute
        → text_at (codes "cmd") checked ≡ some cmd
        → contains_dangerous cmd ≡ true
        → ¬ (business_step weakly_canonical regex_search policy meta checked ≡ passes tt)
    unfolding business_step
    business_step-contains_dangerous meta checked cmd x t d b =
        let c =
          second_passed
            (path_rule weakly_canonical regex_search policy (record meta { category = execute })
              (if has_path_property weakly_canonical regex_search policy meta.input_schema
                then text_at (codes "path") checked
                else none))
            (command_rule weakly_canonical regex_search policy (record meta { category = execute })
              (text_at (codes "cmd") checked))
            (rw x at b) in
        let c' = rw t at c in let c'' = rw d at c' in cc

    -- Without Warn mode, no call of a tool of the category Execute passes whose command has a dangerous
    -- pattern, with a schema or without one.
    pub sanitize-contains_dangerous :
        (meta : ToolMetadata) (args out : Args) (cmd : Text)
        → ¬ (meta.validation_mode ≡ warn)
        → meta.category ≡ execute
        → text_at (codes "cmd") (args_object args no_members) ≡ some cmd
        → contains_dangerous cmd ≡ true
        → ¬ (sanitize weakly_canonical regex_search policy lib meta args ≡ passes out)
    sanitize-contains_dangerous meta args out cmd n x t d h =
        let (checked, p, b) = sanitize-passes meta args out h in
        let kept =
          schema_part-kept meta meta.input_schema (args_object args no_members) checked n p in
        business_step-contains_dangerous meta checked cmd x (ap (text_at (codes "cmd")) kept.0 ∙ t)
          d b

    -- In Strict mode, no call passes that gives an argument whose declared type does not fit a text, such as
    -- an integer: the arguments of a call are texts.
    pub sanitize-strict :
        (meta : ToolMetadata) (schema : Json) (args out : Args) (k t : Text)
        → meta.validation_mode ≡ strict
        → meta.input_schema ≡ some schema
        → get_member k (args_object args no_members) ≡ some (text t)
        → sanitize weakly_canonical regex_search policy lib meta args ≡ passes out
        → check_type schema k (text t) ≡ true
    sanitize-strict meta schema args out k t m e g h =
        let (checked, p, b) = sanitize-passes meta args out h in
        let kept =
          schema_part-kept meta meta.input_schema (args_object args no_members) checked
            (λ w. let c : strict ≡ warn = sym m ∙ w in cc) p in
        strict_types-passes schema meta.name k (text t) (args_object args no_members)
          (kept.1 schema e m) g
