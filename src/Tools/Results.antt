-- ===== src/Tools/Results.antt =====
-- `ToolResult` and its JSON form (src/core/types/tool_result.{h,cpp}). The conversion of a double to an
-- unsigned number is a parameter.
pub mod Laws
mod Tests
use hydra_forge.Prelude.{
  ℕ, ◌+◌, ◌-◌, ◌%◌, ◌^◌, Bool, true, false, List, [], ◌∷◌, Option, none, some, if◌then◌else◌,
}
use hydra_forge.Prelude.Int.{ℤ, pos, negsuc}
use hydra_forge.Prelude.Text.{Text, same, codes}
use hydra_forge.Json.{
  Json, Members, null, boolean, integer, double, text, array, object, no_members, get_member,
  set_member,
}
use hydra_forge.Tools.{
  ErrorCode, unknown, permission_denied, path_violation, dangerous_command, tool_not_registered,
  retry, skip, abort, audit, timeout, resource_exhausted, sandbox_violation, max_steps_exceeded,
  crash, budget_exhausted, unsupported_platform, invalid_arg, invalid_params, cancelled,
}

pub error_code_to_string : ErrorCode → Text
error_code_to_string unknown = codes "Unknown"
error_code_to_string permission_denied = codes "PermissionDenied"
error_code_to_string path_violation = codes "PathViolation"
error_code_to_string dangerous_command = codes "DangerousCommand"
error_code_to_string tool_not_registered = codes "ToolNotRegistered"
error_code_to_string retry = codes "Retry"
error_code_to_string skip = codes "Skip"
error_code_to_string abort = codes "Abort"
error_code_to_string audit = codes "Audit"
error_code_to_string timeout = codes "Timeout"
error_code_to_string resource_exhausted = codes "ResourceExhausted"
error_code_to_string sandbox_violation = codes "SandboxViolation"
error_code_to_string max_steps_exceeded = codes "MaxStepsExceeded"
error_code_to_string crash = codes "Crash"
error_code_to_string budget_exhausted = codes "BudgetExhausted"
error_code_to_string unsupported_platform = codes "UnsupportedPlatform"
error_code_to_string invalid_arg = codes "InvalidArg"
error_code_to_string invalid_params = codes "InvalidParams"
error_code_to_string cancelled = codes "Cancelled"

abbrev pub named : List (Text × ErrorCode)
named =
    (codes "PermissionDenied", permission_denied)
    ∷ (codes "PathViolation", path_violation)
    ∷ (codes "DangerousCommand", dangerous_command)
    ∷ (codes "ToolNotRegistered", tool_not_registered)
    ∷ (codes "Retry", retry)
    ∷ (codes "Skip", skip)
    ∷ (codes "Abort", abort)
    ∷ (codes "Audit", audit)
    ∷ (codes "Timeout", timeout)
    ∷ (codes "ResourceExhausted", resource_exhausted)
    ∷ (codes "SandboxViolation", sandbox_violation)
    ∷ (codes "MaxStepsExceeded", max_steps_exceeded)
    ∷ (codes "Crash", crash)
    ∷ (codes "BudgetExhausted", budget_exhausted)
    ∷ (codes "UnsupportedPlatform", unsupported_platform)
    ∷ (codes "InvalidArg", invalid_arg)
    ∷ (codes "InvalidParams", invalid_params)
    ∷ (codes "Cancelled", cancelled)
    ∷ []

abbrev pub first_named : List (Text × ErrorCode) → Text → ErrorCode
first_named [] s = unknown
first_named ((name, code) ∷ rest) s =
    let later = first_named rest s in if same s name then code else later

-- A name that is none of the codes' is `Unknown`.
pub string_to_error_code : Text → ErrorCode
unfolding same
string_to_error_code s = first_named named s

pub record ToolResult : Type 0 where
  pub ok : Bool
  pub data_json : Json
  pub meta : Json
  pub error_code : Option ErrorCode
  pub latency_ms : Option ℕ
  pub trace_id : Option Text
  pub parent_trace : Option Text
  pub metadata : Option Json

abbrev pub empty_object : Json
empty_object = object no_members

-- A result without the optional fields.
abbrev pub plain_result : Bool → Json → Json → ToolResult
plain_result ok d m = record {
  ok = ok;
  data_json = d;
  meta = m;
  error_code = none;
  latency_ms = none;
  trace_id = none;
  parent_trace = none;
  metadata = none;
}

abbrev pub success : Json → ToolResult
success d = plain_result true d empty_object

-- `if (!m.is_object()) m = object()`
abbrev pub members_of : Json → Members
members_of (object ms) = ms
members_of _ = no_members

abbrev pub error_meta : ErrorCode → Text → Json → Json
error_meta code msg m = object (
    set_member (codes "error_message") (text msg)
      (set_member (codes "error_code") (text (error_code_to_string code)) (members_of m)))

abbrev pub error : ErrorCode → Text → Json → ToolResult
error code msg m = record (plain_result false empty_object (error_meta code msg m)) {
  error_code = some code;
}

-- A field that is written only if there is a value.
abbrev pub put_some : {A : Type 0} → Text → (A → Json) → Option A → Members → Members
put_some k f none ms = ms
put_some k f (some a) ms = set_member k (f a) ms

abbrev pub json_members : ToolResult → Members
json_members r =
    put_some (codes "metadata") (λ j. j) r.metadata
      (put_some (codes "parent_trace") text r.parent_trace (
        put_some (codes "trace_id") text r.trace_id (
          put_some (codes "latency_ms") (λ n. integer (pos n)) r.latency_ms
            (put_some (codes "error_code") (λ c. text (error_code_to_string c)) r.error_code
              (set_member (codes "meta") r.meta (
                set_member (codes "data") r.data_json
                  (set_member (codes "ok") (boolean r.ok) no_members)))))))

pub to_json : ToolResult → Json
unfolding set_member error_code_to_string
to_json r = object (json_members r)

abbrev pub boolean_or_false : Option Json → Bool
boolean_or_false (some (boolean b)) = b
boolean_or_false _ = false

abbrev pub text_of : Option Json → Option Text
text_of (some (text t)) = some t
text_of _ = none

abbrev pub code_of : Option Json → Option ErrorCode
code_of (some (text t)) = some (string_to_error_code t)
code_of _ = none

-- `get<std::uint64_t>` of a number.
abbrev pub unsigned_of : (real_to_unsigned : ℕ → ℕ) → Option Json → Option ℕ
unsigned_of real_to_unsigned (some (integer (pos n))) = some (n % 2 ^ 64)
unsigned_of real_to_unsigned (some (integer (negsuc n))) = some (2 ^ 64 - (n % 2 ^ 64 + 1))
unsigned_of real_to_unsigned (some (double bits)) = some (real_to_unsigned bits)
unsigned_of real_to_unsigned _ = none

abbrev pub or_else : Json → Option Json → Json
or_else d none = d
or_else d (some j) = j

-- The message of a field `error` is written into the metadata unless there is one. `none`: the write
-- throws, as the metadata are neither an object nor null.
abbrev pub bridge_error : Option Text → Json → Option Json
bridge_error none m = some m
bridge_error (some msg) null =
    some (object (set_member (codes "error_message") (text msg) no_members))
bridge_error (some msg) (object ms) = elim (get_member (codes "error_message") ms) [
  | some v ↦ some (object ms)
  | none ↦ some (object (set_member (codes "error_message") (text msg) ms))
]
bridge_error (some msg) _ = none

-- The result from the fields of an object, the metadata as `bridge_error` leaves them.
abbrev pub with_fields :
    (real_to_unsigned : ℕ → ℕ) (whole : Json)
    (ok data_json error_code latency_ms trace_id parent_trace metadata meta : Option Json)
    → Option ToolResult
with_fields real_to_unsigned whole ok data_json error_code latency_ms trace_id parent_trace metadata
      none =
    none
with_fields real_to_unsigned whole ok data_json error_code latency_ms trace_id parent_trace metadata
      (some m) =
    some (record {
      ok = boolean_or_false ok;
      data_json = or_else whole data_json;
      meta = m;
      error_code = code_of error_code;
      latency_ms = unsigned_of real_to_unsigned latency_ms;
      trace_id = text_of trace_id;
      parent_trace = text_of parent_trace;
      metadata = metadata;
    })

-- `none`: an exception of the JSON library.
pub from_json : (real_to_unsigned : ℕ → ℕ) → Json → Option ToolResult
unfolding get_member string_to_error_code
from_json real_to_unsigned (object ms) =
    with_fields real_to_unsigned (object ms) (get_member (codes "ok") ms)
      (get_member (codes "data") ms) (get_member (codes "error_code") ms)
      (get_member (codes "latency_ms") ms) (get_member (codes "trace_id") ms)
      (get_member (codes "parent_trace") ms) (get_member (codes "metadata") ms)
      (bridge_error (text_of (get_member (codes "error") ms))
        (or_else empty_object (get_member (codes "meta") ms)))
from_json real_to_unsigned _ = some (plain_result false empty_object empty_object)
