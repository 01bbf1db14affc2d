-- ===== src/Tools/Results/Laws.antt =====
-- The JSON form of a tool's result is read back (tool_result.cpp).
use hydra_forge.Prelude.{ℕ, ◌≡◌, refl, ap, Option, none, some, arith, ◌<◌, ◌^◌, if◌then◌else◌}
use hydra_forge.Prelude.Text.{Text, same, codes}
use hydra_forge.Prelude.Int.{pos}
use hydra_forge.Json.{Json, Members, boolean, integer, text, get_member}
use hydra_forge.Json.Fields.{get_member-set_member}
use hydra_forge.Tools.{
  ErrorCode, unknown, permission_denied, path_violation, dangerous_command, tool_not_registered,
  retry, skip, abort, audit, timeout, resource_exhausted, sandbox_violation, max_steps_exceeded,
  crash, budget_exhausted, unsupported_platform, invalid_arg, invalid_params, cancelled,
}
use hydra_forge.Tools.Results.{
  ToolResult, error_code_to_string, string_to_error_code, put_some, json_members, to_json,
  from_json, unsigned_of, code_of, text_of,
}

string_to_error_code-error_code_to_string :
    (c : ErrorCode) → string_to_error_code (error_code_to_string c) ≡ c
unfolding string_to_error_code error_code_to_string
string_to_error_code-error_code_to_string unknown = refl
string_to_error_code-error_code_to_string permission_denied = refl
string_to_error_code-error_code_to_string path_violation = refl
string_to_error_code-error_code_to_string dangerous_command = refl
string_to_error_code-error_code_to_string tool_not_registered = refl
string_to_error_code-error_code_to_string retry = refl
string_to_error_code-error_code_to_string skip = refl
string_to_error_code-error_code_to_string abort = refl
string_to_error_code-error_code_to_string audit = refl
string_to_error_code-error_code_to_string timeout = refl
string_to_error_code-error_code_to_string resource_exhausted = refl
string_to_error_code-error_code_to_string sandbox_violation = refl
string_to_error_code-error_code_to_string max_steps_exceeded = refl
string_to_error_code-error_code_to_string crash = refl
string_to_error_code-error_code_to_string budget_exhausted = refl
string_to_error_code-error_code_to_string unsupported_platform = refl
string_to_error_code-error_code_to_string invalid_arg = refl
string_to_error_code-error_code_to_string invalid_params = refl
string_to_error_code-error_code_to_string cancelled = refl

abbrev pub found : {A : Type 0} → (A → Json) → Option A → Option Json → Option Json
found f none later = later
found f (some a) later = some (f a)

get_member-put_some :
    {A : Type 0} (j k : Text) (f : A → Json) (o : Option A) (ms : Members)
    → get_member j (put_some k f o ms)
      ≡ (if same k j then found f o (get_member j ms) else get_member j ms)
get_member-put_some j k f none ms = ground arith
get_member-put_some j k f (some a) ms = get_member-set_member j k (f a) ms

-- The fields of the JSON form.
module _ (r : ToolResult) where
  reads_ok : get_member (codes "ok") (json_members r) ≡ some (boolean r.ok)
  unfolding same get_member
  reads_ok = simp (get_member-put_some, get_member-set_member) refl

  reads_data : get_member (codes "data") (json_members r) ≡ some r.data_json
  unfolding same get_member
  reads_data = simp (get_member-put_some, get_member-set_member) refl

  reads_meta : get_member (codes "meta") (json_members r) ≡ some r.meta
  unfolding same get_member
  reads_meta = simp (get_member-put_some, get_member-set_member) refl

  reads_error : get_member (codes "error") (json_members r) ≡ none
  unfolding same get_member
  reads_error = simp (get_member-put_some, get_member-set_member) refl

  reads_error_code :
      get_member (codes "error_code") (json_members r)
      ≡ found (λ c. text (error_code_to_string c)) r.error_code none
  unfolding same get_member
  reads_error_code = simp (get_member-put_some, get_member-set_member) refl

  reads_latency_ms :
      get_member (codes "latency_ms") (json_members r)
      ≡ found (λ n. integer (pos n)) r.latency_ms none
  unfolding same get_member
  reads_latency_ms = simp (get_member-put_some, get_member-set_member) refl

  reads_trace_id : get_member (codes "trace_id") (json_members r) ≡ found text r.trace_id none
  unfolding same get_member
  reads_trace_id = simp (get_member-put_some, get_member-set_member) refl

  reads_parent_trace :
      get_member (codes "parent_trace") (json_members r) ≡ found text r.parent_trace none
  unfolding same get_member
  reads_parent_trace = simp (get_member-put_some, get_member-set_member) refl

  reads_metadata : get_member (codes "metadata") (json_members r) ≡ found (λ j. j) r.metadata none
  unfolding same get_member
  reads_metadata = simp (get_member-put_some, get_member-set_member) refl

text_of-found : (o : Option Text) → text_of (found text o none) ≡ o
text_of-found none = refl
text_of-found (some t) = refl

found-none : (o : Option Json) → found (λ j. j) o none ≡ o
found-none none = refl
found-none (some j) = refl

code_of-found :
    (o : Option ErrorCode) → code_of (found (λ c. text (error_code_to_string c)) o none) ≡ o
code_of-found none = refl
code_of-found (some c) = ap some (string_to_error_code-error_code_to_string c)

unsigned_of-found :
    (f : ℕ → ℕ) (o : Option ℕ)
    → ((n : ℕ) → o ≡ some n → n < 2 ^ 64)
    → unsigned_of f (found (λ n. integer (pos n)) o none) ≡ o
unsigned_of-found f none w = refl
unsigned_of-found f (some n) w = let l = w n refl in ap some (omega arith)

-- The latency of a result is a 64-bit number.
abbrev pub WellFormed : ToolResult → Type 0
WellFormed r = (n : ℕ) → r.latency_ms ≡ some n → n < 2 ^ 64

-- A well-formed result is read back from its JSON form as it was, all optional fields included.
pub from_json-to_json :
    (real_to_unsigned : ℕ → ℕ) (r : ToolResult)
    → WellFormed r
    → from_json real_to_unsigned (to_json r) ≡ some r
unfolding from_json to_json
from_json-to_json f r w =
    rw
      (
        reads_ok r,
        reads_data r,
        reads_meta r,
        reads_error r,
        reads_error_code r,
        reads_latency_ms r,
        reads_trace_id r,
        reads_parent_trace r,
        reads_metadata r,
        text_of-found r.trace_id,
        text_of-found r.parent_trace,
        found-none r.metadata,
        code_of-found r.error_code,
        unsigned_of-found f r.latency_ms w,
      )
      refl
