-- ===== src/Tools/Results/Tests.antt =====
-- A result with all fields, and one that a tool of a plug-in gives.
use hydra_forge.Prelude.{◌≡◌, some, arith, subst, some_inj, ◌<◌, ◌^◌}
use hydra_forge.Prelude.Text.{codes}
use hydra_forge.Json.{text}
use hydra_forge.Tools.{timeout}
use hydra_forge.Tools.Results.{ToolResult, error, empty_object, to_json, from_json}
use hydra_forge.Tools.Results.Laws.{from_json-to_json}

abbrev late : ToolResult
late = record (error timeout (codes "late") empty_object) {
  latency_ms = some 250;
  trace_id = some (codes "t");
  metadata = some (text (codes "m"));
}

from_json-to_json_example : from_json (λ bits. 0) (to_json late) ≡ some late
from_json-to_json_example =
    from_json-to_json (λ bits. 0) late
      (λ n h. subst (λ k. k < 2 ^ 64) (some_inj 250 n h) (omega arith))
