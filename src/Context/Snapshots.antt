-- ===== src/Context/Snapshots.antt =====
-- The snapshots of `ContextEngine` (src/modules/context/context_engine.{h,cpp}): `save_snapshot`,
-- `get_snapshot`, `enforce_snapshot_budget`, `set_snapshot_limits`, `execute_with_snapshot`. The length of
-- a printed value is the JSON library's, a parameter; sums of sizes wrap as `size_t`.
pub mod Laws
pub mod Bound
mod Tests
use hydra_forge.Prelude.{
  ℕ, ◌+◌, ◌-◌, ◌/◌, ◌%◌, ◌^◌, Bool, true, false, ◌||◌, List, [], ◌∷◌, ◌++◌, Option, none, some,
  if◌then◌else◌, ltb, leb, length,
}
use hydra_forge.Prelude.Maps.{lookup, insert, erase}
use hydra_forge.Prelude.Text.{Text, text_eq}
use hydra_forge.Json.{Json}

pub record ContextEngine : Type 0 where
  pub snapshots : List (Text × Json)
  pub snapshot_order : List Text
  pub max_snapshots : ℕ
  pub max_snapshot_size_kb : ℕ
  pub current_total_size_kb : ℕ

abbrev pub new_engine : ContextEngine
new_engine = record {
  snapshots = [];
  snapshot_order = [];
  max_snapshots = 10;
  max_snapshot_size_kb = 512;
  current_total_size_kb = 0;
}

pub get_snapshot : Text → ContextEngine → Option Json
unfolding lookup
get_snapshot key e = lookup key e.snapshots

-- The test of the eviction loop.
abbrev pub over_limits : ContextEngine → Bool
over_limits e =
    ltb e.max_snapshots (length e.snapshots) || ltb e.max_snapshot_size_kb e.current_total_size_kb

module _ (printed_size : Json → ℕ) where
  abbrev pub estimate_json_size_kb : Json → ℕ
  estimate_json_size_kb j = (printed_size j + 1023) / 1024

  -- The oldest key is taken from the order; the value, if it is still there, goes too.
  abbrev pub drop_value : Text → Option Json → ContextEngine → ContextEngine
  drop_value key none e = e
  drop_value key (some v) e = record e {
    current_total_size_kb = (e.current_total_size_kb + 2 ^ 64 - estimate_json_size_kb v) % 2 ^ 64;
    snapshots = erase key e.snapshots;
  }

  -- The loop, on the keys that are left in the order.
  unfoldable evict : List Text → ContextEngine → ContextEngine
  unfolding get_snapshot
  evict [] e = record e { snapshot_order = [] }
  evict (key ∷ keys) e =
      let rest = evict keys (drop_value key (get_snapshot key e) e) in
      if over_limits e then rest else record e { snapshot_order = key ∷ keys }

  pub enforce_snapshot_budget : ContextEngine → ContextEngine
  unfolding evict
  enforce_snapshot_budget e = evict e.snapshot_order e

  abbrev pub no_room : ℕ → ContextEngine → Bool
  no_room size e =
      leb e.max_snapshots (length e.snapshots)
      || ltb e.max_snapshot_size_kb ((e.current_total_size_kb + size) % 2 ^ 64)

  abbrev pub store_snapshot : Text → Json → ContextEngine → ContextEngine
  store_snapshot key ctx e = record e {
    snapshots = insert key ctx e.snapshots;
    snapshot_order = e.snapshot_order ++ key ∷ [];
    current_total_size_kb = (e.current_total_size_kb + estimate_json_size_kb ctx) % 2 ^ 64;
  }

  pub save_snapshot : Text → Json → ContextEngine → ContextEngine
  unfolding enforce_snapshot_budget
  save_snapshot key ctx e =
      let size = estimate_json_size_kb ctx in
      let enforced = enforce_snapshot_budget e in
      if no_room size e
      then if no_room size enforced then enforced else store_snapshot key ctx enforced
      else store_snapshot key ctx e

  pub set_snapshot_limits : (max_count max_size_kb : ℕ) → ContextEngine → ContextEngine
  unfolding enforce_snapshot_budget
  set_snapshot_limits max_count max_size_kb e =
      enforce_snapshot_budget
        (record e { max_snapshots = max_count; max_snapshot_size_kb = max_size_kb })

  -- The new context, the key of the snapshot where there is one, and the engine. The snapshot is of the
  -- context before the run.
  pub execute_with_snapshot :
      (execute_func : Json → Json) (ctx : Json) (need_snapshot : Bool) (path : Text)
      → ContextEngine
      → Json × Option Text × ContextEngine
  unfolding save_snapshot
  execute_with_snapshot execute_func ctx need_snapshot path e =
      if need_snapshot
      then (execute_func ctx, some path, save_snapshot path ctx e)
      else (execute_func ctx, none, e)
