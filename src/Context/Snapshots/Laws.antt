-- ===== src/Context/Snapshots/Laws.antt =====
-- Limits, eviction and look-up of the snapshots (context_engine.cpp).
use hydra_forge.Prelude.{ℕ, ◌≡◌, refl, ◌≤◌, List, [], ◌∷◌, some, arith, if◌then◌else◌, length}
use hydra_forge.Prelude.Maps.{lookup-insert}
use hydra_forge.Prelude.Text.{Text, text_eq, same}
use hydra_forge.Json.{Json}
use hydra_forge.Context.Snapshots.Bound.{length-insert}
use hydra_forge.Context.Snapshots.{
  ContextEngine, get_snapshot, over_limits, evict, enforce_snapshot_budget, no_room, store_snapshot,
  save_snapshot, estimate_json_size_kb,
}

-- The limits are kept.
abbrev pub Within : ContextEngine → Type 0
Within e =
    (length e.snapshots ≤ e.max_snapshots) × (e.current_total_size_kb ≤ e.max_snapshot_size_kb)

module _ (printed_size : Json → ℕ) where
  evict-Within :
      (keys : List Text) (e : ContextEngine)
      → Within e
      → evict printed_size keys e ≡ record e { snapshot_order = keys }
  unfolding evict
  evict-Within [] e w = refl
  evict-Within (key ∷ keys) e w = ground (arith, over_limits e)

  -- With limits that are kept, the eviction has nothing to do.
  save_snapshot-kept :
      (key : Text) (ctx : Json) (e : ContextEngine)
      → Within e
      → save_snapshot printed_size key ctx e ≡ (
          if no_room printed_size (estimate_json_size_kb printed_size ctx) e
          then e
          else store_snapshot printed_size key ctx e)
  unfolding save_snapshot enforce_snapshot_budget
  save_snapshot-kept key ctx e w = rw (evict-Within e.snapshot_order e w) (ground arith)

  -- Once the number of snapshots is at its limit, saving one more changes nothing: no older snapshot
  -- is evicted for it, and it is not stored itself.
  pub save_snapshot-full :
      (key : Text) (ctx : Json) (e : ContextEngine)
      → Within e
      → e.max_snapshots ≤ length e.snapshots
      → save_snapshot printed_size key ctx e ≡ e
  save_snapshot-full key ctx e w h = rw (save_snapshot-kept key ctx e w) (ground arith)

  -- Saving keeps the number of the snapshots and the sum of their sizes within the limits.
  pub save_snapshot-Within :
      (key : Text) (ctx : Json) (e : ContextEngine)
      → Within e
      → Within (save_snapshot printed_size key ctx e)
  save_snapshot-Within key ctx e w =
      rw (save_snapshot-kept key ctx e w) (ground (arith, length-insert key ctx e.snapshots))

  -- From limits that are kept, the snapshot that is saved is found under its key if there was room for
  -- it, those of other keys stay, and without room nothing changes.
  pub get_snapshot-save_snapshot :
      (key other : Text) (ctx : Json) (e : ContextEngine)
      → Within e
      → get_snapshot other (save_snapshot printed_size key ctx e) ≡ (
          if no_room printed_size (estimate_json_size_kb printed_size ctx) e
          then get_snapshot other e
          else if same key other
          then some ctx
          else get_snapshot other e)
  unfolding get_snapshot
  get_snapshot-save_snapshot key other ctx e w =
      rw (save_snapshot-kept key ctx e w) (ground (arith, lookup-insert key other ctx e.snapshots))
