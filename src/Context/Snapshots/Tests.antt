-- ===== src/Context/Snapshots/Tests.antt =====
-- Runs of the saves and of the limits on small engines.
use hydra_forge.Prelude.{ℕ, ◌≡◌, refl, [], ◌∷◌}
use hydra_forge.Prelude.Text.{codes, same}
use hydra_forge.Context.Snapshots.{
  ContextEngine, new_engine, save_snapshot, get_snapshot, set_snapshot_limits,
}
use hydra_forge.Context.Snapshots.Bound.{Bounded, started, saved, limited, Reachable-Bounded}
use hydra_forge.Prelude.Maps.{insert, lookup, erase}
use hydra_forge.Json.{Json, null}

abbrev one_kb : Json → ℕ
one_kb j = 5

abbrev small : ContextEngine
small = record new_engine { max_snapshots = 1 }

abbrev filled : ContextEngine
filled = record small {
  snapshots = (codes "n", null) ∷ [];
  snapshot_order = codes "n" ∷ [];
  current_total_size_kb = 1;
}

save_run : save_snapshot one_kb (codes "n") null small ≡ filled
unfolding save_snapshot insert
save_run = refl

Reachable-Bounded_example :
    Bounded 1 (save_snapshot one_kb (codes "n") null (set_snapshot_limits one_kb 1 512 new_engine))
unfolding save_snapshot set_snapshot_limits
Reachable-Bounded_example =
    Reachable-Bounded one_kb _ (saved (codes "n") null (limited 1 512 started))

-- A key that is saved twice is counted twice, and the eviction takes off one of the two only.
twice_run :
    set_snapshot_limits one_kb 10 0
      (save_snapshot one_kb (codes "n") null (save_snapshot one_kb (codes "n") null new_engine))
    ≡ record new_engine { max_snapshot_size_kb = 0; current_total_size_kb = 1 }
unfolding set_snapshot_limits save_snapshot insert lookup erase same get_snapshot
twice_run = refl
