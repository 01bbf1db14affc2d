-- ===== src/Hooks/Order.antt =====
-- The order in which the hooks of a tool run: `sort` and `matched_hooks`.
use hydra_forge.Prelude.{◌≡◌, false, List, [], ◌∷◌}
use hydra_forge.Prelude.Text.{Text}
use hydra_forge.Hooks.{HookEntry, before}

module _ {H : Type 0} where
  -- No entry goes before the one in front of it.
  abbrev InOrder : HookEntry H → List (HookEntry H) → Type 0
  InOrder e [] = Unit
  InOrder e (f ∷ fs) = (before f e ≡ false) × InOrder f fs

  abbrev pub IsSorted : List (HookEntry H) → Type 0
  IsSorted [] = Unit
  IsSorted (e ∷ es) = InOrder e es
