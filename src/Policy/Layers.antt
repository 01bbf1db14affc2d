-- ===== src/Policy/Layers.antt =====
-- Names of layers, and the two tables of what a layer may call (layer_profile.cpp).
use hydra_forge.Prelude.{◌≡◌, ◌≢◌, refl, ◌↔◌, ◌⊎◌, true, List, [], ◌∷◌, none, some, arith, All, map}
use hydra_forge.Prelude.Text.{Text, codes}
use hydra_forge.Governance.{ToolCategory, read_only, write_file, LayerProfile, thinking, cognitive}
use hydra_forge.Policy.{
  tolower, iequals, parse_layer, layer_to_string, check_layer_permission, allowed_at_registration,
  check_registration_permission,
}

iequals_iff : (a b : Text) → (iequals a b ≡ true) ↔ (map tolower a ≡ map tolower b)
unfolding iequals
iequals_iff [] [] = (λ h. refl, λ h. refl)
iequals_iff [] (b ∷ t) = (λ h. cc, λ h. cc)
iequals_iff (a ∷ s) [] = (λ h. cc, λ h. cc)
iequals_iff (a ∷ s) (b ∷ t) = ground (arith, iequals_iff s t)

-- `parse_layer` returns a layer exactly for the texts that are the layer's name up to the case of the
-- letters, and throws for every other text.
pub parse_layer_iff :
    (s : Text) (l : LayerProfile) → (parse_layer s ≡ some l) ↔ (map tolower s ≡ layer_to_string l)
unfolding parse_layer layer_to_string
parse_layer_iff s l = ground (
  arith,
  iequals_iff s (codes "workflow"),
  iequals_iff s (codes "thinking"),
  iequals_iff s (codes "cognitive"),
)

-- Registering a tool passes exactly if every layer on its list is allowed the tool's category.
check_registration_permission_iff :
    (ls : List LayerProfile) (category : ToolCategory)
    → (check_registration_permission ls category ≡ none)
      ↔ All (λ l. allowed_at_registration l category ≡ true) ls
unfolding check_registration_permission
check_registration_permission_iff [] category = ground arith
check_registration_permission_iff (l ∷ ls) category =
    ground (arith, check_registration_permission_iff ls category)

-- The table of the calls and the table of the registrations differ at `thinking` with `write_file` and
-- at `cognitive` with `read_only`, and nowhere else.
pub tables-differ_iff :
    (l : LayerProfile) (category : ToolCategory)
    → (check_layer_permission l category ≢ allowed_at_registration l category)
      ↔ (((l ≡ thinking) × (category ≡ write_file)) ⊎ ((l ≡ cognitive) × (category ≡ read_only)))
unfolding check_layer_permission
tables-differ_iff l category = ground arith
