-- ===== src/Json.antt =====
-- The values of the JSON library (nlohmann/json), as far as the program takes them apart: its kinds, the
-- fields of objects and the items of arrays. A double is opaque (its bits), and so are printing, parsing
-- and comparison, which are parameters where they are used.
pub mod Fields
use hydra_forge.Prelude.{ℕ, Bool, true, false, ◌||◌, Option, none, some, if◌then◌else◌}
use hydra_forge.Prelude.Int.{ℤ}
use hydra_forge.Prelude.Text.{Text, same}

mutual
  pub data Json : Type 0 where
    null : Json
    boolean : Bool → Json
    integer : ℤ → Json
    double : ℕ → Json
    text : Text → Json
    array : Items → Json
    object : Members → Json

  pub data Items : Type 0 where
    no_items : Items
    item : Json → Items → Items

  -- The members of an object, by their keys.
  pub data Members : Type 0 where
    no_members : Members
    member : Text → Json → Members → Members

abbrev pub is_object : Json → Bool
is_object (object ms) = true
is_object _ = false

abbrev pub is_array : Json → Bool
is_array (array xs) = true
is_array _ = false

-- `find(key)`
unfoldable pub get_member : Text → Members → Option Json
get_member k no_members = none
get_member k (member j v ms) = if same j k then some v else get_member k ms

-- `value[key] = v`
unfoldable pub set_member : Text → Json → Members → Members
set_member k v no_members = member k v no_members
set_member k v (member j w ms) = if same j k then member j v ms else member j w (set_member k v ms)

-- `push_back`
unfoldable pub push_item : Items → Json → Items
push_item no_items v = item v no_items
push_item (item x xs) v = item x (push_item xs v)

-- `std::find` under an equality.
pub has_item : (Json → Json → Bool) → Json → Items → Bool
has_item eq v no_items = false
has_item eq v (item x xs) = eq x v || has_item eq v xs
