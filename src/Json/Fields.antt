-- ===== src/Json/Fields.antt =====
-- Reading a member after writing one.
use hydra_forge.Prelude.{◌≡◌, refl, some, arith, if◌then◌else◌}
use hydra_forge.Prelude.Text.{Text, same, same_iff}
use hydra_forge.Json.{Json, Members, no_members, member, get_member, set_member}

pub get_member-set_member :
    (j k : Text) (v : Json) (ms : Members)
    → get_member j (set_member k v ms) ≡ (if same k j then some v else get_member j ms)
unfolding get_member set_member
get_member-set_member j k v no_members = refl
get_member-set_member j k v (member i w ms) =
    ground (arith, same_iff k j, same_iff i k, same_iff i j, get_member-set_member j k v ms)
