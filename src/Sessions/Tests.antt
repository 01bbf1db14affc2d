-- ===== src/Sessions/Tests.antt =====
-- Applications of the theorems on the session registry (src/core/types/session_registry.cpp).
use hydra_forge.Prelude.{◌≡◌, refl, false, [], ◌∷◌, none, some}
use hydra_forge.Prelude.Maps.{lookup}
use hydra_forge.Prelude.Text.{codes, same}
use hydra_forge.Sessions.{
  UserSession, SessionRegistry, created, create_session, get_session, destroy_session,
}
use hydra_forge.Sessions.Laws.{destroy_session-absent}

abbrev busy : UserSession
busy = record { user_id = codes "ann"; task_status = some (codes "running") }

abbrev idle : UserSession
idle = record { user_id = codes "bob"; task_status = some (codes "completed") }

abbrev registry : SessionRegistry
registry = record { sessions = (codes "s1", busy) ∷ (codes "s2", idle) ∷ []; counter = 2 }

first_created : (create_session 9 (codes "eve") registry).0 ≡ created (codes "sess-2-9")
unfolding create_session lookup same
first_created = refl

destroy_session-absent_example :
    get_session (codes "s1") (destroy_session (λ i t. t) (codes "s1") registry).1 ≡ none
destroy_session-absent_example = destroy_session-absent (λ i t. t) (codes "s1") registry

s1-s2 : same (codes "s1") (codes "s2") ≡ false
unfolding same
s1-s2 = refl
