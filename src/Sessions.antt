-- ===== src/Sessions.antt =====
-- `SessionRegistry` (src/core/types/session_registry.cpp). A session is its user and its current task,
-- of which the status is read. The clock that an identifier contains is a parameter of each call;
-- after each check of `destroy_session`, which releases its lock, other threads may change the table:
-- `others` gives what they make of it.
pub mod Laws
mod Tests
use hydra_forge.Prelude.{
  ℕ, zero, suc, ◌+◌, ◌-◌, ◌*◌, ◌/◌, ◌%◌, ◌^◌, Bool, true, false, not, ◌&&◌, ◌||◌, List, [], ◌∷◌,
  ◌++◌, map, Option, none, some, if◌then◌else◌, ltb,
}
use hydra_forge.Prelude.Maps.{lookup, insert, erase}
use hydra_forge.Prelude.Text.{Text, text_eq, codes, same}
use hydra_forge.Hooks.{digits}

pub record UserSession : Type 0 where
  pub user_id : Text
  -- `current_task_session()->status()`, where there is a current task.
  pub task_status : Option Text

-- The table, and the atomic counter of the identifiers.
pub record SessionRegistry : Type 0 where
  pub sessions : List (Text × UserSession)
  pub counter : ℕ

pub data Created : Type 0 where
  created : Text → Created
  -- `std::runtime_error`
  collision : Text → Created

pub generate_session_id : (ns : ℕ) → SessionRegistry → Text × SessionRegistry
generate_session_id ns r = (
  codes "sess-" ++ digits r.counter r.counter ++ codes "-" ++ digits ns ns,
  record r { counter = (r.counter + 1) % 2 ^ 64 },
)

pub create_session : (ns : ℕ) (name : Text) → SessionRegistry → Created × SessionRegistry
unfolding generate_session_id
create_session ns name r =
    let (id, s) = generate_session_id ns r in
    elim (lookup id s.sessions) [
      | some u ↦ (collision id, s)
      | none ↦ (
        created id,
        record s {
          sessions = insert id (record { user_id = name; task_status = none }) s.sessions;
        },
      )
    ]

-- There is a current task, and its status is neither `completed` nor `failed`.
pub running : UserSession → Bool
running u = elim u.task_status [
  | none ↦ false
  | some status ↦ not (same status (codes "completed")) && not (same status (codes "failed"))
]

pub get_session : Text → SessionRegistry → Option UserSession
get_session id r = lookup id r.sessions

pub is_in_flight : Text → SessionRegistry → Bool
unfolding running
is_in_flight id r = elim (lookup id r.sessions) [ none ↦ false | some u ↦ running u ]

pub list_sessions : SessionRegistry → List Text
list_sessions r = map (λ e. e.0) r.sessions

abbrev pub Sessions : Type 0
Sessions = List (Text × UserSession)

-- What a destruction comes to: how long it waited, and whether it was forced.
pub data Destroyed : Type 0 where
  absent destroyed forced : Destroyed

-- Step 2, under the write lock.
pub erase_session : Text → Sessions → Destroyed × Sessions
unfolding running
erase_session id table = elim (lookup id table) [
  | none ↦ (absent, table)
  | some u ↦ (if running u then forced else destroyed, erase id table)
]

abbrev pub max_wait_ms : ℕ
max_wait_ms = 5000

abbrev pub check_interval_ms : ℕ
check_interval_ms = 100

-- The wait: `rounds` checks are left, each followed by a pause, or by the write lock.
pub wait_loop :
    (others : ℕ → Sessions → Sessions) (rounds : ℕ) → Text → Sessions → Destroyed × Sessions
unfolding erase_session
wait_loop others zero id table = erase_session id table
wait_loop others (suc k) id table =
    let later = wait_loop others k id (others k table) in
    elim (lookup id table) [
      | none ↦ (absent, table)
      | some u ↦ if running u then later else erase_session id (others k table)
    ]

pub destroy_session :
    (others : ℕ → Sessions → Sessions) → Text → SessionRegistry → Destroyed × SessionRegistry
unfolding wait_loop
destroy_session others id r =
    let (d, table) = wait_loop others (max_wait_ms / check_interval_ms) id r.sessions in
    (d, record r { sessions = table })
