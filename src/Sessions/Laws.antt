-- ===== src/Sessions/Laws.antt =====
-- What creating and destroying sessions does to the table.
use hydra_forge.Prelude.{ℕ, zero, suc, ◌/◌, ◌≡◌, ◌↔◌, true, false, none, some, arith, if◌then◌else◌}
use hydra_forge.Prelude.Maps.{lookup, lookup-insert, lookup-erase}
use hydra_forge.Prelude.Text.{Text, text_eq, same, same_iff}
use hydra_forge.Sessions.{
  SessionRegistry, Sessions, created, create_session, generate_session_id, get_session,
  is_in_flight, forced, erase_session, wait_loop, destroy_session, max_wait_ms, check_interval_ms,
}

-- A created session is in the table under its identifier, with the name and without a task, and the
-- sessions under other identifiers are as before; on a collision the table is as before.
pub create_session-get_session :
    (ns : ℕ) (name : Text) (r : SessionRegistry) (id j : Text)
    → (create_session ns name r).0 ≡ created id
    → get_session j (create_session ns name r).1 ≡ (
        if same id j then some (record { user_id = name; task_status = none }) else get_session j r)
unfolding create_session get_session
create_session-get_session ns name r id j h = ground (
  arith,
  lookup-insert (generate_session_id ns r).0 j (record { user_id = name; task_status = none })
      r.sessions,
)

erase_session-absent : (id : Text) (table : Sessions) → lookup id (erase_session id table).1 ≡ none
unfolding erase_session
erase_session-absent id table = ground (arith, lookup-erase id id table, same_iff id id)

wait_loop-absent :
    (others : ℕ → Sessions → Sessions) (k : ℕ) (id : Text) (table : Sessions)
    → lookup id (wait_loop others k id table).1 ≡ none
unfolding wait_loop
wait_loop-absent others zero id table = erase_session-absent id table
wait_loop-absent others (suc k) id table =
    ground (
      arith,
      erase_session-absent id (others k table),
      wait_loop-absent others k id (others k table),
    )

erase_session-keeps :
    (id j : Text) (table : Sessions)
    → same id j ≡ false
    → lookup j (erase_session id table).1 ≡ lookup j table
unfolding erase_session
erase_session-keeps id j table h = ground (arith, lookup-erase id j table)

wait_loop-keeps :
    (others : ℕ → Sessions → Sessions) (k : ℕ) (id j : Text) (table : Sessions)
    → ((i : ℕ) (t : Sessions) → lookup j (others i t) ≡ lookup j t)
    → same id j ≡ false
    → lookup j (wait_loop others k id table).1 ≡ lookup j table
unfolding wait_loop
wait_loop-keeps others zero id j table kept h = erase_session-keeps id j table h
wait_loop-keeps others (suc k) id j table kept h = ground (
  arith,
  kept k table,
  erase_session-keeps id j (others k table) h,
  wait_loop-keeps others k id j (others k table) kept h,
)

-- Whatever other threads do meanwhile, no session has the identifier when `destroy_session` returns.
pub destroy_session-absent :
    (others : ℕ → Sessions → Sessions) (id : Text) (r : SessionRegistry)
    → get_session id (destroy_session others id r).1 ≡ none
unfolding destroy_session get_session
destroy_session-absent others id r =
    wait_loop-absent others (max_wait_ms / check_interval_ms) id r.sessions

-- A session under another identifier that other threads leave alone is as before.
pub destroy_session-keeps :
    (others : ℕ → Sessions → Sessions) (id j : Text) (r : SessionRegistry)
    → ((i : ℕ) (t : Sessions) → lookup j (others i t) ≡ lookup j t)
    → same id j ≡ false
    → get_session j (destroy_session others id r).1 ≡ get_session j r
unfolding destroy_session get_session
destroy_session-keeps others id j r kept h =
    wait_loop-keeps others (max_wait_ms / check_interval_ms) id j r.sessions kept h

wait_loop-forced_iff :
    (k : ℕ) (id : Text) (r : SessionRegistry)
    → ((wait_loop (λ i t. t) k id r.sessions).0 ≡ forced) ↔ (is_in_flight id r ≡ true)
unfolding wait_loop erase_session is_in_flight
wait_loop-forced_iff zero id r = ground arith
wait_loop-forced_iff (suc k) id r = ground (arith, wait_loop-forced_iff k id r)

-- Where no other thread acts, the destruction is forced exactly if the session is in flight.
pub destroy_session-forced_iff :
    (id : Text) (r : SessionRegistry)
    → ((destroy_session (λ i t. t) id r).0 ≡ forced) ↔ (is_in_flight id r ≡ true)
unfolding destroy_session
destroy_session-forced_iff id r = wait_loop-forced_iff (max_wait_ms / check_interval_ms) id r
