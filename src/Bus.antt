-- ===== src/Bus.antt =====
-- The event bus: `InMemoryBus` of src/common/contract/inmemory_bus.cpp. A function that holds `mtx_`
-- is one step; the dispatch thread is the three steps of a round of its loop. A callback is a value
-- of a type `C`; what it does on the bus, other threads may do as well, between the sections.
pub mod Glob
pub mod Event
pub mod Laws
mod Tests
use hydra_forge.Prelude.{
  ℕ, zero, suc, ◌%◌, ◌+◌, ◌-◌, Bool, true, false, ◌&&◌, not, List, [], ◌∷◌, ◌++◌, map, Option, none,
  some, ◌==◌, if◌then◌else◌, keep_if, any,
}
use mathlib.Core.Option
use hydra_forge.Prelude.Text.{Text, same}
use Glob.{glob_match, has_wildcard}
use Event.{BusEvent, tick, word64}

-- The callbacks of one name or pattern, with their tokens, oldest first; each name is there once.
abbrev pub Table : Type 0 → Type 0
Table C = List (Text × List (ℕ × C))

pub record InMemoryBus (B C : Type 0) : Type 0 where
  pub queue : List (BusEvent B)
  pub exact_subscribers : Table C
  pub wildcard_subscribers : Table C
  pub next_token : ℕ
  pub in_flight : ℕ
  pub clock : ℕ
  pub stopped : Bool

abbrev pub is_true : Option Bool → Bool
is_true none = false
is_true (some b) = b

module _ {C : Type 0} where
  -- `map[name].push_back(entry)`
  pub push_back : Text → ℕ × C → Table C → Table C
  push_back name entry [] = (name, entry ∷ []) ∷ []
  push_back name entry ((n, entries) ∷ table) =
      if same n name
      then (n, entries ++ entry ∷ []) ∷ table
      else (n, entries) ∷ push_back name entry table

  abbrev pub has_token : ℕ → ℕ × C → Bool
  has_token token entry = entry.0 == token

  -- The first list that holds the token loses its entries; `none` if no list holds it.
  pub remove_token : ℕ → Table C → Option (Table C)
  remove_token token [] = none
  remove_token token ((n, entries) ∷ table) =
      let rest = remove_token token table in
      if any (has_token token) entries
      then some ((n, keep_if (λ e. not (has_token token e)) entries) ∷ table)
      else Option.map (λ t. (n, entries) ∷ t) rest

  -- The fast path: the callbacks under the topic itself.
  pub exact_callbacks : Text → Table C → List C
  exact_callbacks topic [] = []
  exact_callbacks topic ((n, entries) ∷ table) =
      if same n topic then map (λ e. e.1) entries else exact_callbacks topic table

  -- The slow path: the callbacks under each pattern that matches.
  pub wildcard_callbacks : Text → Table C → List C
  wildcard_callbacks topic [] = []
  wildcard_callbacks topic ((p, entries) ∷ table) =
      let rest = wildcard_callbacks topic table in
      if is_true (glob_match p topic) then map (λ e. e.1) entries ++ rest else rest

-- Where the dispatch thread is: before the first section of a round, before the second, or calling the
-- callbacks, with the mutex released.
pub data Phase (B C : Type 0) : Type 0 where
  idle : Phase B C
  took : BusEvent B → Phase B C
  calls : BusEvent B → List C → Phase B C

module _ {B C : Type 0} where
  pub empty_bus : InMemoryBus B C
  empty_bus = record {
    queue = [];
    exact_subscribers = [];
    wildcard_subscribers = [];
    next_token = 0;
    in_flight = 0;
    clock = 0;
    stopped = false;
  }

  pub emit : BusEvent B → InMemoryBus B C → InMemoryBus B C
  unfolding tick
  emit event b =
      let r = tick b.clock in
      record b { queue = b.queue ++ record event { causal_time = r.0 } ∷ []; clock = r.1 }

  -- `emit(event_type, content)`: the clock ticks for the new event, and again in `emit`.
  pub emit_text : (Text → B) → Text → Text → InMemoryBus B C → InMemoryBus B C
  unfolding emit tick
  emit_text success event_type content b =
      let r = tick b.clock in
      emit
        (record {
          topic = event_type;
          body = success content;
          trace_id = none;
          parent_trace = none;
          causal_time = r.0;
        })
        (record b { clock = r.1 })

  -- The token of the new subscription comes with the new state.
  pub subscribe : Text → C → InMemoryBus B C → InMemoryBus B C × ℕ
  unfolding push_back has_wildcard
  subscribe event_type callback b =
      let token = b.next_token in
      let counted = record b { next_token = (token + 1) % word64 } in
      if has_wildcard event_type
      then (
        record counted {
          wildcard_subscribers = push_back event_type (token, callback) b.wildcard_subscribers;
        },
        token,
      )
      else (
        record counted {
          exact_subscribers = push_back event_type (token, callback) b.exact_subscribers;
        },
        token,
      )

  -- The exact table is searched first, and the first list that held the token ends the search.
  pub unsubscribe : ℕ → InMemoryBus B C → InMemoryBus B C
  unfolding remove_token
  unsubscribe token b = elim (remove_token token b.exact_subscribers) [
    | some table ↦ record b { exact_subscribers = table }
    | none ↦ elim (remove_token token b.wildcard_subscribers) [
      | some table ↦ record b { wildcard_subscribers = table }
      | none ↦ b
    ]
  ]

  pub try_pop : InMemoryBus B C → Option (BusEvent B × InMemoryBus B C)
  try_pop b = elim b.queue [ [] ↦ none | e ∷ rest ↦ some (e, record b { queue = rest }) ]

  -- The condition that `wait_for_drain` waits for.
  pub is_drained : InMemoryBus B C → Bool
  is_drained b = elim b.queue [ [] ↦ b.in_flight == 0 | _ ∷ _ ↦ false ]

  -- The first section of a round of `dispatch_loop`: take an event and count it as in flight.
  pub take_event : InMemoryBus B C → Option (BusEvent B × InMemoryBus B C)
  take_event b = elim b.queue [
    | [] ↦ none
    | e ∷ rest ↦ some (e, record b { queue = rest; in_flight = b.in_flight + 1 })
  ]

  -- The second section: whom to call, the exact subscribers first. `order` is the order in which the
  -- iteration over the hash table of patterns meets its entries.
  pub callbacks_for : (order : Table C → Table C) → BusEvent B → InMemoryBus B C → List C
  unfolding exact_callbacks wildcard_callbacks
  callbacks_for order event b =
      exact_callbacks event.topic b.exact_subscribers
      ++ wildcard_callbacks event.topic (order b.wildcard_subscribers)

  -- The last section, after the calls.
  pub finish_event : InMemoryBus B C → InMemoryBus B C
  finish_event b = record b { in_flight = b.in_flight - 1 }

  -- The test that leaves the loop.
  pub leaves_loop : InMemoryBus B C → Bool
  unfolding is_drained
  leaves_loop b = b.stopped && is_drained b

  -- `~InMemoryBus` sets the flag and joins the thread.
  pub stop : InMemoryBus B C → InMemoryBus B C
  stop b = record b { stopped = true }

  -- What the first section takes, and where the thread is then.
  abbrev pub begin_round :
      Option (BusEvent B × InMemoryBus B C)
      → InMemoryBus B C
      → List (BusEvent B) × Phase B C × InMemoryBus B C
  begin_round none b = ([], idle, b)
  begin_round (some (e, taken)) b = (e ∷ [], took e, taken)

  -- The next section of `dispatch_loop`.
  pub dispatch_section :
      (order : Table C → Table C)
      → Phase B C
      → InMemoryBus B C
      → List (BusEvent B) × Phase B C × InMemoryBus B C
  unfolding take_event callbacks_for finish_event
  dispatch_section order idle b = begin_round (take_event b) b
  dispatch_section order (took e) b = ([], calls e (callbacks_for order e b), b)
  dispatch_section order (calls e cs) b = ([], idle, finish_event b)
