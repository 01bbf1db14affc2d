-- ===== src/Bus/Tests.antt =====
-- Applications of the theorems on the bus (src/common/contract/inmemory_bus.cpp).
use Prim.{tt}
use hydra_forge.Prelude.{
  ℕ, ◌≡◌, ◌+◌, ◌==◌, ◌++◌, List, count_if, inl, inr, refl, true, false, [], ◌∷◌, none, arith,
}
use hydra_forge.Prelude.Text.{Text, codes}
use mathlib.Core.List.Perm
use hydra_forge.Bus.{
  InMemoryBus, Table, idle, subscribe, unsubscribe, callbacks_for, is_drained, dispatch_section,
  take_event, finish_event, emit, try_pop,
}
use hydra_forge.Bus.Glob.{glob_match}
use hydra_forge.Bus.Glob.Matches.{Matches, byte, empty}
use hydra_forge.Bus.Glob.Correct.{StarFree, Answers, glob_match-Answers}
use hydra_forge.Bus.Event.{BusEvent, tick, linked}
use hydra_forge.Bus.Laws.Delivery.{
  callbacks-subscribe, Turn, section, emits, pops, run, emitted, turn, run-taken, run-drained,
}
use hydra_forge.Bus.Laws.Subscription.{callbacks-unsubscribe-subscribe}
use hydra_forge.Bus.Laws.Clock.{IsUntraced}

-- A topic of three bytes: "a/b".
abbrev topic : Text
topic = codes "a/b"

topic-StarFree : StarFree topic
topic-StarFree = ground arith

glob_match-Answers_example : Answers (Matches (codes "a/*") topic) (glob_match (codes "a/*") topic)
glob_match-Answers_example = glob_match-Answers (codes "a/*") topic topic-StarFree

abbrev event : BusEvent ℕ
event = record { topic = topic; body = 0; trace_id = none; parent_trace = none; causal_time = 0 }

-- One subscriber to the topic, one to a pattern, and one event in the queue.
abbrev bus : InMemoryBus ℕ ℕ
bus = record {
  queue = event ∷ [];
  exact_subscribers = (topic, (1, 10) ∷ []) ∷ [];
  wildcard_subscribers = (codes "a/*", (2, 20) ∷ []) ∷ [];
  next_token = 3;
  in_flight = 0;
  clock = 1;
  stopped = false;
}

event-IsUntraced : IsUntraced ℕ event
event-IsUntraced = record { no_trace = refl; no_parent = refl }

abbrev later_event : BusEvent ℕ
later_event = record event { causal_time = 4 }

not-linked : ¬ (
    (linked event.trace_id later_event.parent_trace ≡ true)
    × (linked later_event.trace_id event.parent_trace ≡ true))
unfolding linked
not-linked h = cc (h.0)

abbrev in_order : Table ℕ → Table ℕ
in_order t = t

-- `?` matches the byte "b".
question-Matches : Matches (codes "a/?") topic
question-Matches =
    byte (ground arith) (inr refl)
      (byte (ground arith) (inr refl) (byte (ground arith) (inl refl) empty))

callbacks-subscribe_example :
    count_if (λ c. c == 20) (callbacks_for in_order event (subscribe (codes "a/?") 20 bus).0)
    ≡ count_if (λ c. c == 20) (callbacks_for in_order event bus) + 1
callbacks-subscribe_example =
    callbacks-subscribe in_order (λ t. Perm.refl t) (λ c. c == 20) (codes "a/?") 20 event bus
      (yes question-Matches) topic-StarFree

callbacks-unsubscribe-subscribe_example :
    let (subscribed, token) = subscribe topic 30 bus in
    count_if (λ c. c == 30) (callbacks_for in_order event (unsubscribe token subscribed))
    ≡ count_if (λ c. c == 30) (callbacks_for in_order event bus)
callbacks-unsubscribe-subscribe_example =
    callbacks-unsubscribe-subscribe in_order (λ t. Perm.refl t) (λ c. c == 30) topic 30 event bus
      (refl, tt) (refl, tt)

-- A callback emits while the thread calls it.
abbrev turns : List (Turn ℕ ℕ)
turns = section ∷ section ∷ emits event ∷ section ∷ section ∷ pops ∷ section ∷ section ∷ []

run-taken_example :
    (run in_order turns idle bus).0 ++ (run in_order turns idle bus).2.queue
    ≡ bus.queue ++ emitted in_order turns bus.clock
run-taken_example = run-taken in_order turns idle bus

drains : is_drained (run in_order turns idle bus).2 ≡ true
unfolding is_drained run turn dispatch_section take_event finish_event emit try_pop tick
drains = refl

run-drained_example :
    ((run in_order turns idle bus).1 ≡ idle)
    × ((run in_order turns idle bus).0 ≡ bus.queue ++ emitted in_order turns bus.clock)
run-drained_example = run-drained in_order turns bus refl drains
