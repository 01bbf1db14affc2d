-- ===== src/Bus/Laws/Delivery.antt =====
-- What the dispatch thread does with the queue, and who is meant by a name.
use hydra_forge.Prelude.{
  ℕ, ◌+◌, ◌≡◌, refl, sym, ap, ◌∙◌, ◌++◌, count_if, one_if, Bool, true, List, [], ◌∷◌, Option, none,
  some, arith, ◌↔◌, Bool-cases, inl, inr,
}
use hydra_forge.Prelude.Text.{Text, same_iff}
use hydra_forge.Bus.Glob.{glob_match, has_wildcard}
use hydra_forge.Bus.Glob.Matches.{Matches, Matches-literal_iff}
use hydra_forge.Bus.Glob.Correct.{StarFree, glob_match_iff}
use hydra_forge.Bus.Event.{BusEvent, tick}
use hydra_forge.Bus.Laws.Subscription.{delivers, count-callbacks-subscribe}
use hydra_forge.Bus.{
  InMemoryBus, Table, Phase, idle, took, calls, callbacks_for, subscribe, unsubscribe, emit,
  try_pop, take_event, finish_event, dispatch_section, is_drained, is_true,
}
use mathlib.Core.List.{Perm, append-nil, append_assoc}

is_true_iff : (o : Option Bool) → (is_true o ≡ true) ↔ (o ≡ some true)
is_true_iff none = ground arith
is_true_iff (some b) = ground arith

delivers_iff :
    (name topic : Text) → StarFree topic → (delivers name topic ≡ true) ↔ Matches name topic
unfolding delivers
delivers_iff name topic plain = elim (Bool-cases (has_wildcard name)) [
  | inl e ↦ rw e (
    λ h. (glob_match_iff name topic plain).0 ((is_true_iff (glob_match name topic)).0 h),
    λ d. (is_true_iff (glob_match name topic)).1 ((glob_match_iff name topic plain).1 d),
  )
  | inr e ↦ rw e (
    λ h. (Matches-literal_iff name topic e).1 ((same_iff name topic).0 h),
    λ d. (same_iff name topic).1 ((Matches-literal_iff name topic e).0 d),
  )
]

module _ {B C : Type 0} (order : Table C → Table C)
    (rearranges : (t : Table C) → Perm (order t) t) where
  -- A new subscription adds its callback once to the callbacks of the events whose topic its name, read as a
  -- glob, matches, and changes those of no other event: in whichever of the two tables it is kept, whatever
  -- the order in which the table of patterns is met, for topics without the byte `*`.
  pub callbacks-subscribe :
      (hit : C → Bool) (name : Text) (callback : C) (event : BusEvent B) (b : InMemoryBus B C)
      (matches : Dec (Matches name event.topic))
      → StarFree event.topic
      → count_if hit (callbacks_for order event (subscribe name callback b).0)
        ≡ count_if hit (callbacks_for order event b)
          + elim matches [ yes m ↦ one_if (hit callback) | no n ↦ 0 ]
  callbacks-subscribe hit name callback event b (yes m) plain =
      count-callbacks-subscribe order rearranges hit name callback event b
      ∙ rw ((delivers_iff name event.topic plain).1 m) refl
  callbacks-subscribe hit name callback event b (no n) plain =
      elim (Bool-cases (delivers name event.topic)) [
        | inl d ↦ absurd (n ((delivers_iff name event.topic plain).0 d))
        | inr d ↦ count-callbacks-subscribe order rearranges hit name callback event b ∙ rw d refl
      ]

-- What happens to the bus: a section of its dispatch thread, or a call by a callback or another thread.
pub data Turn (B C : Type 0) : Type 0 where
  section : Turn B C
  emits : BusEvent B → Turn B C
  subscribes : Text → C → Turn B C
  unsubscribes : ℕ → Turn B C
  pops : Turn B C

module _ {B C : Type 0} (order : Table C → Table C) where
  abbrev pub popped :
      Phase B C
      → InMemoryBus B C
      → Option (BusEvent B × InMemoryBus B C)
      → List (BusEvent B) × Phase B C × InMemoryBus B C
  popped phase b none = ([], phase, b)
  popped phase b (some (e, c)) = (e ∷ [], phase, c)

  -- The events that a turn takes off the queue, and the thread and the bus after it.
  unfoldable pub turn :
      Turn B C → Phase B C → InMemoryBus B C → List (BusEvent B) × Phase B C × InMemoryBus B C
  unfolding dispatch_section emit subscribe unsubscribe try_pop
  turn section phase b = dispatch_section order phase b
  turn (emits e) phase b = ([], phase, emit e b)
  turn (subscribes name callback) phase b = ([], phase, (subscribe name callback b).0)
  turn (unsubscribes token) phase b = ([], phase, unsubscribe token b)
  turn pops phase b = popped phase b (try_pop b)

  unfoldable pub run :
      List (Turn B C)
      → Phase B C
      → InMemoryBus B C
      → List (BusEvent B) × Phase B C × InMemoryBus B C
  unfolding turn
  run [] phase b = ([], phase, b)
  run (t ∷ ts) phase b =
      let r = turn t phase b in let rest = run ts r.1 r.2 in (r.0 ++ rest.0, rest.1, rest.2)

  -- The events that are emitted, with the times that the clock gives them.
  abbrev pub emitted_by : Turn B C → ℕ → List (BusEvent B)
  emitted_by (emits e) clock = record e { causal_time = (tick clock).0 } ∷ []
  emitted_by section clock = []
  emitted_by (subscribes name callback) clock = []
  emitted_by (unsubscribes token) clock = []
  emitted_by pops clock = []

  abbrev pub clock_after : Turn B C → ℕ → ℕ
  clock_after (emits e) clock = (tick clock).1
  clock_after section clock = clock
  clock_after (subscribes name callback) clock = clock
  clock_after (unsubscribes token) clock = clock
  clock_after pops clock = clock

  abbrev pub emitted : List (Turn B C) → ℕ → List (BusEvent B)
  emitted [] clock = []
  emitted (t ∷ ts) clock = emitted_by t clock ++ emitted ts (clock_after t clock)

  -- The events that the thread has in its hands.
  abbrev pub busy : Phase B C → ℕ
  busy idle = 0
  busy (took e) = 1
  busy (calls e cs) = 1

  turn-queue :
      (t : Turn B C) (phase : Phase B C) (b : InMemoryBus B C)
      → let r = turn t phase b in
        (r.0 ++ r.2.queue ≡ b.queue ++ emitted_by t b.clock)
        × (r.2.clock ≡ clock_after t b.clock)
        × (b.in_flight ≡ busy phase → r.2.in_flight ≡ busy r.1)
  unfolding turn dispatch_section emit subscribe unsubscribe try_pop take_event finish_event
  turn-queue section idle b = ground (arith, append-nil b.queue)
  turn-queue section (took e) b = (sym (append-nil b.queue), refl, λ h. h)
  turn-queue section (calls e cs) b = (sym (append-nil b.queue), refl, λ h. omega (arith, h))
  turn-queue (emits e) phase b = (refl, refl, λ h. h)
  turn-queue (subscribes name callback) phase b = ground (arith, append-nil b.queue)
  turn-queue (unsubscribes token) phase b = ground (arith, append-nil b.queue)
  turn-queue pops phase b = ground (arith, append-nil b.queue)

  run-queue :
      (ts : List (Turn B C)) (phase : Phase B C) (b : InMemoryBus B C)
      → let r = run ts phase b in
        (r.0 ++ r.2.queue ≡ b.queue ++ emitted ts b.clock)
        × (b.in_flight ≡ busy phase → r.2.in_flight ≡ busy r.1)
  unfolding run
  run-queue [] phase b = (sym (append-nil b.queue), λ h. h)
  run-queue (t ∷ ts) phase b =
      let r = turn t phase b in
      let (q, c, f) = turn-queue t phase b in
      let (q', f') = run-queue ts r.1 r.2 in
      (
        append_assoc r.0 (run ts r.1 r.2).0 (run ts r.1 r.2).2.queue
            ∙ ap (λ x. r.0 ++ x) (q' ∙ ap (λ k. r.2.queue ++ emitted ts k) c)
            ∙ sym (append_assoc r.0 r.2.queue (emitted ts (clock_after t b.clock)))
            ∙ ap (λ x. x ++ emitted ts (clock_after t b.clock)) q
            ∙ append_assoc b.queue (emitted_by t b.clock) (emitted ts (clock_after t b.clock)),
        λ h. f' (f h),
      )

  busy-idle : (phase : Phase B C) → busy phase ≡ 0 → phase ≡ idle
  busy-idle idle h = refl
  busy-idle (took e) h = absurd (ground arith)
  busy-idle (calls e cs) h = absurd (ground arith)

  drained : (b : InMemoryBus B C) → is_drained b ≡ true → (b.queue ≡ []) × (b.in_flight ≡ 0)
  unfolding is_drained
  drained b h = ground arith

  -- Whatever callbacks and other threads do between the sections of the dispatch thread: the events that have
  -- been taken, by the thread or by `try_pop`, and those that are queued are the ones that were queued and
  -- those that were emitted, in this order.
  pub run-taken :
      (ts : List (Turn B C)) (phase : Phase B C) (b : InMemoryBus B C)
      → (run ts phase b).0 ++ (run ts phase b).2.queue ≡ b.queue ++ emitted ts b.clock
  run-taken ts phase b = (run-queue ts phase b).0

  -- Whatever callbacks and other threads do between the sections of the dispatch thread, from a bus on which
  -- nothing is in flight: when the condition of `wait_for_drain` holds, all events that were queued or emitted
  -- have been taken, in their order, and no callback is being called.
  pub run-drained :
      (ts : List (Turn B C)) (b : InMemoryBus B C)
      → b.in_flight ≡ 0
      → is_drained (run ts idle b).2 ≡ true
      → ((run ts idle b).1 ≡ idle) × ((run ts idle b).0 ≡ b.queue ++ emitted ts b.clock)
  run-drained ts b h d =
      let r = run ts idle b in
      let (q, f) = run-queue ts idle b in
      let (e, z) = drained r.2 d in
      (busy-idle r.1 (sym (f h) ∙ z), sym (append-nil r.0) ∙ ap (λ x. r.0 ++ x) (sym e) ∙ q)
