-- ===== src/Bus/Laws/Clock.antt =====
-- The causal times that `emit` gives, read by `causal_order`.
use hydra_forge.Prelude.{ℕ, ◌+◌, ◌%◌, ◌<◌, ◌≡◌, refl, ◌∙◌, [], ◌∷◌, ◌++◌, none, arith}
use hydra_forge.Bus.Event.{BusEvent, a_before_b, concurrent, causal_order, by_time, word64}
use hydra_forge.Bus.{InMemoryBus, empty_bus, emit}

-- The event as the queue holds it.
module _ {B : Type 0} where
  abbrev pub stamped : BusEvent B → ℕ → BusEvent B
  stamped event time = record event { causal_time = time }

-- An event that names no trace and no parent.
pub record IsUntraced (B : Type 0) (event : BusEvent B) : Type 0 where
  pub no_trace : event.trace_id ≡ none
  pub no_parent : event.parent_trace ≡ none

kept :
    {B : Type 0} (event : BusEvent B) (time : ℕ)
    → IsUntraced B event
    → IsUntraced B (stamped event time)
kept event time u = record { no_trace = u.no_trace; no_parent = u.no_parent }

order_by_time :
    {B : Type 0} (first second : BusEvent B)
    → IsUntraced B first
    → IsUntraced B second
    → causal_order first second ≡ by_time first.causal_time second.causal_time
unfolding causal_order
order_by_time first second u v = ground arith

before : (time : ℕ) → 0 < time → by_time time (time + 1) ≡ a_before_b
unfolding by_time
before time h = ground arith

module _ {B C : Type 0} where
  -- Two untraced events that are emitted one after the other stand in this order at the end of the
  -- queue, and `causal_order` puts the first before the second, if the clock has ticked before and
  -- does not wrap.
  pub emit-emit-causal_order :
      (first second : BusEvent B) (b : InMemoryBus B C)
      → IsUntraced B first
      → IsUntraced B second
      → 0 < b.clock
      → b.clock + 1 < word64
      → let after = emit second (emit first b) in
        (after.queue ≡ (b.queue ++ stamped first b.clock ∷ []) ++ stamped second (b.clock + 1) ∷ [])
        × (causal_order (stamped first b.clock) (stamped second (b.clock + 1)) ≡ a_before_b)
  unfolding emit causal_order
  emit-emit-causal_order first second b u v h w =
      let e : (b.clock + 1) % word64 ≡ b.clock + 1 = omega arith in
      (
        rw e,
        order_by_time _ _ (kept first b.clock u) (kept second (b.clock + 1) v) ∙ before b.clock h,
      )

-- The clock of a new bus begins at 0, the value that `causal_order` takes for "not filled in": the
-- first event ever emitted is concurrent with every untraced event, so with every later one.
pub emit-first-concurrent :
    {B : Type 0} (C : Type 0) (first later : BusEvent B) (time : ℕ)
    → IsUntraced B first
    → IsUntraced B later
    → ((emit first (empty_bus {B = B} {C = C})).queue ≡ stamped first 0 ∷ [])
      × (causal_order (stamped first 0) (stamped later time) ≡ concurrent)
unfolding emit empty_bus by_time
emit-first-concurrent C first later time u v =
    (refl, order_by_time _ _ (kept first 0 u) (kept later time v))
