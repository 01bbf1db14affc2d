-- ===== src/Bus/Event.antt =====
-- Events and their order: `BusEvent` of include/agenticdsl/contract/bus_event.h with the fields of
-- its `ToolResult` payload that the order reads, the clock of causal_clock.h and `causal_order` of
-- causal_order.h. `body` is the rest of the payload.
use hydra_forge.Prelude.{
  ℕ, ◌+◌, ◌%◌, ◌≡◌, Bool, true, false, ◌&&◌, not, Option, none, some, arith, ◌==◌, ltb,
  if◌then◌else◌,
}
use hydra_forge.Prelude.Text.{Text, same}

pub record BusEvent {ℓ} (B : Type ℓ) : Type ℓ where
  pub topic : Text
  pub body : B
  pub trace_id : Option Text
  pub parent_trace : Option Text
  pub causal_time : ℕ

abbrev pub word64 : ℕ
word64 = 18446744073709551616

-- `CausalClock::tick`: the value before the increment, which wraps.
unfoldable pub tick : ℕ → ℕ × ℕ
tick clock = (clock, (clock + 1) % word64)

-- `CausalClock::merge` with no interference.
pub merge : ℕ → ℕ → ℕ
merge external clock = if ltb clock external then external else clock

pub data CausalRelation : Type 0 where
  a_before_b b_before_a concurrent : CausalRelation

-- Both are present and equal.
unfoldable pub linked : Option Text → Option Text → Bool
linked none q = false
linked (some t) none = false
linked (some t) (some q) = same t q

-- Rule 2: both times are filled in, and the smaller one is first.
unfoldable pub by_time : ℕ → ℕ → CausalRelation
by_time s t =
    if not (s == 0) && not (t == 0)
    then if ltb s t then a_before_b else if ltb t s then b_before_a else concurrent
    else concurrent

module _ {ℓ} {B : Type ℓ} where
  unfoldable pub causal_order : BusEvent B → BusEvent B → CausalRelation
  unfolding linked by_time
  causal_order a b =
      if linked a.trace_id b.parent_trace
      then a_before_b
      else if linked b.trace_id a.parent_trace
      then b_before_a
      else by_time a.causal_time b.causal_time

  pub happens_before : BusEvent B → BusEvent B → Bool
  unfolding causal_order
  happens_before a b = elim (causal_order a b) [
    | a_before_b ↦ true
    | b_before_a ↦ false
    | concurrent ↦ false
  ]

abbrev pub flip : CausalRelation → CausalRelation
flip a_before_b = b_before_a
flip b_before_a = a_before_b
flip concurrent = concurrent

by_time-flip : (s t : ℕ) → by_time t s ≡ flip (by_time s t)
unfolding by_time
by_time-flip s t = ground arith

module _ {ℓ} {B : Type ℓ} where
  -- Unless each of the two events names the other as its parent, the order of two events is the
  -- mirror image of the order of the same events exchanged.
  pub causal_order-flip :
      (a b : BusEvent B)
      → ¬ ((linked a.trace_id b.parent_trace ≡ true) × (linked b.trace_id a.parent_trace ≡ true))
      → causal_order b a ≡ flip (causal_order a b)
  unfolding causal_order
  causal_order-flip a b h = ground (arith, by_time-flip a.causal_time b.causal_time)
