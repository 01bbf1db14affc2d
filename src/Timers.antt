-- ===== src/Timers.antt =====
-- `TimerService` (src/common/utils/timer_service.cpp, include/agenticdsl/contract/timer_service.h): the
-- registrations, `cancel`, and one pass of the worker's loop under the lock. Times are in one unit, callbacks
-- are values of `C`; what a pass collects is then called outside the lock, in that order.
pub mod Laws
pub mod Runs
mod Tests
use hydra_forge.Prelude.{
  ℕ, ◌+◌, ◌%◌, ◌^◌, Bool, true, false, List, [], ◌∷◌, ◌++◌, Option, none, some, if◌then◌else◌, ◌==◌,
  ltb, leb, nat_eq,
}
use hydra_forge.Prelude.Int.{ℤ, pos, negsuc}
use hydra_forge.Prelude.Maps.{lookup, has, erase}

pub record TimerEntry (C : Type 0) : Type 0 where
  pub deadline : ℕ
  pub period : ℕ
  pub callback : C

-- The timers in the order of their identifiers.
pub record TimerService (C : Type 0) : Type 0 where
  pub next_id : ℕ
  pub timers : List (ℕ × TimerEntry C)

-- `if (delay.count() <= 0) delay = 1ms`, with `tick` the millisecond.
abbrev pub positive_delay : (tick : ℕ) → ℤ → ℕ
positive_delay tick (pos n) = if n == 0 then tick else n
positive_delay tick (negsuc n) = tick

module _ {C : Type 0} where
  abbrev pub insert_ordered : ℕ → TimerEntry C → List (ℕ × TimerEntry C) → List (ℕ × TimerEntry C)
  insert_ordered k v [] = (k, v) ∷ []
  insert_ordered k v ((j, w) ∷ m) =
      let later = insert_ordered k v m in if ltb k j then (k, v) ∷ (j, w) ∷ m else (j, w) ∷ later

  -- `emplace`: a key that is there stays as it is.
  pub emplace : ℕ → TimerEntry C → List (ℕ × TimerEntry C) → List (ℕ × TimerEntry C)
  unfolding has
  emplace k v m = if has k m then m else insert_ordered k v m

  pub add_timer : (deadline period : ℕ) → C → TimerService C → ℕ × TimerService C
  unfolding emplace
  add_timer deadline period callback s = (
    s.next_id,
    record {
      next_id = (s.next_id + 1) % 2 ^ 64;
      timers =
          emplace s.next_id (record { deadline = deadline; period = period; callback = callback })
            s.timers;
    },
  )

  -- `none`: an empty callback. The identifier 0 is the failure.
  pub register_oneshot :
      (tick now : ℕ) → (delay : ℤ) → Option C → TimerService C → ℕ × TimerService C
  unfolding add_timer
  register_oneshot tick now delay none s = (0, s)
  register_oneshot tick now delay (some callback) s =
      add_timer (now + positive_delay tick delay) 0 callback s

  pub register_periodic : (now : ℕ) → (period : ℤ) → Option C → TimerService C → ℕ × TimerService C
  unfolding add_timer
  register_periodic now period none s = (0, s)
  register_periodic now (negsuc n) (some callback) s = (0, s)
  register_periodic now (pos n) (some callback) s =
      let added = add_timer (now + n) n callback s in if n == 0 then (0, s) else added

  pub cancel : ℕ → TimerService C → Bool × TimerService C
  unfolding has erase
  cancel id s =
      if id == 0 then (false, s) else (has id s.timers, record s { timers = erase id s.timers })

  -- One timer in a pass: whether it fires, and what is left of it.
  abbrev pub due : (now : ℕ) → TimerEntry C → Bool
  due now e = leb e.deadline now

  abbrev pub left_of : (now : ℕ) → TimerEntry C → Option (TimerEntry C)
  left_of now e =
      if due now e
      then if e.period == 0 then none else some (record e { deadline = e.deadline + e.period })
      else some e

  abbrev pub keep_left :
      ℕ → Option (TimerEntry C) → List (ℕ × TimerEntry C) → List (ℕ × TimerEntry C)
  keep_left id none m = m
  keep_left id (some e) m = (id, e) ∷ m

  -- The loop over the timers: those that fire, and the timers after it.
  pub collect : (now : ℕ) → List (ℕ × TimerEntry C) → List (ℕ × C) × List (ℕ × TimerEntry C)
  collect now [] = ([], [])
  collect now ((id, e) ∷ m) =
      let rest = collect now m in
      (if due now e then (id, e.callback) ∷ rest.0 else rest.0, keep_left id (left_of now e) rest.1)

  pub worker_pass : (now : ℕ) → TimerService C → List (ℕ × C) × TimerService C
  unfolding collect
  worker_pass now s = ((collect now s.timers).0, record s { timers = (collect now s.timers).1 })
