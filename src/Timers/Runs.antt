-- ===== src/Timers/Runs.antt =====
-- Any sequence of registrations, cancellations and passes, seen from one timer (timer_service.cpp).
use hydra_forge.Prelude.{
  ℕ, suc, ◌≡◌, refl, ap, ◌∙◌, ◌+◌, ◌^◌, ◌<◌, Bool, false, ◌||◌, List, [], ◌∷◌, ◌++◌, Option, none,
  some, arith, if◌then◌else◌, ◌==◌, leb, length, any, Bool-cases, inl, inr, nat_eq,
}
use hydra_forge.Prelude.Int.{ℤ, pos, negsuc}
use hydra_forge.Prelude.Maps.{lookup, lookup-erase}
use hydra_forge.Timers.{
  TimerEntry, TimerService, add_timer, register_oneshot, register_periodic, cancel, worker_pass,
}
use hydra_forge.Timers.Laws.{
  Unique, lookup-emplace, left_from, fires_now, count, lookup-collect, count-collect,
  collect-Unique, emplace-Unique, erase-Unique,
}

pub data Operation (C : Type 0) : Type 0 where
  oneshot : (tick now : ℕ) → (delay : ℤ) → Option C → Operation C
  periodic : (now : ℕ) → (period : ℤ) → Option C → Operation C
  cancelled : ℕ → Operation C
  pass : (now : ℕ) → Operation C

both_false : (a b : Bool) → (a || b) ≡ false → (a ≡ false) × (b ≡ false)
both_false a b h = ground arith

module _ {C : Type 0} where
  -- What an operation fires, and the service after it.
  pub apply : Operation C → TimerService C → List (ℕ × C) × TimerService C
  unfolding register_oneshot register_periodic cancel worker_pass
  apply (oneshot tick now delay cb) s = ([], (register_oneshot tick now delay cb s).1)
  apply (periodic now period cb) s = ([], (register_periodic now period cb s).1)
  apply (cancelled id) s = ([], (cancel id s).1)
  apply (pass now) s = worker_pass now s

  -- All that a sequence of operations fires.
  abbrev pub run : List (Operation C) → TimerService C → List (ℕ × C)
  run [] s = []
  run (op ∷ ops) s = (apply op s).0 ++ run ops (apply op s).1

  abbrev pub cancels : ℕ → Operation C → Bool
  cancels i (cancelled id) = id == i
  cancels i _ = false

  -- The timer on its own.
  abbrev pub left_by : Operation C → Option (TimerEntry C) → Option (TimerEntry C)
  left_by (pass now) o = left_from now o
  left_by _ o = o

  abbrev pub fires_by : Operation C → Option (TimerEntry C) → ℕ
  fires_by (pass now) o = fires_now now o
  fires_by _ o = 0

  abbrev pub firings : List (Operation C) → Option (TimerEntry C) → ℕ
  firings [] o = 0
  firings (op ∷ ops) o = fires_by op o + firings ops (left_by op o)

  -- A service in which the identifier has been given out, and in which `n` more do not wrap.
  abbrev pub Given : ℕ → ℕ → TimerService C → Type 0
  Given i n s = Unique s.timers × (i < s.next_id) × (s.next_id + n < 2 ^ 64)

  -- One operation, seen from one timer.
  abbrev Seen : ℕ → ℕ → Operation C → TimerService C → List (ℕ × C) × TimerService C → Type 0
  Seen i n op s r =
      (count i r.0 ≡ fires_by op (lookup i s.timers))
      × (lookup i r.1.timers ≡ left_by op (lookup i s.timers))
      × Given i n r.1

  add_timer-Seen :
      (i n deadline period : ℕ) (cb : C) (s : TimerService C)
      → Given i (suc n) s
      → (lookup i (add_timer deadline period cb s).1.timers ≡ lookup i s.timers)
        × Given i n (add_timer deadline period cb s).1
  unfolding add_timer
  add_timer-Seen i n deadline period cb s (u, l, b) = (
    lookup-emplace i s.next_id _ s.timers (λ e. omega arith),
    (emplace-Unique s.next_id _ s.timers u, omega arith, omega arith),
  )

  stays : (i n : ℕ) (s : TimerService C) → Given i (suc n) s → Given i n s
  stays i n s (u, l, b) = (u, l, omega arith)

  oneshot-Seen :
      (i n tick now : ℕ) (delay : ℤ) (cb : Option C) (s : TimerService C)
      → Given i (suc n) s
      → (lookup i (register_oneshot tick now delay cb s).1.timers ≡ lookup i s.timers)
        × Given i n (register_oneshot tick now delay cb s).1
  unfolding register_oneshot
  oneshot-Seen i n tick now delay none s g = (refl, stays i n s g)
  oneshot-Seen i n tick now delay (some cb) s g = add_timer-Seen i n _ 0 cb s g

  periodic-Seen :
      (i n now : ℕ) (period : ℤ) (cb : Option C) (s : TimerService C)
      → Given i (suc n) s
      → (lookup i (register_periodic now period cb s).1.timers ≡ lookup i s.timers)
        × Given i n (register_periodic now period cb s).1
  unfolding register_periodic
  periodic-Seen i n now period none s g = (refl, stays i n s g)
  periodic-Seen i n now (negsuc p) (some cb) s g = (refl, stays i n s g)
  periodic-Seen i n now (pos p) (some cb) s g = elim (Bool-cases (p == 0)) [
    | inl q ↦ rw q (refl, stays i n s g)
    | inr q ↦ rw q (add_timer-Seen i n (now + p) p cb s g)
  ]

  cancel-Seen :
      (i n id : ℕ) (s : TimerService C)
      → (id == i) ≡ false
      → Given i (suc n) s
      → (lookup i (cancel id s).1.timers ≡ lookup i s.timers) × Given i n (cancel id s).1
  unfolding cancel
  cancel-Seen i n id s d g = elim (Bool-cases (id == 0)) [
    | inl q ↦ rw q (refl, stays i n s g)
    | inr q ↦ rw q (
      ground (arith, lookup-erase id i s.timers, d),
      (erase-Unique id s.timers g.0, (stays i n s g).1, (stays i n s g).2),
    )
  ]

  apply-Seen :
      (i n : ℕ) (op : Operation C) (s : TimerService C)
      → cancels i op ≡ false
      → Given i (suc n) s
      → Seen i n op s (apply op s)
  unfolding apply worker_pass
  apply-Seen i n (oneshot tick now delay cb) s d g =
      let r = oneshot-Seen i n tick now delay cb s g in (refl, r.0, r.1)
  apply-Seen i n (periodic now period cb) s d g =
      let r = periodic-Seen i n now period cb s g in (refl, r.0, r.1)
  apply-Seen i n (cancelled id) s d g = let r = cancel-Seen i n id s d g in (refl, r.0, r.1)
  apply-Seen i n (pass now) s d (u, l, b) = (
    count-collect i now s.timers u,
    lookup-collect i now s.timers u,
    (collect-Unique now s.timers u, l, omega arith),
  )

  count-append : (i : ℕ) (l m : List (ℕ × C)) → count i (l ++ m) ≡ count i l + count i m
  count-append i [] m = omega arith
  count-append i ((j, f) ∷ l) m = ground (arith, count-append i l m)

  -- Under any sequence of registrations, passes and cancellations of other timers, a timer fires as often as
  -- it would alone, whatever the other timers do. Its identifier has been given out, and those that the
  -- sequence gives out do not wrap.
  pub count-run :
      (i : ℕ) (ops : List (Operation C)) (s : TimerService C)
      → Given i (length ops) s
      → any (cancels i) ops ≡ false
      → count i (run ops s) ≡ firings ops (lookup i s.timers)
  count-run i [] s g d = refl
  count-run i (op ∷ ops) s g d =
      let d' = both_false (cancels i op) (any (cancels i) ops) d in
      let v = apply-Seen i (length ops) op s d'.0 g in
      let rest = rw v.1 at (count-run i ops (apply op s).1 v.2 d'.1) in
      count-append i (apply op s).0 (run ops (apply op s).1) ∙ ground (arith, v.0, rest)

  firings-none : (ops : List (Operation C)) → firings ops none ≡ 0
  firings-none [] = refl
  firings-none (oneshot tick now delay cb ∷ ops) = ground (arith, firings-none ops)
  firings-none (periodic now period cb ∷ ops) = ground (arith, firings-none ops)
  firings-none (cancelled id ∷ ops) = ground (arith, firings-none ops)
  firings-none (pass now ∷ ops) = ground (arith, firings-none ops)

  -- A pass at or after a time.
  abbrev pub reaches : ℕ → Operation C → Bool
  reaches d (pass now) = leb d now
  reaches d _ = false

  firings-oneshot :
      (ops : List (Operation C)) (d : ℕ) (cb : C)
      → firings ops (some (record { deadline = d; period = 0; callback = cb }))
        ≡ (if any (reaches d) ops then 1 else 0)
  firings-oneshot [] d cb = refl
  firings-oneshot (oneshot tick now delay f ∷ ops) d cb = ground (arith, firings-oneshot ops d cb)
  firings-oneshot (periodic now period f ∷ ops) d cb = ground (arith, firings-oneshot ops d cb)
  firings-oneshot (cancelled id ∷ ops) d cb = ground (arith, firings-oneshot ops d cb)
  firings-oneshot (pass now ∷ ops) d cb = elim (Bool-cases (leb d now)) [
    | inl q ↦ rw q (ground (arith, firings-none ops))
    | inr q ↦ rw q (ground (arith, firings-oneshot ops d cb))
  ]

  -- A one-shot timer that is not cancelled fires exactly once if there is a pass at or after its deadline,
  -- and else never, under any sequence of registrations, passes and cancellations of other timers.
  pub oneshot-fires :
      (i d : ℕ) (cb : C) (ops : List (Operation C)) (s : TimerService C)
      → Given i (length ops) s
      → lookup i s.timers ≡ some (record { deadline = d; period = 0; callback = cb })
      → any (cancels i) ops ≡ false
      → count i (run ops s) ≡ (if any (reaches d) ops then 1 else 0)
  oneshot-fires i d cb ops s g e c =
      count-run i ops s g c ∙ ap (firings ops) e ∙ firings-oneshot ops d cb
