-- ===== src/Budget/Race.antt =====
-- Threads that consume from one counter at the same time: every order of their atomic steps, and
-- every pattern of spurious failures, is a schedule.
use hydra_forge.Prelude.{
  ℕ, ◌+◌, ◌≤◌, ◌<◌, ◌≡◌, refl, Bool, true, false, List, [], ◌∷◌, none, some, arith, All, count_if,
  get_elem?, set, replicate, one_if, All-get_elem?, All-set, All-map, All-replicate, count_if-set,
  count_if-replicate, ◌≢◌, Option-cases, inl, inr,
}
use hydra_forge.Prelude.Int.{ℤ, pos}
use hydra_forge.Budget.{
  Phase, start, trying, done, granted, refused, overflow, step, exchange, check, reached, int_max,
}

pub record Threads : Type 0 where
  pub used : ℕ
  pub phases : List Phase

-- Thread `i` makes its next step; `spurious` fails its exchange.
pub turn : ℤ → ℕ × Bool → Threads → Threads
turn limit (i, spurious) s = elim (get_elem? s.phases i) [
  | none ↦ s
  | some p ↦
      let r = step limit spurious (s.used, p) in record { used = r.0; phases = set s.phases i r.1 }
]

pub run : ℤ → List (ℕ × Bool) → Threads → Threads
run limit [] s = s
run limit (t ∷ ts) s = run limit ts (turn limit t s)

abbrev is_granted : Phase → Bool
is_granted (done granted) = true
is_granted _ = false

-- The calls that have been granted.
abbrev pub grants : List Phase → ℕ
grants = count_if is_granted

-- What a call knows under a limit `m`: a value that it is about to exchange is below the limit,
-- and it has not overflowed.
abbrev Sound : ℕ → Phase → Type 0
Sound m start = Unit
Sound m (trying e) = e < m
Sound m (done granted) = Unit
Sound m (done refused) = Unit
Sound m (done overflow) = ⊥

record IsBounded (m : ℕ) (s : Threads) : Type 0 where
  bounded : s.used ≤ m
  sound : All (Sound m) s.phases

module _ (m : ℕ) where
  check-Sound : (used : ℕ) → Sound m (check (pos m) used)
  unfolding check reached
  check-Sound used = ground arith

  step-bound :
      (spurious : Bool) (used : ℕ) (p : Phase)
      → m ≤ int_max
      → used ≤ m
      → Sound m p
      → ((step (pos m) spurious (used, p)).0 ≤ m) × Sound m (step (pos m) spurious (used, p)).1
  unfolding step exchange check reached
  step-bound spurious used start w h k = ground arith
  step-bound spurious used (trying e) w h k = ground arith
  step-bound spurious used (done o) w h k = (h, k)

Sound-no_overflow : (m : ℕ) (p : Phase) → Sound m p → p ≢ done overflow
Sound-no_overflow m start h = λ e. cc
Sound-no_overflow m (trying e) h = λ q. cc
Sound-no_overflow m (done granted) h = λ e. cc
Sound-no_overflow m (done refused) h = λ e. cc
Sound-no_overflow m (done overflow) h = absurd h

turn-IsBounded :
    (m : ℕ) (t : ℕ × Bool) (s : Threads)
    → m ≤ int_max
    → IsBounded m s
    → IsBounded m (turn (pos m) t s)
unfolding turn
turn-IsBounded m (i, spurious) s w v = elim (Option-cases (get_elem? s.phases i)) [
  | inl e ↦ rw (e, turn) v
  | inr (p, e) ↦
      let k = All-get_elem? (Sound m) s.phases i p e v.sound in
      let b = step-bound m spurious s.used p w v.bounded k in
      rw (e, turn) (record { bounded = b.0; sound = All-set (Sound m) s.phases i _ b.1 v.sound })
]

run-IsBounded :
    (m : ℕ) (ts : List (ℕ × Bool)) (s : Threads)
    → m ≤ int_max
    → IsBounded m s
    → IsBounded m (run (pos m) ts s)
unfolding run
run-IsBounded m [] s w v = v
run-IsBounded m (t ∷ ts) s w v = run-IsBounded m ts (turn (pos m) t s) w (turn-IsBounded m t s w v)

-- `n` calls that have not begun yet, on a counter that stands at `used`.
abbrev pub arriving : ℕ → ℕ → Threads
arriving n used = record { used = used; phases = replicate n start }

-- Under a limit that the counter has not passed, no schedule of any number of threads takes the
-- counter past the limit, and no call overflows the `int`.
pub run-le-limit :
    (m n used : ℕ) (ts : List (ℕ × Bool))
    → m ≤ int_max
    → used ≤ m
    → ((run (pos m) ts (arriving n used)).used ≤ m)
      × All (λ p. p ≢ done overflow) (run (pos m) ts (arriving n used)).phases
run-le-limit m n used ts w h =
    let v =
      run-IsBounded m ts (arriving n used) w
        (record { bounded = h; sound = All-replicate (Sound m) n start tt }) in
    (v.bounded, All-map (Sound m) (λ p. p ≢ done overflow) _ (Sound-no_overflow m) v.sound)

step-grants :
    (limit : ℤ) (spurious : Bool) (used : ℕ) (p : Phase)
    → let r = step limit spurious (used, p) in
      r.0 + one_if (is_granted p) ≡ used + one_if (is_granted r.1)
unfolding step exchange check
step-grants limit spurious used start = ground arith
step-grants limit spurious used (trying e) = ground arith
step-grants limit spurious used (done o) = refl

turn-grants :
    (limit : ℤ) (t : ℕ × Bool) (s : Threads)
    → (turn limit t s).used + grants s.phases ≡ s.used + grants (turn limit t s).phases
unfolding turn
turn-grants limit (i, spurious) s = elim (Option-cases (get_elem? s.phases i)) [
  | inl e ↦ rw (e, turn)
  | inr (p, e) ↦
      rw (e, turn)
        (omega (
          arith,
          step-grants limit spurious s.used p,
          count_if-set is_granted s.phases i p (step limit spurious (s.used, p)).1 e,
        ))
]

run-grants :
    (limit : ℤ) (ts : List (ℕ × Bool)) (s : Threads)
    → (run limit ts s).used + grants s.phases ≡ s.used + grants (run limit ts s).phases
unfolding run
run-grants limit [] s = refl
run-grants limit (t ∷ ts) s =
    omega (arith, turn-grants limit t s, run-grants limit ts (turn limit t s))

-- Whatever the limit and the schedule, the counter has grown by exactly the number of calls that
-- were granted: no increment is lost, and no refused call has counted.
pub run-counts-grants :
    (limit : ℤ) (n used : ℕ) (ts : List (ℕ × Bool))
    → (run limit ts (arriving n used)).used ≡ used + grants (run limit ts (arriving n used)).phases
run-counts-grants limit n used ts =
    omega (arith, run-grants limit ts (arriving n used), count_if-replicate is_granted n start refl)
