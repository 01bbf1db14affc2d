-- ===== src/Timers/Tests.antt =====
-- A one-shot and a periodic timer.
use hydra_forge.Prelude.{ℕ, ◌≡◌, refl, List, [], ◌∷◌, arith, if◌then◌else◌, any, nat_eq}
use hydra_forge.Prelude.Maps.{lookup}
use hydra_forge.Timers.{TimerService}
use hydra_forge.Timers.Laws.{count}
use hydra_forge.Timers.Runs.{Operation, pass, run, firings, reaches, count-run, oneshot-fires}

abbrev two_timers : TimerService ℕ
two_timers = record {
  next_id = 3;
  timers =
      (1, record { deadline = 10; period = 0; callback = 7 })
      ∷ (2, record { deadline = 5; period = 5; callback = 8 })
      ∷ [];
}

abbrev three_passes : List (Operation ℕ)
three_passes = pass 6 ∷ pass 10 ∷ pass 30 ∷ []

count-run_example :
    count 2 (run three_passes two_timers) ≡ firings three_passes (lookup 2 two_timers.timers)
unfolding lookup
count-run_example =
    count-run 2 three_passes two_timers ((refl, (refl, tt)), omega arith, omega arith) refl

oneshot-fires_example :
    count 1 (run three_passes two_timers) ≡ (if any (reaches 10) three_passes then 1 else 0)
unfolding lookup
oneshot-fires_example =
    oneshot-fires 1 10 7 three_passes two_timers ((refl, (refl, tt)), omega arith, omega arith) refl
      refl
