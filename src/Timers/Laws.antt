-- ===== src/Timers/Laws.antt =====
-- How often a timer fires under any sequence of operations (timer_service.cpp).
use hydra_forge.Prelude.{
  ℕ, ◌≡◌, ◌≢◌, refl, ap, ◌∙◌, ◌+◌, false, List, [], ◌∷◌, Option, none, some, arith, if◌then◌else◌,
  ◌==◌, ltb, Bool-cases, inl, inr, nat_eq,
}
use hydra_forge.Prelude.Maps.{lookup, has, erase, lookup-erase}
use hydra_forge.Timers.{TimerEntry, insert_ordered, emplace, due, left_of, keep_left, collect}

module _ {C : Type 0} where
  -- Each identifier stands once.
  abbrev pub Unique : List (ℕ × TimerEntry C) → Type 0
  Unique [] = Unit
  Unique ((id, e) ∷ m) = (lookup id m ≡ none) × Unique m

  lookup-insert_ordered :
      (i k : ℕ) (v : TimerEntry C) (m : List (ℕ × TimerEntry C))
      → i ≢ k
      → lookup i (insert_ordered k v m) ≡ lookup i m
  unfolding lookup
  lookup-insert_ordered i k v [] n = ground (arith, n)
  lookup-insert_ordered i k v ((j, w) ∷ m) n = ground (arith, n, lookup-insert_ordered i k v m n)

  pub lookup-emplace :
      (i k : ℕ) (v : TimerEntry C) (m : List (ℕ × TimerEntry C))
      → i ≢ k
      → lookup i (emplace k v m) ≡ lookup i m
  unfolding emplace
  lookup-emplace i k v m n = ground (arith, lookup-insert_ordered i k v m n)

  has-lookup : (k : ℕ) (m : List (ℕ × TimerEntry C)) → has k m ≡ false → lookup k m ≡ none
  unfolding has lookup
  has-lookup k [] h = refl
  has-lookup k ((j, w) ∷ m) h = ground (arith, has-lookup k m)

  missing_tail :
      (k j : ℕ) (w : TimerEntry C) (m : List (ℕ × TimerEntry C))
      → lookup k ((j, w) ∷ m) ≡ none
      → (j ≢ k) × (lookup k m ≡ none)
  unfolding lookup
  missing_tail k j w m h = ground (arith, h, nat_eq.beq_iff j k)

  insert_ordered-Unique :
      (k : ℕ) (v : TimerEntry C) (m : List (ℕ × TimerEntry C))
      → lookup k m ≡ none
      → Unique m
      → Unique (insert_ordered k v m)
  unfolding lookup
  insert_ordered-Unique k v [] h u = (refl, tt)
  insert_ordered-Unique k v ((j, w) ∷ m) h (u, us) =
      let t = missing_tail k j w m h in
      elim (Bool-cases (ltb k j)) [
        | inl q ↦ rw q (h, (u, us))
        | inr q ↦ rw q (lookup-insert_ordered j k v m t.0 ∙ u, insert_ordered-Unique k v m t.1 us)
      ]

  abbrev pub left_from : (now : ℕ) → Option (TimerEntry C) → Option (TimerEntry C)
  left_from now none = none
  left_from now (some e) = left_of now e

  abbrev pub fires_now : (now : ℕ) → Option (TimerEntry C) → ℕ
  fires_now now none = 0
  fires_now now (some e) = if due now e then 1 else 0

  -- How often an identifier is in a list of firings.
  abbrev pub count : ℕ → List (ℕ × C) → ℕ
  count i [] = 0
  count i ((j, f) ∷ l) = (if j == i then 1 else 0) + count i l

  abbrev first_of : Option (TimerEntry C) → Option (TimerEntry C) → Option (TimerEntry C)
  first_of none later = later
  first_of (some e) later = some e

  lookup-keep_left :
      (i j : ℕ) (o : Option (TimerEntry C)) (m : List (ℕ × TimerEntry C))
      → lookup i (keep_left j o m) ≡ (if j == i then first_of o (lookup i m) else lookup i m)
  unfolding lookup
  lookup-keep_left i j none m = ground arith
  lookup-keep_left i j (some e) m = ground arith

  first_of-none : (o : Option (TimerEntry C)) → first_of o none ≡ o
  first_of-none none = refl
  first_of-none (some e) = refl

  keep_left-Unique :
      (j : ℕ) (o : Option (TimerEntry C)) (m : List (ℕ × TimerEntry C))
      → lookup j m ≡ none
      → Unique m
      → Unique (keep_left j o m)
  keep_left-Unique j none m h u = u
  keep_left-Unique j (some e) m h u = (h, u)

  pub lookup-collect :
      (i now : ℕ) (m : List (ℕ × TimerEntry C))
      → Unique m
      → lookup i (collect now m).1 ≡ left_from now (lookup i m)
  unfolding lookup collect
  lookup-collect i now [] u = refl
  lookup-collect i now ((j, e) ∷ m) (u, us) =
      let ih = lookup-collect i now m us in
      ground (
        arith,
        lookup-keep_left i j (left_of now e) (collect now m).1,
        ih,
        u,
        nat_eq.beq_iff j i,
        first_of-none (left_of now e),
      )

  pub count-collect :
      (i now : ℕ) (m : List (ℕ × TimerEntry C))
      → Unique m
      → count i (collect now m).0 ≡ fires_now now (lookup i m)
  unfolding lookup collect
  count-collect i now [] u = refl
  count-collect i now ((j, e) ∷ m) (u, us) =
      ground (arith, count-collect i now m us, u, nat_eq.beq_iff j i)

  pub collect-Unique : (now : ℕ) (m : List (ℕ × TimerEntry C)) → Unique m → Unique (collect now m).1
  unfolding collect
  collect-Unique now [] u = tt
  collect-Unique now ((j, e) ∷ m) (u, us) =
      keep_left-Unique j (left_of now e) (collect now m).1
        (lookup-collect j now m us ∙ ap (left_from now) u) (collect-Unique now m us)

  pub emplace-Unique :
      (k : ℕ) (v : TimerEntry C) (m : List (ℕ × TimerEntry C)) → Unique m → Unique (emplace k v m)
  unfolding emplace
  emplace-Unique k v m u = elim (Bool-cases (has k m)) [
    | inl q ↦ rw q u
    | inr q ↦ rw q (insert_ordered-Unique k v m (has-lookup k m q) u)
  ]

  pub erase-Unique : (k : ℕ) (m : List (ℕ × TimerEntry C)) → Unique m → Unique (erase k m)
  unfolding erase
  erase-Unique k [] u = tt
  erase-Unique k ((j, w) ∷ m) (u, us) = elim (Bool-cases (j == k)) [
    | inl q ↦ rw q (erase-Unique k m us)
    | inr q ↦ rw q (ground (arith, lookup-erase k j m, u), erase-Unique k m us)
  ]
