-- ===== src/Context/Snapshots/Bound.antt =====
-- The bound on the number of snapshots, under saves and changes of the limits (context_engine.cpp).
use hydra_forge.Prelude.{
  ℕ, ◌≡◌, refl, sym, subst, ◌+◌, ◌≤◌, true, false, List, [], ◌∷◌, ◌++◌, Option, none, some, arith,
  Bool-cases, inl, inr, length, any, ◌||◌,
}
use hydra_forge.Prelude.Maps.{lookup, insert, erase, lookup-insert, lookup-erase}
use hydra_forge.Prelude.Text.{Text, text_eq, same, same_iff}
use hydra_forge.Json.{Json}
use hydra_forge.Context.Snapshots.{
  ContextEngine, get_snapshot, over_limits, drop_value, evict, enforce_snapshot_budget, no_room,
  store_snapshot, save_snapshot, set_snapshot_limits, new_engine, estimate_json_size_kb,
}

-- Each key that has a snapshot is in the order.
abbrev pub Listed : List Text → List (Text × Json) → Type 0
Listed keys m = (k : Text) (v : Json) → lookup k m ≡ some v → any (same k) keys ≡ true

Listed-empty : (m : List (Text × Json)) → Listed [] m → m ≡ []
unfolding lookup
Listed-empty [] h = refl
Listed-empty ((j, w) ∷ m) h = let g = h j w (rw ((same_iff j j).1 refl) refl) in cc

Listed-erase :
    (key : Text) (keys : List Text) (m : List (Text × Json))
    → Listed (key ∷ keys) m
    → Listed keys (erase key m)
Listed-erase key keys m h k v p =
    ground (arith, lookup-erase key k m, same_iff key k, same_iff k key, h k v, p)

Listed-missing :
    (key : Text) (keys : List Text) (m : List (Text × Json))
    → Listed (key ∷ keys) m
    → lookup key m ≡ none
    → Listed keys m
Listed-missing key keys m h q k v p = elim (Bool-cases (same k key)) [
  | inl d ↦
      let r : lookup k m ≡ none = subst (λ i. lookup i m ≡ none) (sym ((same_iff k key).0 d)) q in
      cc
  | inr d ↦ ground (arith, h k v p)
]

-- At most `n` snapshots, each with its key in the order.
abbrev pub Bounded : ℕ → ContextEngine → Type 0
Bounded n e = (length e.snapshots ≤ n) × Listed e.snapshot_order e.snapshots

pub length-insert :
    (key : Text) (v : Json) (m : List (Text × Json)) → length (insert key v m) ≤ length m + 1
unfolding insert
length-insert key v [] = ground arith
length-insert key v ((j, w) ∷ m) = ground (arith, length-insert key v m)

module _ (printed_size : Json → ℕ) where
  drop_value-Listed :
      (key : Text) (keys : List Text) (e : ContextEngine) (o : Option Json)
      → Listed (key ∷ keys) e.snapshots
      → lookup key e.snapshots ≡ o
      → Listed keys (drop_value printed_size key o e).snapshots
  drop_value-Listed key keys e none h q = Listed-missing key keys e.snapshots h q
  drop_value-Listed key keys e (some v) h q = Listed-erase key keys e.snapshots h

  drop_value-max_snapshots :
      (key : Text) (e : ContextEngine) (o : Option Json)
      → (drop_value printed_size key o e).max_snapshots ≡ e.max_snapshots
  drop_value-max_snapshots key e none = refl
  drop_value-max_snapshots key e (some v) = refl

  evict-Bounded :
      (keys : List Text) (e : ContextEngine)
      → Listed keys e.snapshots
      → Bounded e.max_snapshots (evict printed_size keys e)
  unfolding evict get_snapshot
  evict-Bounded [] e h = rw (Listed-empty e.snapshots h) (omega arith, λ k v p. cc)
  evict-Bounded (key ∷ keys) e h =
      let d = drop_value printed_size key (get_snapshot key e) e in
      let rest = evict-Bounded keys d (drop_value-Listed key keys e (get_snapshot key e) h refl) in
      elim (Bool-cases (over_limits e)) [
        | inl q ↦ rw q (rw (drop_value-max_snapshots key e (get_snapshot key e)) at rest)
        | inr q ↦ rw q (ground (arith, q), h)
      ]

  evict-max_snapshots :
      (keys : List Text) (e : ContextEngine)
      → (evict printed_size keys e).max_snapshots ≡ e.max_snapshots
  unfolding evict get_snapshot
  evict-max_snapshots [] e = refl
  evict-max_snapshots (key ∷ keys) e =
      let d = drop_value printed_size key (get_snapshot key e) e in
      ground
        (arith, evict-max_snapshots keys d, drop_value-max_snapshots key e (get_snapshot key e))

  any-append_last :
      (k key : Text) (keys : List Text)
      → any (same k) (keys ++ key ∷ []) ≡ (any (same k) keys || same k key)
  any-append_last k key [] = ground arith
  any-append_last k key (j ∷ keys) = ground (arith, any-append_last k key keys)

  store_snapshot-Bounded :
      (key : Text) (ctx : Json) (e : ContextEngine)
      → Bounded e.max_snapshots e
      → no_room printed_size (estimate_json_size_kb printed_size ctx) e ≡ false
      → Bounded e.max_snapshots (store_snapshot printed_size key ctx e)
  store_snapshot-Bounded key ctx e (b, l) r = (
    ground (arith, length-insert key ctx e.snapshots, r),
    λ k v p. ground (
      arith,
      any-append_last k key e.snapshot_order,
      lookup-insert key k ctx e.snapshots,
      same_iff k key,
      same_iff key k,
      l k v,
      p,
    ),
  )

  enforce_snapshot_budget-Bounded :
      (e : ContextEngine)
      → Listed e.snapshot_order e.snapshots
      → Bounded e.max_snapshots (enforce_snapshot_budget printed_size e)
  unfolding enforce_snapshot_budget
  enforce_snapshot_budget-Bounded e l = evict-Bounded e.snapshot_order e l

  enforce_snapshot_budget-max_snapshots :
      (e : ContextEngine) → (enforce_snapshot_budget printed_size e).max_snapshots ≡ e.max_snapshots
  unfolding enforce_snapshot_budget
  enforce_snapshot_budget-max_snapshots e = evict-max_snapshots e.snapshot_order e

  save_snapshot-Bounded :
      (key : Text) (ctx : Json) (e : ContextEngine)
      → Bounded e.max_snapshots e
      → Bounded
          (save_snapshot printed_size key ctx e).max_snapshots
          (save_snapshot printed_size key ctx e)
  unfolding save_snapshot
  save_snapshot-Bounded key ctx e b =
      let size = estimate_json_size_kb printed_size ctx in
      let f = enforce_snapshot_budget printed_size e in
      let bf : Bounded f.max_snapshots f =
        rw (enforce_snapshot_budget-max_snapshots e) (enforce_snapshot_budget-Bounded e b.1) in
      elim (Bool-cases (no_room printed_size size e)) [
        | inl p ↦ elim (Bool-cases (no_room printed_size size f)) [
          | inl q ↦ rw (p, q) bf
          | inr q ↦ rw (p, q) (store_snapshot-Bounded key ctx f bf q)
        ]
        | inr p ↦ rw p (store_snapshot-Bounded key ctx e b p)
      ]

  -- The engines that saves and changes of the limits lead to.
  pub data Reachable : ContextEngine → Type 0 where
    started : Reachable new_engine
    saved :
        (key : Text) (ctx : Json) {e : ContextEngine}
        → Reachable e
        → Reachable (save_snapshot printed_size key ctx e)
    limited :
        (max_count max_size_kb : ℕ) {e : ContextEngine}
        → Reachable e
        → Reachable (set_snapshot_limits printed_size max_count max_size_kb e)

  -- In every engine that is reached from a new one by saves and by changes of the limits, there are at most
  -- `max_snapshots` snapshots, and the order of the insertions has the key of each.
  pub Reachable-Bounded : (e : ContextEngine) → Reachable e → Bounded e.max_snapshots e
  unfolding set_snapshot_limits lookup
  Reachable-Bounded _ started = (omega arith, λ k v p. cc)
  Reachable-Bounded _ (saved key ctx {e} r) =
      save_snapshot-Bounded key ctx e (Reachable-Bounded e r)
  Reachable-Bounded _ (limited max_count max_size_kb {e} r) =
      let f : ContextEngine = record e {
        max_snapshots = max_count;
        max_snapshot_size_kb = max_size_kb;
      } in
      rw (enforce_snapshot_budget-max_snapshots f)
        (enforce_snapshot_budget-Bounded f (Reachable-Bounded e r).1)
