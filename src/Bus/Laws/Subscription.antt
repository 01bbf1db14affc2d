-- ===== src/Bus/Laws/Subscription.antt =====
-- What `subscribe` and `unsubscribe` do to the callbacks of an event.
use hydra_forge.Prelude.{
  ℕ, ◌+◌, ◌%◌, ◌≡◌, refl, ap, ◌∙◌, Bool, true, false, not, List, [], ◌∷◌, ◌++◌, map, none, some,
  arith, if◌then◌else◌, sym, count_if, one_if, count_if-append, keep_if, any, Bool-cases, inl, inr,
}
use mathlib.Core.List.{Perm, foldr}
use mathlib.Core.List.Perm
use native.Mathlib.Nat.{ℕ_set}
use hydra_forge.Prelude.Text.{Text, same, same_iff}
use hydra_forge.Bus.Glob.{glob_match, has_wildcard}
use hydra_forge.Bus.Event.{BusEvent, word64}
use hydra_forge.Bus.{
  Table, InMemoryBus, push_back, has_token, remove_token, exact_callbacks, wildcard_callbacks,
  is_true, subscribe, unsubscribe, callbacks_for,
}

-- Whether a subscription under `name` gets the events of `topic`.
unfoldable pub delivers : Text → Text → Bool
delivers name topic = if has_wildcard name then is_true (glob_match name topic) else same name topic

module _ {C : Type 0} (name : Text) (token : ℕ) (callback : C) where
  abbrev added : List C → Bool → List C
  added cs b = if b then cs ++ callback ∷ [] else cs

  map-snoc :
      (es : List (ℕ × C))
      → map (λ e. e.1) (es ++ (token, callback) ∷ []) ≡ map (λ e. e.1) es ++ callback ∷ []
  map-snoc [] = refl
  map-snoc (e ∷ es) = ap (◌∷◌ e.1) (map-snoc es)

  exact-push_back :
      (topic : Text) (table : Table C)
      → exact_callbacks topic (push_back name (token, callback) table)
        ≡ added (exact_callbacks topic table) (same name topic)
  unfolding exact_callbacks push_back
  exact-push_back topic [] = ground arith
  exact-push_back topic ((n, es) ∷ table) = ground (
    arith,
    same_iff n name,
    same_iff n topic,
    same_iff name topic,
    map-snoc es,
    exact-push_back topic table,
  )

  count-wildcard-push_back :
      (hit : C → Bool) (topic : Text) (table : Table C)
      → count_if hit (wildcard_callbacks topic (push_back name (token, callback) table))
        ≡ count_if hit (wildcard_callbacks topic table)
          + (if is_true (glob_match name topic) then one_if (hit callback) else 0)
  unfolding wildcard_callbacks push_back
  count-wildcard-push_back hit topic [] = ground arith
  count-wildcard-push_back hit topic ((n, es) ∷ table) = ground (
    arith,
    same_iff n name,
    map-snoc es,
    count_if-append hit (map (λ e. e.1) es ++ callback ∷ []) (wildcard_callbacks topic table),
    count_if-append hit (map (λ e. e.1) es) (callback ∷ []),
    count_if-append hit (map (λ e. e.1) es) (wildcard_callbacks topic table),
    count_if-append hit (map (λ e. e.1) es)
        (wildcard_callbacks topic (push_back name (token, callback) table)),
    count-wildcard-push_back hit topic table,
  )

module _ {C : Type 0} (hit : C → Bool) (topic : Text) where
  -- The callbacks of one entry, added to those of the others.
  abbrev with_entry : Text × List (ℕ × C) → ℕ → ℕ
  with_entry (p, es) n =
      (if is_true (glob_match p topic) then count_if hit (map (λ e. e.1) es) else 0) + n

  count-wildcard_callbacks :
      (t : Table C) → count_if hit (wildcard_callbacks topic t) ≡ foldr with_entry 0 t
  unfolding wildcard_callbacks
  count-wildcard_callbacks [] = refl
  count-wildcard_callbacks ((p, es) ∷ t) = ground (
    arith,
    count-wildcard_callbacks t,
    count_if-append hit (map (λ e. e.1) es) (wildcard_callbacks topic t),
  )

  -- A rearranged table of patterns gives every callback as often.
  count-Perm :
      {s t : Table C}
      → Perm s t
      → count_if hit (wildcard_callbacks topic s) ≡ count_if hit (wildcard_callbacks topic t)
  count-Perm {s} {t} p =
      count-wildcard_callbacks s
      ∙ Perm.foldr-eq ℕ_set with_entry (λ a b n. omega arith) p 0
      ∙ sym (count-wildcard_callbacks t)

module _ {B C : Type 0} (order : Table C → Table C) (rearranges : (t : Table C) → Perm (order t) t)
    (hit : C → Bool) where
  -- The callbacks of an event that are hit, by the two tables.
  count-callbacks_for :
      (event : BusEvent B) (b : InMemoryBus B C)
      → count_if hit (callbacks_for order event b)
        ≡ count_if hit (exact_callbacks event.topic b.exact_subscribers)
          + count_if hit (wildcard_callbacks event.topic b.wildcard_subscribers)
  unfolding callbacks_for
  count-callbacks_for event b =
      count_if-append hit (exact_callbacks event.topic b.exact_subscribers)
        (wildcard_callbacks event.topic (order b.wildcard_subscribers))
      ∙ ap (λ n. count_if hit (exact_callbacks event.topic b.exact_subscribers) + n)
          (count-Perm hit event.topic (rearranges b.wildcard_subscribers))

  pub count-callbacks-subscribe :
      (name : Text) (callback : C) (event : BusEvent B) (b : InMemoryBus B C)
      → count_if hit (callbacks_for order event (subscribe name callback b).0)
        ≡ count_if hit (callbacks_for order event b)
          + (if delivers name event.topic then one_if (hit callback) else 0)
  unfolding subscribe delivers
  count-callbacks-subscribe name callback event b = ground (
    arith,
    count-callbacks_for event b,
    count-callbacks_for event (subscribe name callback b).0,
    exact-push_back name b.next_token callback event.topic b.exact_subscribers,
    count-wildcard-push_back name b.next_token callback hit event.topic b.wildcard_subscribers,
    count_if-append hit (exact_callbacks event.topic b.exact_subscribers) (callback ∷ []),
  )

-- No list of a table holds the token.
module _ {C : Type 0} where
  abbrev pub Unused : ℕ → Table C → Type 0
  Unused token [] = Unit
  Unused token ((n, es) ∷ table) = (any (has_token token) es ≡ false) × Unused token table

  remove-Unused :
      (token : ℕ) (table : Table C) → Unused token table → remove_token token table ≡ none
  unfolding remove_token
  remove-Unused token [] h = refl
  remove-Unused token ((n, es) ∷ table) h = rw (h.0, remove-Unused token table h.1)

  keep-Unused :
      (token : ℕ) (es : List (ℕ × C))
      → any (has_token token) es ≡ false
      → keep_if (λ e. not (has_token token e)) es ≡ es
  keep-Unused token [] h = refl
  keep-Unused token (e ∷ es) h = ground (arith, keep-Unused token es)

  -- The callbacks that two tables give to every topic are the same.
  abbrev SameCallbacks : Table C → Table C → Type 0
  SameCallbacks s t =
      ((topic : Text) → exact_callbacks topic s ≡ exact_callbacks topic t)
      × ((topic : Text) → wildcard_callbacks topic s ≡ wildcard_callbacks topic t)

  any-snoc :
      (token : ℕ) (callback : C) (es : List (ℕ × C))
      → any (has_token token) (es ++ (token, callback) ∷ []) ≡ true
  any-snoc token callback [] = ground arith
  any-snoc token callback (e ∷ es) = ground (arith, any-snoc token callback es)

  keep-snoc :
      (token : ℕ) (callback : C) (es : List (ℕ × C))
      → any (has_token token) es ≡ false
      → keep_if (λ e. not (has_token token e)) (es ++ (token, callback) ∷ []) ≡ es
  keep-snoc token callback [] h = ground arith
  keep-snoc token callback (e ∷ es) h = ground (arith, keep-snoc token callback es)

  remove-push_back :
      (name : Text) (token : ℕ) (callback : C) (table : Table C)
      → Unused token table
      → (t : Table C) × (remove_token token (push_back name (token, callback) table) ≡ some t)
        × SameCallbacks t table
  unfolding remove_token push_back exact_callbacks wildcard_callbacks
  remove-push_back name token callback [] h =
      ((name, []) ∷ [], ground arith, (λ topic. ground arith, λ topic. ground arith))
  remove-push_back name token callback ((n, es) ∷ table) h = elim (Bool-cases (same n name)) [
    | inl e ↦ (
      (n, es) ∷ table,
      rw (e, any-snoc token callback es, keep-snoc token callback es h.0),
      (λ topic. refl, λ topic. refl),
    )
    | inr e ↦
        let (t, removed, callbacks) = remove-push_back name token callback table h.1 in
        (
          (n, es) ∷ t,
          rw (e, h.0, removed),
          (λ topic. rw (callbacks.0 topic), λ topic. rw (callbacks.1 topic)),
        )
  ]

module _ {B C : Type 0} where
  unsubscribe-exact :
      (token : ℕ) (b : InMemoryBus B C) (t : Table C)
      → remove_token token b.exact_subscribers ≡ some t
      → unsubscribe token b ≡ record b { exact_subscribers = t }
  unfolding unsubscribe
  unsubscribe-exact token b t e = rw (e, unsubscribe)

module _ {B C : Type 0} (order : Table C → Table C)
    (rearranges : (t : Table C) → Perm (order t) t) where
  -- Unsubscribing with the token that `subscribe` returned gives every event back the callbacks that it had
  -- before, each as often, in whatever order the table of patterns is met, if the token is used by no older
  -- subscription.
  pub callbacks-unsubscribe-subscribe :
      (hit : C → Bool) (name : Text) (callback : C) (event : BusEvent B) (b : InMemoryBus B C)
      → Unused b.next_token b.exact_subscribers
      → Unused b.next_token b.wildcard_subscribers
      → let (subscribed, token) = subscribe name callback b in
        count_if hit (callbacks_for order event (unsubscribe token subscribed))
        ≡ count_if hit (callbacks_for order event b)
  unfolding subscribe unsubscribe
  callbacks-unsubscribe-subscribe hit name callback event b hx hw =
      let (subscribed, token) = subscribe name callback b in
      count-callbacks_for order rearranges hit event (unsubscribe token subscribed)
      ∙ elim (Bool-cases (has_wildcard name)) [
        | inl e ↦
            let (t, removed, callbacks) =
              remove-push_back name b.next_token callback b.wildcard_subscribers hw in
            rw (e, remove-Unused b.next_token b.exact_subscribers hx, removed)
              (ap
                (λ cs.
                  count_if hit (exact_callbacks event.topic b.exact_subscribers) + count_if hit cs)
                (callbacks.1 event.topic))
        | inr e ↦
            let (t, removed, callbacks) =
              remove-push_back name b.next_token callback b.exact_subscribers hx in
            let after : InMemoryBus B C = record b {
              exact_subscribers = push_back name (b.next_token, callback) b.exact_subscribers;
              next_token = (b.next_token + 1) % word64;
            } in
            rw (e, unsubscribe-exact b.next_token after t removed)
              (ap
                (λ cs.
                  count_if hit cs
                  + count_if hit (wildcard_callbacks event.topic b.wildcard_subscribers))
                (callbacks.0 event.topic))
      ]
      ∙ sym (count-callbacks_for order rearranges hit event b)
