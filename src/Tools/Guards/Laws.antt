-- ===== src/Tools/Guards/Laws.antt =====
-- Which paths and commands pass (path_policy.cpp, dangerous_patterns.cpp).
use hydra_forge.Prelude.{
  ℕ, suc, ◌≡◌, refl, ap, ◌∙◌, ◌↔◌, Bool, true, false, List, [], ◌∷◌, ◌++◌, Option, none, some,
  arith, map, any, ◌⊎◌, inl, inr, Bool-cases,
}
use hydra_forge.Prelude.Text.{Text, contains, starts_with, starts_with-append}
use hydra_forge.Policy.{tolower}
use hydra_forge.Tools.Guards.{
  allowed, PathPolicy, first_denied, in_prefixes, in_allowed, under_prefix, check_canonical,
  check_resolved, check, finds, shell_patterns, is_dangerous, dangerous_patterns,
  contains_dangerous, first_match,
}

starts_with-split : (p s : Text) → starts_with p s ≡ true → (rest : Text) × (s ≡ p ++ rest)
unfolding starts_with
starts_with-split [] s h = (s, refl)
starts_with-split (x ∷ p) [] h = cc
starts_with-split (x ∷ p) (y ∷ s) h =
    let (rest, e) = starts_with-split p s (ground arith) in (rest, ground (arith, e))

module _ {R : Type 0} (regex_search : R → Text → Bool) where
  first_denied-none :
      (i : ℕ) (ps : List R) (path : Text)
      → (first_denied regex_search i ps path ≡ none) ↔ (any (λ p. regex_search p path) ps ≡ false)
  unfolding first_denied
  first_denied-none i [] path = ground arith
  first_denied-none i (p ∷ ps) path = ground (arith, first_denied-none (suc i) ps path)

module _ {R : Type 0} (weakly_canonical : Text → Option Text) (regex_search : R → Text → Bool) where
  allowed-in_allowed :
      (policy : PathPolicy R) (c : Text) (o : Option ℕ)
      → check_canonical weakly_canonical regex_search policy c o ≡ allowed
      → (o ≡ none) × (in_allowed weakly_canonical policy.allowed_prefixes c ≡ true)
  allowed-in_allowed policy c (some i) h = cc
  allowed-in_allowed policy c none h = (refl, ground arith)

  allowed-resolved :
      (policy : PathPolicy R) (o : Option Text)
      → check_resolved weakly_canonical regex_search policy o ≡ allowed
      → (c : Text) × (o ≡ some c)
        × (any (λ p. regex_search p c) policy.denied_patterns ≡ false)
        × (in_allowed weakly_canonical policy.allowed_prefixes c ≡ true)
  allowed-resolved policy none h = cc
  allowed-resolved policy (some c) h =
      let d = first_denied regex_search 0 policy.denied_patterns c in
      let a = allowed-in_allowed policy c d h in
      (c, refl, (first_denied-none regex_search 0 policy.denied_patterns c).0 a.0, a.1)

  resolved-allowed :
      (policy : PathPolicy R) (c : Text)
      → any (λ p. regex_search p c) policy.denied_patterns ≡ false
      → in_allowed weakly_canonical policy.allowed_prefixes c ≡ true
      → check_resolved weakly_canonical regex_search policy (some c) ≡ allowed
  resolved-allowed policy c d a =
      rw ((first_denied-none regex_search 0 policy.denied_patterns c).1 d, a) refl

  check-in_allowed :
      (policy : PathPolicy R) (path : Text)
      → (check weakly_canonical regex_search policy path ≡ allowed) ↔ (
          (c : Text) × (weakly_canonical path ≡ some c)
          × (any (λ p. regex_search p c) policy.denied_patterns ≡ false)
          × (in_allowed weakly_canonical policy.allowed_prefixes c ≡ true))
  unfolding check
  check-in_allowed policy path = (
    allowed-resolved policy (weakly_canonical path),
    λ (c, h, d, a). rw h (resolved-allowed policy c d a),
  )

  in_prefixes-append :
      (before after : List Text) (p q rest : Text)
      → weakly_canonical p ≡ some q
      → in_prefixes weakly_canonical (before ++ p ∷ after) (q ++ rest) ≡ true
  unfolding in_prefixes
  in_prefixes-append [] after p q rest h = rw (h, starts_with-append q rest) refl
  in_prefixes-append (x ∷ before) after p q rest h =
      ground (arith, in_prefixes-append before after p q rest h)

  in_allowed-append :
      (before after : List Text) (p q rest : Text)
      → weakly_canonical p ≡ some q
      → in_allowed weakly_canonical (before ++ p ∷ after) (q ++ rest) ≡ true
  in_allowed-append [] after p q rest h = in_prefixes-append [] after p q rest h
  in_allowed-append (x ∷ before) after p q rest h = in_prefixes-append (x ∷ before) after p q rest h

  -- The path begins with what some prefix resolves to.
  abbrev pub Beneath : List Text → Text → Type 0
  Beneath prefixes c =
      (before : List Text) × (p : Text) × (after : List Text) × (q : Text) × (rest : Text)
      × (prefixes ≡ before ++ p ∷ after)
      × (weakly_canonical p ≡ some q)
      × (c ≡ q ++ rest)

  -- No prefix is given, or the path is beneath one.
  abbrev pub Jailed : List Text → Text → Type 0
  Jailed prefixes c = (prefixes ≡ []) ⊎ Beneath prefixes c

  under_prefix-Beneath :
      (p : Text) (ps : List Text) (c : Text) (o : Option Text)
      → weakly_canonical p ≡ o
      → under_prefix weakly_canonical o c ≡ true
      → Beneath (p ∷ ps) c
  under_prefix-Beneath p ps c none e h = cc
  under_prefix-Beneath p ps c (some q) e h =
      let (rest, k) = starts_with-split q c h in ([], p, ps, q, rest, refl, e, k)

  in_prefixes-Beneath :
      (ps : List Text) (c : Text) → in_prefixes weakly_canonical ps c ≡ true → Beneath ps c
  unfolding in_prefixes
  in_prefixes-Beneath [] c h = cc
  in_prefixes-Beneath (p ∷ ps) c h =
      elim (Bool-cases (under_prefix weakly_canonical (weakly_canonical p) c)) [
        | inl u ↦ under_prefix-Beneath p ps c (weakly_canonical p) refl u
        | inr u ↦
            let (before, x, after, q, rest, e, k, l) =
              in_prefixes-Beneath ps c (ground (arith, u, h)) in
            (p ∷ before, x, after, q, rest, ap (λ t. p ∷ t) e, k, l)
      ]

  in_allowed-Jailed :
      (ps : List Text) (c : Text) → in_allowed weakly_canonical ps c ≡ true → Jailed ps c
  in_allowed-Jailed [] c h = inl refl
  in_allowed-Jailed (p ∷ ps) c h = inr (in_prefixes-Beneath (p ∷ ps) c h)

  Jailed-in_allowed :
      (ps : List Text) (c : Text) → Jailed ps c → in_allowed weakly_canonical ps c ≡ true
  Jailed-in_allowed ps c (inl e) = rw e refl
  Jailed-in_allowed ps c (inr (before, p, after, q, rest, e, k, l)) =
      rw (e, l) (in_allowed-append before after p q rest k)

  -- A path is allowed exactly if it resolves, no denied pattern is found in what it resolves to, and the
  -- list of prefixes is empty or has one that resolves to a text with which it begins.
  pub check-allowed_iff :
      (policy : PathPolicy R) (path : Text)
      → (check weakly_canonical regex_search policy path ≡ allowed) ↔ (
          (c : Text) × (weakly_canonical path ≡ some c)
          × (any (λ p. regex_search p c) policy.denied_patterns ≡ false)
          × Jailed policy.allowed_prefixes c)
  check-allowed_iff policy path = (
    λ h.
        let (c, e, d, a) = (check-in_allowed policy path).0 h in
        (c, e, d, in_allowed-Jailed policy.allowed_prefixes c a),
    λ (c, e, d, j).
        (check-in_allowed policy path).1 (c, e, d, Jailed-in_allowed policy.allowed_prefixes c j),
  )

  -- A prefix need not end at a separator: a path that resolves to what a prefix resolves to, followed by
  -- any text, is allowed if no denied pattern is found in it.
  pub check-append :
      (before after : List Text) (patterns : List R) (path p q rest : Text)
      → weakly_canonical p ≡ some q
      → weakly_canonical path ≡ some (q ++ rest)
      → any (λ r. regex_search r (q ++ rest)) patterns ≡ false
      → check weakly_canonical regex_search
          (record { allowed_prefixes = before ++ p ∷ after; denied_patterns = patterns })
          path
        ≡ allowed
  check-append before after patterns path p q rest h k d =
      (check-in_allowed
          (record { allowed_prefixes = before ++ p ∷ after; denied_patterns = patterns }) path).1
        (q ++ rest, k, d, in_allowed-append before after p q rest h)

starts_with-extend : (p s b : Text) → starts_with p s ≡ true → starts_with p (s ++ b) ≡ true
unfolding starts_with
starts_with-extend [] s b h = refl
starts_with-extend (x ∷ p) [] b h = cc
starts_with-extend (x ∷ p) (y ∷ s) b h = ground (arith, starts_with-extend p s b)

contains-extend : (p s b : Text) → contains p s ≡ true → contains p (s ++ b) ≡ true
unfolding contains
contains-extend p [] [] h = h
contains-extend p [] (y ∷ b) h = ground (arith, starts_with-extend p [] (y ∷ b))
contains-extend p (x ∷ s) b h =
    ground (arith, starts_with-extend p (x ∷ s) b, contains-extend p s b)

contains-prepend : (p a s : Text) → contains p s ≡ true → contains p (a ++ s) ≡ true
unfolding contains
contains-prepend p [] s h = h
contains-prepend p (x ∷ a) s h = ground (arith, contains-prepend p a s)

contains-around : (p a s b : Text) → contains p s ≡ true → contains p (a ++ s ++ b) ≡ true
contains-around p a s b h = contains-extend p (a ++ s) b (contains-prepend p a s h)

any-map :
    (p q : Text → Bool) (ps : List Text)
    → ((t : Text) → p t ≡ true → q t ≡ true)
    → any p ps ≡ true
    → any q ps ≡ true
any-map p q [] f h = cc
any-map p q (t ∷ ps) f h = ground (arith, f t, any-map p q ps f)

finds-append : (ps : List Text) (a s b : Text) → finds ps s ≡ true → finds ps (a ++ s ++ b) ≡ true
finds-append ps a s b = any-map _ _ ps (λ t. contains-around t a s b)

map-append : (f : ℕ → ℕ) (a b : Text) → map f (a ++ b) ≡ map f a ++ map f b
map-append f [] b = refl
map-append f (x ∷ a) b = ap (λ t. f x ∷ t) (map-append f a b)

-- A command that has a dangerous one within it is dangerous, for both lists of patterns, whatever stands
-- before and after it.
pub is_dangerous-append :
    (a cmd b : Text)
    → (is_dangerous cmd ≡ true → is_dangerous (a ++ cmd ++ b) ≡ true)
      × (contains_dangerous cmd ≡ true → contains_dangerous (a ++ cmd ++ b) ≡ true)
unfolding is_dangerous contains_dangerous
is_dangerous-append a cmd b =
    let e =
      map-append tolower (a ++ cmd) b ∙ ap (λ t. t ++ map tolower b) (map-append tolower a cmd) in
    rw e (
      finds-append shell_patterns (map tolower a) (map tolower cmd) (map tolower b),
      finds-append (map (map tolower) dangerous_patterns) (map tolower a) (map tolower cmd)
          (map tolower b),
    )

-- `first_match` gives a pattern exactly for the commands that are found dangerous, and else the empty text.
pub first_match-contains_dangerous :
    (cmd : Text) → (first_match cmd ≡ []) ↔ (contains_dangerous cmd ≡ false)
unfolding first_match contains_dangerous
first_match-contains_dangerous cmd = ground arith
