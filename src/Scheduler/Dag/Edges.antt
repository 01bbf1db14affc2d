-- ===== src/Scheduler/Dag/Edges.antt =====
-- The in-degrees that `build_dag` computes, and what the end of a node takes from them.
use hydra_forge.Prelude.{
  ℕ, ◌+◌, ◌≡◌, ◌∙◌, ◌⊎◌, inl, inr, Bool, true, ◌||◌, List, [], ◌∷◌, arith, if◌then◌else◌, length,
  count_if, Bool-cases, any,
}
use hydra_forge.Prelude.Int.{ℤ, pos, increment}
use hydra_forge.Prelude.Maps.{insert, has, at, at-insert}
use hydra_forge.Prelude.Text.{Text, text_eq, same, same_iff}
use hydra_forge.Scheduler.Node.{Node, value, throws, >>=-eq-value}
use hydra_forge.Scheduler.Dag.{
  NodeMap, Dag, Degrees, bump, clear_entries, add_next, add_deps, add_branches, static_deps,
  fork_branches, add_node_edges, add_fork_edges, parse_node_wait_for_deps,
}

-- How often `p` stands in a list of paths.
abbrev pub occurrences : Text → List Text → ℕ
occurrences p = count_if (λ q. same q p)

-- The degree that is stored for `p`.
abbrev pub degree : Text → Degrees → ℤ
degree p m = at (pos 0) p m

degree-bump :
    (q p : Text) (m : Degrees) (k : ℕ)
    → degree p m ≡ pos k
    → degree p (bump q m) ≡ pos (k + (if same q p then 1 else 0))
unfolding bump increment
degree-bump q p m k e =
    ground (arith, at-insert (pos 0) q p (increment (at (pos 0) q m)) m, same_iff q p)

-- The paths that `add_deps` is given for a node.
abbrev pub deps_of : Node → List Text
deps_of n = elim (static_deps n.wait_for) [ value ds ↦ ds | throws e ↦ [] ]

module _ (p : Text) where
  -- The edges that one node brings to `p` in the second loop.
  abbrev pub edges_of : Node → ℕ
  edges_of n = occurrences p n.next + (if same n.path p then length (deps_of n) else 0)

  abbrev pub edges_into : List Node → ℕ
  edges_into [] = 0
  edges_into (n ∷ ns) = edges_of n + edges_into ns

  abbrev pub forks_into : List Node → ℕ
  forks_into [] = 0
  forks_into (n ∷ ns) = occurrences p (fork_branches n) + forks_into ns

module _ (m : NodeMap) (p : Text) where
  add_next-degree :
      (current : Text) (ps : List Text) (d d' : Dag) (k : ℕ)
      → add_next m current ps d ≡ value d'
      → degree p d.in_degree ≡ pos k
      → degree p d'.in_degree ≡ pos (k + occurrences p ps)
  unfolding add_next
  add_next-degree current [] d d' k e h = ground arith
  add_next-degree current (q ∷ qs) d d' k e h = elim (Bool-cases (has q m)) [
    | inl known ↦
        add_next-degree current qs _ d' _ (rw known at e) (degree-bump q p d.in_degree k h)
        ∙ ground arith
    | inr unknown ↦ cc (rw unknown at e)
  ]

  add_deps-degree :
      (current : Text) (ps : List Text) (d d' : Dag) (k : ℕ)
      → add_deps m current ps d ≡ value d'
      → degree p d.in_degree ≡ pos k
      → degree p d'.in_degree ≡ pos (k + (if same current p then length ps else 0))
  unfolding add_deps
  add_deps-degree current [] d d' k e h = ground arith
  add_deps-degree current (q ∷ qs) d d' k e h = elim (Bool-cases (has q m)) [
    | inl known ↦
        add_deps-degree current qs _ d' _ (rw known at e) (degree-bump current p d.in_degree k h)
        ∙ ground arith
    | inr unknown ↦ cc (rw unknown at e)
  ]

  add_branches-degree :
      (current : Text) (ps : List Text) (d d' : Dag) (k : ℕ)
      → add_branches m current ps d ≡ value d'
      → degree p d.in_degree ≡ pos k
      → degree p d'.in_degree ≡ pos (k + occurrences p ps)
  unfolding add_branches
  add_branches-degree current [] d d' k e h = ground arith
  add_branches-degree current (q ∷ qs) d d' k e h = elim (Bool-cases (has q m)) [
    | inl known ↦
        add_branches-degree current qs _ d' _ (rw known at e) (degree-bump q p d.in_degree k h)
        ∙ ground arith
    | inr unknown ↦ cc (rw unknown at e)
  ]

  add_node_edges-degree :
      (ns : List Node) (d d' : Dag) (k : ℕ)
      → add_node_edges m ns d ≡ value d'
      → degree p d.in_degree ≡ pos k
      → degree p d'.in_degree ≡ pos (k + edges_into p ns)
  unfolding add_node_edges
  add_node_edges-degree [] d d' k e h = ground arith
  add_node_edges-degree (n ∷ ns) d d' k e h =
      let (a, ea, rest) = >>=-eq-value (add_next m n.path n.next d) _ e in
      let (ds, es, rest') = >>=-eq-value (static_deps n.wait_for) _ rest in
      let (b, eb, rest'') = >>=-eq-value (add_deps m n.path ds a) _ rest' in
      let step = add_deps-degree n.path ds a b _ eb (add_next-degree n.path n.next d a k ea h) in
      add_node_edges-degree ns b d' _ rest'' step ∙ rw (es, deps_of) (ground arith)

  add_fork_edges-degree :
      (ns : List Node) (d d' : Dag) (k : ℕ)
      → add_fork_edges m ns d ≡ value d'
      → degree p d.in_degree ≡ pos k
      → degree p d'.in_degree ≡ pos (k + forks_into p ns)
  unfolding add_fork_edges
  add_fork_edges-degree [] d d' k e h = ground arith
  add_fork_edges-degree (n ∷ ns) d d' k e h =
      let (a, ea, rest) = >>=-eq-value (add_branches m n.path (fork_branches n) d) _ e in
      let step = add_branches-degree n.path (fork_branches n) d a k ea h in
      add_fork_edges-degree ns a d' _ rest step ∙ ground arith

-- `p` is the path of one of the nodes.
abbrev pub is_path_of : Text → List Node → Bool
is_path_of p ns = any (λ n. same n.path p) ns

clear_entries-degree :
    (p : Text) (ns : List Node) (d : Dag)
    → (is_path_of p ns ≡ true) ⊎ (degree p d.in_degree ≡ pos 0)
    → degree p (clear_entries ns d).in_degree ≡ pos 0
unfolding clear_entries
clear_entries-degree p [] d (inl h) = cc
clear_entries-degree p [] d (inr h) = h
clear_entries-degree p (n ∷ ns) d h =
    clear_entries-degree p ns _ (first h (at-insert (pos 0) n.path p (pos 0) d.in_degree))
  where
    first :
        ((same n.path p || is_path_of p ns) ≡ true) ⊎ (degree p d.in_degree ≡ pos 0)
        → degree p (insert n.path (pos 0) d.in_degree)
          ≡ (if same n.path p then pos 0 else degree p d.in_degree)
        → (is_path_of p ns ≡ true) ⊎ (degree p (insert n.path (pos 0) d.in_degree) ≡ pos 0)
    first (inl e) l = elim (Bool-cases (same n.path p)) [
      | inl hit ↦ inr (rw hit at l)
      | inr miss ↦ inl (rw miss at e)
    ]
    first (inr e) l = inr (l ∙ rw e (ground arith))

-- Whatever the maps held before: when the graph has been built, the degree of every node is the
-- number of its incoming edges, counted with repeats: the `next` edges to it, its own static
-- dependencies and the forks that name it as a branch.
pub parse-degree :
    (ns : List Node) (m : NodeMap) (d d' : Dag) (p : Text)
    → parse_node_wait_for_deps ns m d ≡ value d'
    → is_path_of p ns ≡ true
    → degree p d'.in_degree ≡ pos (edges_into p ns + forks_into p ns)
unfolding parse_node_wait_for_deps
parse-degree ns m d d' p e h =
    let (a, ea, rest) = >>=-eq-value (add_node_edges m ns (clear_entries ns d)) _ e in
    let cleared = clear_entries-degree p ns d (inl h) in
    add_fork_edges-degree m p ns a d' _ rest
      (add_node_edges-degree m p ns (clear_entries ns d) a 0 ea cleared)
    ∙ ground arith
