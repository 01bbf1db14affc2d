-- ===== src/Scheduler/Dag/Release.antt =====
-- What the end of a node takes from the degrees of its successors, and which it makes ready.
use hydra_forge.Prelude.{
  ℕ, ◌+◌, ◌-◌, ◌≤◌, ap, ◌<◌, ◌≡◌, ◌∙◌, Bool, true, ◌&&◌, ◌||◌, List, [], ◌∷◌, ◌++◌, arith,
  if◌then◌else◌, ◌==◌, ltb, any, any-append,
}
use hydra_forge.Prelude.Int.{pos, decrement, is_zero}
use hydra_forge.Prelude.Maps.{insert, at, at-insert}
use hydra_forge.Prelude.Text.{Text, text_eq, same, same_iff}
use hydra_forge.Scheduler.Node.{Node}
use hydra_forge.Scheduler.Dag.{Degrees, Dag, release, update_successors}
use hydra_forge.Scheduler.Dag.Edges.{occurrences, degree}

-- `p` is in the queue.
abbrev pub queued : Text → List Text → Bool
queued p = any (λ q. same q p)

release-one :
    (p q : Text) (degrees : Degrees) (queue : List Text) (k : ℕ)
    → degree p degrees ≡ pos k
    → (same q p ≡ true → 0 < k)
    → let lower = decrement (degree q degrees) in
      (degree p (insert q lower degrees) ≡ pos (k - (if same q p then 1 else 0)))
      × (queued p (if is_zero lower then queue ++ q ∷ [] else queue)
          ≡ (queued p queue || (same q p && k == 1)))
unfolding decrement is_zero
release-one p q degrees queue k e h = ground (
  arith,
  at-insert (pos 0) q p (decrement (degree q degrees)) degrees,
  same_iff q p,
  any-append (λ x. same x p) queue (q ∷ []),
)

release-degree :
    (p : Text) (ps : List Text) (degrees : Degrees) (queue : List Text) (k : ℕ)
    → degree p degrees ≡ pos k
    → occurrences p ps ≤ k
    → (degree p (release ps degrees queue).0 ≡ pos (k - occurrences p ps))
      × (queued p (release ps degrees queue).1
          ≡ (queued p queue || (ltb 0 (occurrences p ps) && k == occurrences p ps)))
unfolding release
release-degree p [] degrees queue k e h = ground arith
release-degree p (q ∷ qs) degrees queue k e h =
    let (d, w) = release-one p q degrees queue k e (λ hit. ground arith) in
    let (d', w') = release-degree p qs _ _ _ d (ground arith) in
    (d' ∙ ground arith, w' ∙ ground arith)

-- How often a path is a successor of a finished node: by its `next` paths and by what waits for it.
abbrev pub successions : Text → Node → Text → Dag → ℕ
successions p n current d =
    occurrences p n.next + occurrences p (at [] current d.wait_for_dependents)

-- When a node ends, a successor that has at least as many edges open as lead to it from the node, by the
-- node's `next` paths and by the nodes that wait for it, loses exactly these, and it joins the queue exactly
-- if they were its last ones and there was at least one.
pub update_successors-degree :
    (n : Node) (current p : Text) (d : Dag) (queue : List Text) (k : ℕ)
    → degree p d.in_degree ≡ pos k
    → successions p n current d ≤ k
    → (degree p (update_successors n current d queue).0.in_degree
        ≡ pos (k - successions p n current d))
      × (queued p (update_successors n current d queue).1 ≡ (
          queued p queue || (ltb 0 (successions p n current d) && k == successions p n current d)))
unfolding update_successors
update_successors-degree n current p d queue k e h =
    let waiting = at [] current d.wait_for_dependents in
    let (d1, w1) = release-degree p n.next d.in_degree queue k e (omega (arith, h)) in
    let (d2, w2) = release-degree p waiting _ _ _ d1 (omega (arith, h)) in
    (d2 ∙ ap pos (omega arith), w2 ∙ ground (arith, w1, h))
