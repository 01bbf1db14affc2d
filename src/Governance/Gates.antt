-- ===== src/Governance/Gates.antt =====
-- What `propose`, `commit` and `revert` of the mutation governor decide, and what they emit.
use hydra_forge.Prelude.{◌≡◌, [], ◌∷◌, ◌++◌, if◌then◌else◌}
use hydra_forge.Prelude.Text.{codes}
use hydra_forge.Governance.{
  MutationContext, MutationEvent, MutationGovernor, World, Reply, returns, throws_forbidden, denial,
  proposal,
}

-- The event that a reply of `propose` stands for.
pub audit : MutationContext → Reply → MutationEvent
audit c (returns d) = if d.approved then proposal c else denial c d.denial_reason d.failed_step
audit c throws_forbidden = denial c (codes "l4_forbidden_v1") (codes "authorization")

module _ {W : Type 0} (g : MutationGovernor W) (c : MutationContext) where
  abbrev Audited : World W → Reply × World W → Type 0
  Audited w r = r.1.bus ≡ w.bus ++ audit c r.0 ∷ []
