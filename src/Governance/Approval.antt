-- ===== src/Governance/Approval.antt =====
-- Which mutations `propose` approves, and whom it asks.
use hydra_forge.Prelude.{
  List, [], ◌∷◌, ◌≡◌, refl, ◌↔◌, ◌≢◌, ◌⊎◌, Bool, true, Option, none, some, arith,
}
use Prim.{tt}
use hydra_forge.Prelude.Text.{Text, codes, same_iff}
use hydra_forge.Governance.{
  yolo, agent, MutationContext, MutationGovernor, ReviewMeta, ReviewCall, ReviewPreview, World,
  returns, poor, source_allowed, listed, approval, pass_gate, review_trace, check_evaluation,
  ask_human, authorize_dsl, authorize_skill, propose, make_review_meta, make_review_call_ctx,
  make_review_preview,
}

-- The source is one of the list.
abbrev pub Listed : Text → List Text → Type 0
Listed s [] = ⊥
Listed s (t ∷ ts) = (t ≡ s) ⊎ Listed s ts

listed_iff : (s : Text) (ts : List Text) → (listed s ts ≡ true) ↔ Listed s ts
unfolding listed
listed_iff s [] = ground arith
listed_iff s (t ∷ ts) = ground (arith, same_iff t s, listed_iff s ts)

source_allowed_iff :
    (whitelist : List Text) (s : Text)
    → (source_allowed whitelist s ≡ true) ↔ ((s ≢ []) × Listed s whitelist)
unfolding source_allowed
source_allowed_iff whitelist s = ground (arith, same_iff s [], listed_iff s whitelist)

module _ {W : Type 0} (g : MutationGovernor W) (c : MutationContext) where
  -- The regression gate lets the mutation pass.
  abbrev Regressed : Option (MutationContext → W → Bool × W) → W → Type 0
  Regressed none w = Unit
  Regressed (some gate) w = (gate c w).0 ≡ true

  -- The evaluator does not find the change poor, and the regression gate lets it pass.
  abbrev Evaluated : W → Type 0
  Evaluated w =
      let r = g.evaluate (review_trace g c) w in (r.0 ≢ poor) × Regressed g.regression_gate r.1

  -- A human approves, and then the gates.
  abbrev Reviewed : Option (ReviewMeta → ReviewCall → ReviewPreview → W → Bool × W) → W → Type 0
  Reviewed none w = ⊥
  Reviewed (some ask) w =
      let r = ask (make_review_meta c) (make_review_call_ctx c) (make_review_preview c) w in
      (r.0 ≡ true) × Evaluated r.1

  -- The level and the mode admit the change: level 1 always, level 2 not in the mode `yolo`, level 3
  -- in the mode `agent` with a human's approval.
  abbrev pub Admitted : W → Type 0
  Admitted w =
      ((c.mutation_kind ≡ codes "L1_prompt") × Evaluated w)
      ⊎ ((c.mutation_kind ≡ codes "L2_dsl") × (c.mode ≢ yolo) × Evaluated w)
      ⊎ ((c.mutation_kind ≡ codes "L3_skill") × (c.mode ≡ agent) × Reviewed g.process_request w)

  pass_gate_iff :
      (gate : Option (MutationContext → W → Bool × W)) (w : World W)
      → ((pass_gate g c gate w).0 ≡ returns approval) ↔ Regressed gate w.outside
  unfolding pass_gate
  pass_gate_iff none w = (λ h. tt, λ h. refl)
  pass_gate_iff (some gate) w = ground arith

  check_evaluation_iff :
      (w : World W) → ((check_evaluation g c w).0 ≡ returns approval) ↔ Evaluated w.outside
  unfolding check_evaluation
  check_evaluation_iff w = ground (
    arith,
    pass_gate_iff g.regression_gate
        (record w { outside = (g.evaluate (review_trace g c) w.outside).1 }),
  )

  ask_human_iff :
      (ask : Option (ReviewMeta → ReviewCall → ReviewPreview → W → Bool × W)) (w : World W)
      → ((ask_human g c ask w).0 ≡ returns approval) ↔ Reviewed ask w.outside
  unfolding ask_human
  ask_human_iff none w = ground arith
  ask_human_iff (some ask) w =
      let r = ask (make_review_meta c) (make_review_call_ctx c) (make_review_preview c) w.outside in
      ground (arith, check_evaluation_iff (record w { outside = r.1 }))

  -- `propose` approves a mutation exactly if its source is on the whitelist (and is not empty) and the
  -- change is admitted: level 1, level 2 outside the mode `yolo`, or level 3 in the mode `agent` with a
  -- human's approval; then the evaluator must not find it poor, and the regression gate, where there
  -- is one, must let it pass.
  pub propose-approves_iff :
      (w : World W)
      → ((propose g c w).0 ≡ returns approval)
        ↔ ((c.source_id ≢ []) × Listed c.source_id g.whitelist × Admitted w.outside)
  unfolding propose authorize_dsl authorize_skill
  propose-approves_iff w = ground (
    arith,
    same_iff c.mutation_kind (codes "L1_prompt"),
    same_iff c.mutation_kind (codes "L2_dsl"),
    same_iff c.mutation_kind (codes "L3_skill"),
    same_iff c.mutation_kind (codes "L4_weight"),
    source_allowed_iff g.whitelist c.source_id,
    check_evaluation_iff w,
    ask_human_iff g.process_request w,
  )
