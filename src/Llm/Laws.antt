-- ===== src/Llm/Laws.antt =====
-- What a stream charges and logs, however it is read and whenever it is destroyed
-- (cost_tracking_decorator.cpp, compliance_decorator.cpp).
use hydra_forge.Prelude.{
  ℕ, zero, suc, ◌≡◌, refl, sym, ap, ◌∙◌, ◌+◌, true, false, List, [], ◌∷◌, ◌++◌, Option, none, some,
  arith, if◌then◌else◌, Bool-cases, inl, inr,
}
use mathlib.Core.List.{append-nil, append_assoc}
use hydra_forge.Prelude.Int.{ℤ, pos, negsuc}
use hydra_forge.Prelude.Text.{Text}
use hydra_forge.Budget.Controller.{
  BudgetController, bill, record_calls, record_calls-bill, record_llm_call, record_llm_call-bill,
}
use hydra_forge.Llm.{
  TrackingStream, track, record_estimate, track_chunk, tracking_next, tracking_destroy, is_positive,
  ComplianceLog, ComplianceStream, comply, emit_log, comply_chunk, compliance_next,
  compliance_destroy,
}

-- A step in the life of a stream: it is read, or other calls charge the budget.
pub data Turn : Type 0 where
  read : Turn
  others : List (ℤ × Text) → Turn

abbrev pub total : Option BudgetController → Option ℕ
total none = none
total (some c) = some c.cost_tracker.total_cost

-- What the others are charged.
abbrev pub billed : List Turn → ℕ
billed [] = 0
billed (read ∷ turns) = billed turns
billed (others calls ∷ turns) = bill calls + billed turns

bill-nothing :
    (tokens : ℤ) (model : Text) → is_positive tokens ≡ false → bill ((tokens, model) ∷ []) ≡ 0
bill-nothing (pos zero) model h = omega arith
bill-nothing (pos (suc n)) model h = ground arith
bill-nothing (negsuc n) model h = refl

module _ {S : Type 0} where
  abbrev estimate : TrackingStream S → ℕ
  estimate st = bill ((st.max_tokens_estimate, st.model_name) ∷ [])

  abbrev owed : TrackingStream S → ℕ
  owed st = if st.recorded then 0 else estimate st

  record_estimate-total :
      (st : TrackingStream S) (c : BudgetController)
      → (c' : BudgetController) × (record_estimate st (some c) ≡ some c')
        × (c'.cost_tracker.total_cost ≡ c.cost_tracker.total_cost + estimate st)
  record_estimate-total st c = elim (Bool-cases (is_positive st.max_tokens_estimate)) [
    | inl t ↦ (
      record_llm_call st.max_tokens_estimate st.model_name c,
      ground (arith, t),
      record_llm_call-bill st.max_tokens_estimate st.model_name c,
    )
    | inr f ↦
        (c, ground (arith, f), omega (arith, bill-nothing st.max_tokens_estimate st.model_name f))
  ]

  module _ (inner_next : S → Option Text × S) where
    -- The budget after the turns and the destruction of the stream.
    pub life : List Turn → TrackingStream S → Option BudgetController → Option BudgetController
    life [] st budget = tracking_destroy st budget
    life (read ∷ turns) st budget = let r = tracking_next inner_next st budget in life turns r.1 r.2
    life (others calls ∷ turns) st none = life turns st none
    life (others calls ∷ turns) st (some c) = life turns st (some (record_calls calls c))

    next-owed :
        (st : TrackingStream S) (c : BudgetController) (r : Option Text × S)
        → (c' : BudgetController) × ((track_chunk st (some c) r).2 ≡ some c')
          × (c'.cost_tracker.total_cost + owed (track_chunk st (some c) r).1
              ≡ c.cost_tracker.total_cost + owed st)
    next-owed st c (some chunk, s) = (c, refl, refl)
    next-owed st c (none, s) = elim (Bool-cases st.recorded) [
      | inl t ↦ (c, ground (arith, t), ground (arith, t))
      | inr f ↦
          let (c', e, h) = record_estimate-total st c in
          (c', ground (arith, f, e), ground (arith, f, h))
    ]

    destroy-owed :
        (st : TrackingStream S) (c : BudgetController)
        → total (tracking_destroy st (some c)) ≡ some (c.cost_tracker.total_cost + owed st)
    unfolding tracking_destroy
    destroy-owed st c = elim (Bool-cases st.recorded) [
      | inl t ↦ ground (arith, t)
      | inr f ↦ let (c', e, h) = record_estimate-total st c in ground (arith, f, e, h)
    ]

    life-owed :
        (turns : List Turn) (st : TrackingStream S) (c : BudgetController)
        → total (life turns st (some c))
          ≡ some (c.cost_tracker.total_cost + (billed turns + owed st))
    unfolding life tracking_next
    life-owed [] st c = destroy-owed st c ∙ ap some (omega arith)
    life-owed (read ∷ turns) st c =
        let r = track_chunk st (some c) (inner_next st.inner) in
        let (c', e, h) = next-owed st c (inner_next st.inner) in
        ap (λ b. total (life turns r.1 b)) e ∙ life-owed turns r.1 c' ∙ ap some (omega (arith, h))
    life-owed (others calls ∷ turns) st c =
        life-owed turns st (record_calls calls c)
        ∙ ap some (omega (arith, record_calls-bill calls c))

    -- Whatever the inner stream returns, however often the stream is read, and whatever other calls are
    -- charged in between: when it has been destroyed, the budget has been charged for the other calls and
    -- once for its estimate, nothing if that is not positive.
    pub life-total :
        (turns : List Turn) (inner : S) (model_name : Text) (max_tokens_estimate : ℤ)
        (c : BudgetController)
        → total (life turns (track inner model_name max_tokens_estimate) (some c))
          ≡ some (
              c.cost_tracker.total_cost
              + (billed turns + bill ((max_tokens_estimate, model_name) ∷ [])))
    life-total turns inner model_name max_tokens_estimate c =
        life-owed turns (track inner model_name max_tokens_estimate) c

    abbrev pub received_from : Option Text → Text → Text
    received_from none rest = []
    received_from (some chunk) rest = chunk ++ rest

    -- The chunks up to the end of the inner stream, in at most `n` readings.
    abbrev pub received : ℕ → S → Text
    received zero s = []
    received (suc n) s = received_from (inner_next s).0 (received n (inner_next s).1)

    module _ (hash : Text → ℕ) where
      -- The log after `n` readings and the destruction of the stream.
      pub logged :
          ℕ → ComplianceStream S → Option (List ComplianceLog) → Option (List ComplianceLog)
      unfolding compliance_next compliance_destroy
      logged zero st bus = compliance_destroy hash st bus
      logged (suc n) st bus = let r = compliance_next hash inner_next st bus in logged n r.1 r.2

      emitted-next :
          (st : ComplianceStream S) (log : List ComplianceLog) (r : Option Text × S)
          → st.emitted ≡ true
          → ((comply_chunk hash st (some log) r).2 ≡ some log)
            × ((comply_chunk hash st (some log) r).1.emitted ≡ true)
      emitted-next st log (some chunk, s) h = (refl, h)
      emitted-next st log (none, s) h = (ground (arith, h), ground (arith, h))

      logged-emitted :
          (n : ℕ) (st : ComplianceStream S) (log : List ComplianceLog)
          → st.emitted ≡ true
          → logged n st (some log) ≡ some log
      unfolding logged compliance_next compliance_destroy
      logged-emitted zero st log h = ground (arith, h)
      logged-emitted (suc n) st log h =
          let r = comply_chunk hash st (some log) (inner_next st.inner) in
          let (b, e) = emitted-next st log (inner_next st.inner) h in
          ap (logged n r.1) b ∙ logged-emitted n r.1 log e

      abbrev entry_of : ComplianceStream S → Text → List ComplianceLog → List ComplianceLog
      entry_of st t log = emit_log hash (record st { accumulated = t }) log

      abbrev one_entry : ComplianceStream S → Text → List ComplianceLog → List ComplianceLog
      one_entry st chunks log = entry_of st (st.accumulated ++ chunks) log

      abbrev LogsOne : ℕ → Type 0
      LogsOne n =
          (st : ComplianceStream S) (log : List ComplianceLog)
          → st.emitted ≡ false
          → logged n st (some log) ≡ some (one_entry st (received n st.inner) log)

      chunk-LogsOne :
          (n : ℕ) (st : ComplianceStream S) (log : List ComplianceLog) (r : Option Text × S)
          → st.emitted ≡ false
          → LogsOne n
          → logged n (comply_chunk hash st (some log) r).1 (comply_chunk hash st (some log) r).2
            ≡ some (one_entry st (received_from r.0 (received n r.1)) log)
      chunk-LogsOne n st log (some chunk, s) h ih =
          ih (record st { inner = s; accumulated = st.accumulated ++ chunk }) log h
          ∙ ap (λ t. some (entry_of st t log)) (append_assoc st.accumulated chunk (received n s))
      chunk-LogsOne n st log (none, s) h ih = rw h (
          logged-emitted n (record st { inner = s; emitted = true }) (emit_log hash st log) refl
          ∙ ap (λ t. some (entry_of st t log)) (sym (append-nil st.accumulated)))

      logged-LogsOne : (n : ℕ) → LogsOne n
      unfolding logged compliance_next compliance_destroy
      logged-LogsOne zero st log h =
          rw h (ap (λ t. some (entry_of st t log)) (sym (append-nil st.accumulated)))
      logged-LogsOne (suc n) st log h =
          chunk-LogsOne n st log (inner_next st.inner) h (logged-LogsOne n)

      -- Whatever the inner stream returns and however often the stream is read: when it has been
      -- destroyed, the log has one entry more, with the hash of the chunks up to the inner stream's end.
      pub logged-comply :
          (n : ℕ) (inner : S) (prompt_hash : ℕ) (model_name : Text) (log : List ComplianceLog)
          → logged n (comply inner prompt_hash model_name) (some log)
            ≡ some (
                log
                ++ record {
                  completion_hash = hash (received n inner);
                  prompt_hash = prompt_hash;
                  model = model_name;
                }
                  ∷ [])
      logged-comply n inner prompt_hash model_name log =
          logged-LogsOne n (comply inner prompt_hash model_name) log refl
