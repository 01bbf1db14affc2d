-- ===== src/Llm.antt =====
-- The streams by which two decorators of a language model follow a generation (src/common/llm):
-- `TrackingStream` of cost_tracking_decorator.cpp, which charges the budget, and `ComplianceStream` of
-- compliance_decorator.cpp, which logs hashes. The stream inside is a state `S` with its `next`. The budget
-- and the bus are shared with others; `none` is a null pointer. The hash is a parameter, the time of an
-- entry is left out, and `destroy` is the destructor.
mod Laws
mod RateLimit
mod Tests
use hydra_forge.Prelude.{
  ℕ, Bool, true, false, List, [], ◌∷◌, ◌++◌, Option, none, some, if◌then◌else◌, ltb,
}
use hydra_forge.Prelude.Int.{ℤ, pos, negsuc}
use hydra_forge.Prelude.Text.{Text}
use hydra_forge.Budget.Controller.{BudgetController, record_llm_call}

abbrev pub is_positive : ℤ → Bool
is_positive (pos n) = ltb 0 n
is_positive (negsuc n) = false

pub record TrackingStream (S : Type 0) : Type 0 where
  pub inner : S
  pub model_name : Text
  pub max_tokens_estimate : ℤ
  pub recorded : Bool

pub record ComplianceLog : Type 0 where
  pub completion_hash : ℕ
  pub prompt_hash : ℕ
  pub model : Text

pub record ComplianceStream (S : Type 0) : Type 0 where
  pub inner : S
  pub prompt_hash : ℕ
  pub model_name : Text
  pub accumulated : Text
  pub emitted : Bool

module _ {S : Type 0} where
  abbrev pub track : S → (model_name : Text) → (max_tokens_estimate : ℤ) → TrackingStream S
  track inner model_name max_tokens_estimate = record {
    inner = inner;
    model_name = model_name;
    max_tokens_estimate = max_tokens_estimate;
    recorded = false;
  }

  abbrev pub record_estimate : TrackingStream S → Option BudgetController → Option BudgetController
  record_estimate st none = none
  record_estimate st (some c) =
      if is_positive st.max_tokens_estimate
      then some (record_llm_call st.max_tokens_estimate st.model_name c)
      else some c

  -- What `next` does with what the inner stream returns.
  abbrev pub track_chunk :
      TrackingStream S
      → Option BudgetController
      → Option Text × S
      → Option Text × TrackingStream S × Option BudgetController
  track_chunk st budget (some chunk, s) = (some chunk, record st { inner = s }, budget)
  track_chunk st budget (none, s) =
      if st.recorded
      then (none, record st { inner = s }, budget)
      else (none, record st { inner = s; recorded = true }, record_estimate st budget)

  pub tracking_next :
      (inner_next : S → Option Text × S)
      → TrackingStream S
      → Option BudgetController
      → Option Text × TrackingStream S × Option BudgetController
  tracking_next inner_next st budget = track_chunk st budget (inner_next st.inner)

  pub tracking_destroy : TrackingStream S → Option BudgetController → Option BudgetController
  tracking_destroy st budget = if st.recorded then budget else record_estimate st budget

  abbrev pub comply : S → (prompt_hash : ℕ) → (model_name : Text) → ComplianceStream S
  comply inner prompt_hash model_name = record {
    inner = inner;
    prompt_hash = prompt_hash;
    model_name = model_name;
    accumulated = [];
    emitted = false;
  }

  module _ (hash : Text → ℕ) where
    abbrev pub emit_log : ComplianceStream S → List ComplianceLog → List ComplianceLog
    emit_log st log =
        log
        ++ record {
          completion_hash = hash st.accumulated;
          prompt_hash = st.prompt_hash;
          model = st.model_name;
        }
          ∷ []

    abbrev pub comply_at_end :
        ComplianceStream S
        → Option (List ComplianceLog)
        → ComplianceStream S × Option (List ComplianceLog)
    comply_at_end st none = (st, none)
    comply_at_end st (some log) =
        if st.emitted
        then (st, some log)
        else (record st { emitted = true }, some (emit_log st log))

    abbrev pub comply_chunk :
        ComplianceStream S
        → Option (List ComplianceLog)
        → Option Text × S
        → Option Text × ComplianceStream S × Option (List ComplianceLog)
    comply_chunk st bus (some chunk, s) =
        (some chunk, record st { inner = s; accumulated = st.accumulated ++ chunk }, bus)
    comply_chunk st bus (none, s) =
        let r = comply_at_end (record st { inner = s }) bus in (none, r.0, r.1)

    pub compliance_next :
        (inner_next : S → Option Text × S)
        → ComplianceStream S
        → Option (List ComplianceLog)
        → Option Text × ComplianceStream S × Option (List ComplianceLog)
    compliance_next inner_next st bus = comply_chunk st bus (inner_next st.inner)

    pub compliance_destroy :
        ComplianceStream S → Option (List ComplianceLog) → Option (List ComplianceLog)
    compliance_destroy st bus = (comply_at_end st bus).1
