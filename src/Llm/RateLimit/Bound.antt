-- ===== src/Llm/RateLimit/Bound.antt =====
-- What a bucket can hold (rate_limit_decorator.cpp).
use hydra_forge.Prelude.{
  ℕ, ◌≡◌, ◌+◌, ◌*◌, ◌≤◌, subst, ◌∙◌, refl, List, [], ◌∷◌, if◌then◌else◌, arith,
}
use hydra_forge.Prelude.Int.{ℤ, pos}
use hydra_forge.Prelude.Text.{Text}
use hydra_forge.Llm.RateLimit.{
  RateLimiter, Replenish, per_token, capacity, new_limiter, refill, try_consume, give_back,
}

-- What the decorator and its streams do with the bucket: a request, so long after the last one, and a
-- refund.
pub data Operation : Type 0 where
  request : (elapsed : ℕ) → (tokens : ℤ) → Operation
  refund : ℤ → Operation

module _ (replenish : Replenish) where
  abbrev pub apply : Operation → RateLimiter → RateLimiter
  apply (request elapsed tokens) r = (try_consume replenish (r.last_refill + elapsed) tokens r).1
  apply (refund tokens) r = give_back tokens r

  abbrev pub run : List Operation → RateLimiter → RateLimiter
  run [] r = r
  run (op ∷ ops) r = run ops (apply op r)

  abbrev pub WithinCapacity : RateLimiter → Type 0
  WithinCapacity r = r.tokens_remaining ≤ capacity r

  apply-WithinCapacity :
      (op : Operation) (r : RateLimiter) → WithinCapacity r → WithinCapacity (apply op r)
  unfolding try_consume give_back refill
  apply-WithinCapacity (request elapsed tokens) r h = ground arith
  apply-WithinCapacity (refund tokens) r h = ground arith

  apply-quota :
      (op : Operation) (r : RateLimiter) → (apply op r).tokens_per_minute ≡ r.tokens_per_minute
  unfolding try_consume give_back refill
  apply-quota (request elapsed tokens) r = ground arith
  apply-quota (refund tokens) r = ground arith

  run-WithinCapacity :
      (ops : List Operation) (r : RateLimiter) → WithinCapacity r → WithinCapacity (run ops r)
  run-WithinCapacity [] r h = h
  run-WithinCapacity (op ∷ ops) r h =
      run-WithinCapacity ops (apply op r) (apply-WithinCapacity op r h)

  run-quota :
      (ops : List Operation) (r : RateLimiter) → (run ops r).tokens_per_minute ≡ r.tokens_per_minute
  run-quota [] r = refl
  run-quota (op ∷ ops) r = run-quota ops (apply op r) ∙ apply-quota op r

  -- What a request for so many tokens is granted.
  abbrev pub granted : (now tokens : ℕ) → RateLimiter → ℕ
  granted now tokens r = if (try_consume replenish now (pos tokens) r).0 then tokens else 0

  granted-quota : (now tokens : ℕ) (r : RateLimiter) → granted now tokens r ≤ r.tokens_per_minute
  unfolding try_consume refill
  granted-quota now tokens r = ground arith

  -- However the bucket is refilled: after any sequence of requests and refunds on a new bucket it holds no more
  -- than its quota, and a request at any time is granted no more tokens than the quota.
  pub run-bounded :
      (tenant_id : Text) (tokens_per_minute start now tokens : ℕ) (ops : List Operation)
      → let r = run ops (new_limiter tenant_id tokens_per_minute start) in
        (r.tokens_remaining ≤ tokens_per_minute * per_token)
        × (granted now tokens r ≤ tokens_per_minute)
  run-bounded tenant_id tokens_per_minute start now tokens ops =
      let new = new_limiter tenant_id tokens_per_minute start in
      let q = run-quota ops new in
      (
        subst (λ k. (run ops new).tokens_remaining ≤ k * per_token) q
            (run-WithinCapacity ops new (omega arith)),
        subst (λ k. granted now tokens (run ops new) ≤ k) q
            (granted-quota now tokens (run ops new)),
      )
