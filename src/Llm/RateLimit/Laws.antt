-- ===== src/Llm/RateLimit/Laws.antt =====
-- What one generation and one stream take from the bucket (rate_limit_decorator.cpp,
-- illmprovider_decorator.cpp).
use hydra_forge.Prelude.{
  ℕ, zero, suc, ◌≡◌, refl, ap, ◌∙◌, ◌+◌, ◌-◌, ◌*◌, ◌/◌, ◌≤◌, ◌<◌, true, false, ◌++◌, Option, none,
  some, if◌then◌else◌, arith, leb, length, Bool-cases, inl, inr,
}
use hydra_forge.Prelude.Int.{ℤ, pos, ◌+ℤ◌}
use hydra_forge.Prelude.Text.{Text, codes}
use hydra_forge.Llm.{is_positive}
use hydra_forge.Llm.RateLimit.{
  RateLimiter, Replenish, per_token, refill, try_consume, give_back, negated, GenerationResult,
  Generated, result, failed, LlmError, rate_limited, generate, RateLimitStream, return_rest,
  limited_chunk, limited_next, limited_destroy,
}

positive : (m : ℕ) → 0 < m → is_positive (pos m) ≡ true
positive m h = ground arith

leb-true : (a b : ℕ) → leb a b ≡ true → a ≤ b
leb-true a b h = ground arith

minus : (m a : ℕ) → a ≤ m → pos m +ℤ negated (pos a) ≡ pos (m - a)
unfolding ◌+ℤ◌
minus m zero h = ap pos (omega arith)
minus m (suc a) h = ground arith

abbrev pub quota_error : RateLimiter → LlmError
quota_error r = record {
  code = rate_limited;
  message = codes "tenant " ++ r.tenant_id ++ codes " quota exceeded";
}

-- A refund to a bucket from which more was taken.
give_back-rest :
    (replenish : Replenish) (r : RateLimiter) (m a : ℕ) (now : ℕ)
    → a ≤ m
    → m * per_token ≤ (refill replenish now r).tokens_remaining
    → give_back (pos (m - a)) (record (refill replenish now r) {
      tokens_remaining = (refill replenish now r).tokens_remaining - m * per_token;
    })
      ≡ record (refill replenish now r) {
        tokens_remaining = (refill replenish now r).tokens_remaining - a * per_token;
      }
unfolding give_back refill
give_back-rest replenish r m a now h p =
    ap (λ t. record (refill replenish now r) { tokens_remaining = t }) (ground (arith, h, p))

module _ {W : Type 0} (replenish : Replenish)
    (inner : RateLimiter × W → Generated × RateLimiter × W) where
  -- A generation for which the bucket has too little fails without a call of the provider inside; else,
  -- if the provider gives a result of no more tokens than the maximum and others leave the bucket alone, the
  -- generation takes the tokens of the result from the refilled bucket, and not the maximum.
  pub generate-charge :
      (now m a : ℕ) (r : RateLimiter) (w w' : W) (g : GenerationResult)
      → 0 < m
      → ((r' : RateLimiter) → inner (r', w) ≡ (result g, r', w'))
      → g.prompt_tokens +ℤ g.completion_tokens ≡ pos a
      → a ≤ m
      → generate replenish inner now (pos m) r w ≡ (
          if leb (m * per_token) (refill replenish now r).tokens_remaining
          then (
            result g,
            record (refill replenish now r) {
              tokens_remaining = (refill replenish now r).tokens_remaining - a * per_token;
            },
            w',
          )
          else (failed (quota_error r), refill replenish now r, w))
  unfolding generate try_consume
  generate-charge now m a r w w' g p i s h =
      elim (Bool-cases (leb (m * per_token) (refill replenish now r).tokens_remaining)) [
        | inl t ↦
            let f = refill replenish now r in
            let left : RateLimiter = record f {
              tokens_remaining = f.tokens_remaining - m * per_token;
            } in
            let rest =
              ap (λ k. give_back k left) (ap (λ k. pos m +ℤ negated k) s ∙ minus m a h)
              ∙ give_back-rest replenish r m a now h
                  (leb-true (m * per_token) f.tokens_remaining t) in
            rw (positive m p, t, i) (rw (positive m p) (ap (λ b. (result g, b, w')) rest))
        | inr f ↦ rw (positive m p, f) refl
      ]

module _ {S : Type 0} (inner_next : S → Option Text × S) where
  -- The bucket after `n` readings and the destruction of the stream.
  pub bucket_after : ℕ → RateLimitStream S → RateLimiter → RateLimiter
  unfolding limited_next limited_destroy
  bucket_after zero st r = limited_destroy st r
  bucket_after (suc n) st r = let t = limited_next inner_next st r in bucket_after n t.1 t.2

  abbrev pub used_from : Option Text → ℕ → ℕ
  used_from none rest = 0
  used_from (some chunk) rest = length chunk / 4 + rest

  -- The tokens of the chunks up to the end of the inner stream, in at most `n` readings.
  abbrev pub used : ℕ → S → ℕ
  used zero s = 0
  used (suc n) s = used_from (inner_next s).0 (used n (inner_next s).1)

  chunk-refunded :
      (st : RateLimitStream S) (r : RateLimiter) (c : Option Text × S)
      → st.refunded ≡ true
      → ((limited_chunk st r c).2 ≡ r) × ((limited_chunk st r c).1.refunded ≡ true)
  chunk-refunded st r (some chunk, s) h = (refl, h)
  chunk-refunded st r (none, s) h = (rw h refl, rw h refl)

  bucket_after-refunded :
      (n : ℕ) (st : RateLimitStream S) (r : RateLimiter)
      → st.refunded ≡ true
      → bucket_after n st r ≡ r
  unfolding bucket_after limited_next limited_destroy
  bucket_after-refunded zero st r h = rw h refl
  bucket_after-refunded (suc n) st r h =
      let t = limited_chunk st r (inner_next st.inner) in
      let (b, e) = chunk-refunded st r (inner_next st.inner) h in
      ap (bucket_after n t.1) b ∙ bucket_after-refunded n t.1 r e

  abbrev rest_of : RateLimitStream S → ℕ → ℤ
  rest_of st tokens = st.max_tokens +ℤ negated (pos (st.actual_tokens + tokens))

  abbrev RefundsOnce : ℕ → Type 0
  RefundsOnce n =
      (st : RateLimitStream S) (r : RateLimiter)
      → st.refunded ≡ false
      → is_positive st.max_tokens ≡ true
      → bucket_after n st r ≡ give_back (rest_of st (used n st.inner)) r

  chunk-RefundsOnce :
      (n : ℕ) (st : RateLimitStream S) (r : RateLimiter) (c : Option Text × S)
      → st.refunded ≡ false
      → is_positive st.max_tokens ≡ true
      → RefundsOnce n
      → bucket_after n (limited_chunk st r c).1 (limited_chunk st r c).2
        ≡ give_back (rest_of st (used_from c.0 (used n c.1))) r
  chunk-RefundsOnce n st r (some chunk, s) h p ih =
      ih (record st { inner = s; actual_tokens = st.actual_tokens + length chunk / 4 }) r h p
      ∙ ap (λ k. give_back (st.max_tokens +ℤ negated (pos k)) r) (omega arith)
  chunk-RefundsOnce n st r (none, s) h p ih =
      rw (h, p)
        (bucket_after-refunded n (record st { inner = s; refunded = true }) _ refl
          ∙ ap (λ k. give_back (st.max_tokens +ℤ negated (pos k)) r) (omega arith))

  return_rest-once :
      (st : RateLimitStream S) (r : RateLimiter)
      → st.refunded ≡ false
      → is_positive st.max_tokens ≡ true
      → (return_rest st r).1 ≡ give_back (rest_of st 0) r
  return_rest-once st r h p =
      rw (h, p) (ap (λ k. give_back (st.max_tokens +ℤ negated (pos k)) r) (omega arith))

  bucket_after-RefundsOnce : (n : ℕ) → RefundsOnce n
  unfolding bucket_after limited_next limited_destroy
  bucket_after-RefundsOnce zero st r h p = return_rest-once st r h p
  bucket_after-RefundsOnce (suc n) st r h p =
      chunk-RefundsOnce n st r (inner_next st.inner) h p (bucket_after-RefundsOnce n)

  -- A stream for which tokens were taken gives back, once, what its chunks did not use, whatever the inner
  -- stream returns and however often it is read before it is destroyed.
  pub bucket_after-give_back :
      (n max_tokens : ℕ) (inner : S) (r : RateLimiter)
      → 0 < max_tokens
      → bucket_after n
          (record {
            inner = inner;
            max_tokens = pos max_tokens;
            actual_tokens = 0;
            refunded = false;
          })
          r
        ≡ give_back (pos max_tokens +ℤ negated (pos (used n inner))) r
  bucket_after-give_back n max_tokens inner r p =
      bucket_after-RefundsOnce n
        (record { inner = inner; max_tokens = pos max_tokens; actual_tokens = 0; refunded = false })
        r refl (positive max_tokens p)
      ∙ ap (λ k. give_back (pos max_tokens +ℤ negated (pos k)) r) (omega arith)
