-- ===== src/Llm/RateLimit.antt =====
-- `RateLimitDecorator` and its `RateLimitStream` (src/common/llm/rate_limit_decorator.cpp), and `generate` of
-- the class that it derives from (illmprovider_decorator.cpp), with its hooks. The bucket holds whole parts of
-- a token, `per_token` of them. What `refill` computes is a parameter; taking and giving back tokens is exact,
-- where the `double`s of the source may round. A function that holds `bucket_mutex_` is one step. The
-- quota is not negative.
pub mod Bound
pub mod Laws
mod Tests
use hydra_forge.Prelude.{
  ℕ, ◌+◌, ◌-◌, ◌*◌, ◌/◌, Bool, true, false, not, ◌&&◌, List, ◌++◌, Option, none, some,
  if◌then◌else◌, ltb, leb, length, min,
}
use hydra_forge.Prelude.Int.{ℤ, pos, negsuc, ◌+ℤ◌}
use hydra_forge.Prelude.Text.{Text, codes}
use hydra_forge.Llm.{is_positive}

abbrev pub per_token : ℕ
per_token = 60000000000

pub data Code : Type 0 where
  network_error rate_limited authentication_error cancelled invalid_request server_error
        context_overflow unknown_error :
      Code

-- The delay after which to retry is left out: this decorator sets none.
pub record LlmError : Type 0 where
  pub code : Code
  pub message : Text

abbrev pub retryable : LlmError → Bool
retryable e = elim e.code [
  | network_error ↦ true
  | rate_limited ↦ true
  | server_error ↦ true
  | authentication_error ↦ false
  | cancelled ↦ false
  | invalid_request ↦ false
  | context_overflow ↦ false
  | unknown_error ↦ false
]

pub record GenerationResult : Type 0 where
  pub text : Text
  pub prompt_tokens : ℤ
  pub completion_tokens : ℤ
  pub finish_reason : Text

pub data Generated : Type 0 where
  result : GenerationResult → Generated
  failed : LlmError → Generated

pub record RateLimiter : Type 0 where
  pub tenant_id : Text
  pub tokens_per_minute : ℕ
  pub tokens_remaining : ℕ
  pub last_refill : ℕ

abbrev pub capacity : RateLimiter → ℕ
capacity r = r.tokens_per_minute * per_token

abbrev pub new_limiter : (tenant_id : Text) → (tokens_per_minute now : ℕ) → RateLimiter
new_limiter tenant_id tokens_per_minute now = record {
  tenant_id = tenant_id;
  tokens_per_minute = tokens_per_minute;
  tokens_remaining = tokens_per_minute * per_token;
  last_refill = now;
}

-- `replenish` is the arithmetic on doubles in `refill`: what the bucket would hold after so many nanoseconds,
-- for a quota, rounded as the doubles are.
abbrev pub Replenish : Type 0
Replenish = (remaining tokens_per_minute elapsed : ℕ) → ℕ

unfoldable pub refill : Replenish → (now : ℕ) → RateLimiter → RateLimiter
refill replenish now r = record r {
  tokens_remaining =
      min (replenish r.tokens_remaining r.tokens_per_minute (now - r.last_refill)) (capacity r);
  last_refill = now;
}

-- A negative request counts as none.
abbrev pub at_least_zero : ℤ → ℕ
at_least_zero (pos n) = n
at_least_zero (negsuc n) = 0

pub try_consume : Replenish → (now : ℕ) → (tokens : ℤ) → RateLimiter → Bool × RateLimiter
unfolding refill
try_consume replenish now tokens r =
    let f = refill replenish now r in
    let asked = at_least_zero tokens * per_token in
    if leb asked f.tokens_remaining
    then (true, record f { tokens_remaining = f.tokens_remaining - asked })
    else (false, f)

-- `if (refund > 0)` and what it guards.
pub give_back : (refund : ℤ) → RateLimiter → RateLimiter
give_back refund r = record r {
  tokens_remaining =
      if is_positive refund
      then min (r.tokens_remaining + at_least_zero refund * per_token) (capacity r)
      else r.tokens_remaining;
}

abbrev pub negated : ℤ → ℤ
negated (pos n) = if leb n 0 then pos 0 else negsuc (n - 1)
negated (negsuc n) = pos (n + 1)

-- The refund of `decorate_generate`, for a maximum that is positive.
abbrev pub refund_of : (max_tokens : ℤ) → Generated → ℤ
refund_of max_tokens (result r) = max_tokens +ℤ negated (r.prompt_tokens +ℤ r.completion_tokens)
refund_of max_tokens (failed e) = max_tokens

abbrev pub decorate_generate : (max_tokens : ℤ) → Generated → RateLimiter → Generated × RateLimiter
decorate_generate max_tokens inner_result r = (
  inner_result,
  if is_positive max_tokens then give_back (refund_of max_tokens inner_result) r else r,
)

abbrev pub pre_check_generate :
    Replenish → (now : ℕ) → (max_tokens : ℤ) → RateLimiter → Option LlmError × RateLimiter
pre_check_generate replenish now max_tokens r =
    let c = try_consume replenish now max_tokens r in
    if is_positive max_tokens
    then (
      if c.0
          then none
          else some (record {
            code = rate_limited;
            message = codes "tenant " ++ r.tenant_id ++ codes " quota exceeded";
          }),
      c.1,
    )
    else (none, r)

-- The provider inside acts on a state `W`, in which others may use the bucket meanwhile.
abbrev pub after_pre_check :
    {W : Type 0} (inner : RateLimiter × W → Generated × RateLimiter × W)
    → (max_tokens : ℤ) → Option LlmError × RateLimiter
    → W
    → Generated × RateLimiter × W
after_pre_check inner max_tokens (some e, r) w = (failed e, r, w)
after_pre_check inner max_tokens (none, r) w =
    let i = inner (r, w) in let d = decorate_generate max_tokens i.0 i.1 in (d.0, d.1, i.2)

pub generate :
    {W : Type 0} (replenish : Replenish) (inner : RateLimiter × W → Generated × RateLimiter × W)
    → (now : ℕ) → (max_tokens : ℤ) → RateLimiter
    → W
    → Generated × RateLimiter × W
unfolding try_consume give_back
generate replenish inner now max_tokens r w =
    after_pre_check inner max_tokens (pre_check_generate replenish now max_tokens r) w

-- The stream around an inner one; `owner_` is the bucket that the functions take.
pub record RateLimitStream (S : Type 0) : Type 0 where
  pub inner : S
  pub max_tokens : ℤ
  pub actual_tokens : ℕ
  pub refunded : Bool

module _ {S : Type 0} where
  abbrev pub return_rest : RateLimitStream S → RateLimiter → RateLimitStream S × RateLimiter
  return_rest st r =
      if not st.refunded && is_positive st.max_tokens
      then (
        record st { refunded = true },
        give_back (st.max_tokens +ℤ negated (pos st.actual_tokens)) r,
      )
      else (st, r)

  -- A quarter of a chunk's bytes counts as its tokens.
  abbrev pub limited_chunk :
      RateLimitStream S
      → RateLimiter
      → Option Text × S
      → Option Text × RateLimitStream S × RateLimiter
  limited_chunk st r (some chunk, s) =
      (some chunk, record st { inner = s; actual_tokens = st.actual_tokens + length chunk / 4 }, r)
  limited_chunk st r (none, s) = let t = return_rest (record st { inner = s }) r in (none, t.0, t.1)

  pub limited_next :
      (inner_next : S → Option Text × S)
      → RateLimitStream S
      → RateLimiter
      → Option Text × RateLimitStream S × RateLimiter
  unfolding give_back
  limited_next inner_next st r = limited_chunk st r (inner_next st.inner)

  pub limited_destroy : RateLimitStream S → RateLimiter → RateLimiter
  unfolding give_back
  limited_destroy st r = (return_rest st r).1
