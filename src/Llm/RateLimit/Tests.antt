-- ===== src/Llm/RateLimit/Tests.antt =====
-- A bucket of a hundred tokens, a provider that uses thirty and a stream of one chunk.
use hydra_forge.Prelude.{
  List, ℕ, zero, suc, ◌≡◌, false, refl, ◌≤◌, ◌+◌, ◌*◌, [], ◌∷◌, Option, none, some, arith,
}
use hydra_forge.Prelude.Int.{pos, ◌+ℤ◌}
use hydra_forge.Prelude.Text.{Text, codes}
use hydra_forge.Llm.RateLimit.{
  RateLimiter, Replenish, new_limiter, refill, GenerationResult, Generated, result, generate,
  give_back,
}
use hydra_forge.Llm.RateLimit.Bound.{Operation, request, refund, run, granted, run-bounded}
use hydra_forge.Llm.RateLimit.Laws.{generate-charge, bucket_after, bucket_after-give_back}

-- Exact arithmetic.
abbrev exact : Replenish
exact remaining tokens_per_minute elapsed = remaining + tokens_per_minute * elapsed

abbrev hundred : RateLimiter
hundred = new_limiter (codes "t") 100 0

abbrev short : GenerationResult
short = record {
  text = codes "ok";
  prompt_tokens = pos 10;
  completion_tokens = pos 20;
  finish_reason = [];
}

abbrev provider : RateLimiter × ℕ → Generated × RateLimiter × ℕ
provider (r, w) = (result short, r, w + 1)

abbrev one_chunk : ℕ → Option Text × ℕ
one_chunk zero = (some (codes "12345678"), 1)
one_chunk (suc n) = (none, 1)

generate-charge_example :
    generate exact provider 0 (pos 80) hundred 4
    ≡ (result short, record hundred { tokens_remaining = 4200000000000 }, 5)
unfolding ◌+ℤ◌ refill
generate-charge_example =
    generate-charge exact provider 0 80 30 hundred 4 5 short (omega arith) (λ r'. refl) refl
      (omega arith)

bucket_after-give_back_example :
    bucket_after one_chunk 3
      (record { inner = 0; max_tokens = pos 10; actual_tokens = 0; refunded = false })
      hundred
    ≡ give_back (pos 8) hundred
unfolding ◌+ℤ◌
bucket_after-give_back_example = bucket_after-give_back one_chunk 3 10 0 hundred (omega arith)

abbrev requests : List Operation
requests = request 0 (pos 80) ∷ refund (pos 30) ∷ request 9 (pos 20) ∷ []

run-bounded_example :
    ((run exact requests hundred).tokens_remaining ≤ 6000000000000)
    × (granted exact 60 101 (run exact requests hundred) ≤ 100)
run-bounded_example = run-bounded exact (codes "t") 100 0 60 101 requests
