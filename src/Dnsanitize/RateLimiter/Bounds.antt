-- ===== src/Dnsanitize/RateLimiter/Bounds.antt =====
-- How many tokens a bucket can hand out.
use dnsanity.Common.{ℕ, ◌+◌, ◌*◌, ◌≤◌, ◌≡◌, refl, ap, List, [], ◌∷◌, arith, if◌then◌else◌}
use dnsanity.Dnsanitize.RateLimiter.{
  RateLimiter, refill_once, consume_one, give_back_one, Op, refill, consume, give_back,
}
use dnsanity.Dnsanitize.RateLimiter.Laws.{
  IsBucket, refill_once-IsBucket, consume_one-IsBucket, give_back_one-IsBucket, refill_once-full,
}

-- The successful answers of `ConsumeOne` in a sequence of operations
pub taken : List Op → RateLimiter → ℕ
taken [] tb = 0
taken (refill ∷ ops) tb = taken ops (refill_once tb)
taken (consume ∷ ops) tb = (if (consume_one tb).1 then 1 else 0) + taken ops (consume_one tb).0
taken (give_back ∷ ops) tb = taken ops (give_back_one tb)

-- The refills, and the tokens given back
pub refills : List Op → ℕ
refills [] = 0
refills (refill ∷ ops) = 1 + refills ops
refills (consume ∷ ops) = refills ops
refills (give_back ∷ ops) = refills ops

pub returns : List Op → ℕ
returns [] = 0
returns (refill ∷ ops) = returns ops
returns (consume ∷ ops) = returns ops
returns (give_back ∷ ops) = 1 + returns ops

consume_one-tokens :
    (tb : RateLimiter)
    → ((if (consume_one tb).1 then 1 else 0) + (consume_one tb).0.tokens ≡ tb.tokens)
      × ((consume_one tb).0.max_tokens ≡ tb.max_tokens)
unfolding consume_one
consume_one-tokens tb = ground arith

give_back_one-tokens :
    (tb : RateLimiter)
    → IsBucket tb
    → ((give_back_one tb).tokens ≤ tb.tokens + 1) × ((give_back_one tb).max_tokens ≡ tb.max_tokens)
unfolding give_back_one
give_back_one-tokens tb h = ground arith

refill_once-max : (tb : RateLimiter) → (refill_once tb).max_tokens ≡ tb.max_tokens
unfolding refill_once
refill_once-max tb = refl

-- From a bucket, the tokens handed out over any operations of all goroutines are at most the tokens it
-- held, a full bucket for each refill, and those given back.
pub taken-bound :
    (ops : List Op) (tb : RateLimiter)
    → IsBucket tb
    → taken ops tb ≤ tb.tokens + refills ops * tb.max_tokens + returns ops
unfolding taken refills returns
taken-bound [] tb h = omega arith
taken-bound (refill ∷ ops) tb h = omega (
  arith,
  taken-bound ops (refill_once tb) (refill_once-IsBucket tb h),
  refill_once-full tb h,
  ap (λ n. refills ops * n) (refill_once-max tb),
)
taken-bound (consume ∷ ops) tb h =
    let (total, same) = consume_one-tokens tb in
    omega (
      arith,
      taken-bound ops (consume_one tb).0 (consume_one-IsBucket tb h),
      total,
      ap (λ n. refills ops * n) same,
    )
taken-bound (give_back ∷ ops) tb h =
    let (more, same) = give_back_one-tokens tb h in
    omega (
      arith,
      taken-bound ops (give_back_one tb) (give_back_one-IsBucket tb h),
      more,
      ap (λ n. refills ops * n) same,
    )
