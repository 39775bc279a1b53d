-- ===== src/Dnsanitize/RateLimiter.antt =====
-- internal/dnsanitize/ratelimiter.go: a token bucket on 64-bit atomics.
pub mod Laws
pub mod Bounds
use dnsanity.Common.{
  ℕ, zero, suc, ◌+◌, ◌-◌, ◌%◌, ◌^◌, Bool, true, false, List, [], ◌∷◌, Option, none, some, ltb, leb,
  ◌==◌, if◌then◌else◌,
}
use dnsanity.Common.Int.{ℤ, pos, ltb_ℤ, leb_ℤ}

-- The atomics of `RateLimiter`, `refillInterval` in nanoseconds, and whether `cancel` was called.
pub record RateLimiter : Type 0 where
  pub tokens : ℕ
  pub max_tokens : ℕ
  pub refill_amount : ℕ
  pub refill_interval : ℤ
  pub stopped : Bool

-- What `NewRateLimiter` computes in `float64`
pub record Floats : Type 0 where
  -- `uint64(math.Round(float64(rate) * burst.Seconds()))`
  pub tokens_of : ℤ → ℤ → ℕ
  -- `time.Duration(float64(amount) / float64(rate) * float64(time.Second))`
  pub interval_of : ℕ → ℤ → ℤ

-- `NewRateLimiter`; `none` is a panic.
unfoldable pub new_rate_limiter : Floats → ℤ → ℤ → Option RateLimiter
new_rate_limiter fl rate burst =
    if ltb_ℤ rate (pos 1)
    then none
    else if leb_ℤ burst (pos 0)
    then none
    else let amount = fl.tokens_of rate burst in
      if ltb amount 1
      then none
      else let interval = fl.interval_of amount rate in
        if ltb_ℤ interval (pos 1)
        then none
        else some (record {
          tokens = amount;
          max_tokens = amount;
          refill_amount = amount;
          refill_interval = interval;
          stopped = false;
        })

-- `StopRefiller`
unfoldable pub stop_refiller : RateLimiter → RateLimiter
stop_refiller tb = record tb { stopped = true }

-- What `refillOnce` wants to store in place of `old`
abbrev pub refilled : RateLimiter → ℕ → ℕ
refilled tb old =
    let want = (old + tb.refill_amount) % 2 ^ 64 in
    if ltb tb.max_tokens want then tb.max_tokens else want

-- The operations as they act where no other goroutine interferes
unfoldable pub refill_once : RateLimiter → RateLimiter
refill_once tb = record tb { tokens = refilled tb tb.tokens }

unfoldable pub consume_one : RateLimiter → RateLimiter × Bool
consume_one tb =
    if tb.tokens == 0 then (tb, false) else (record tb { tokens = tb.tokens - 1 }, true)

unfoldable pub give_back_one : RateLimiter → RateLimiter
give_back_one tb =
    if leb tb.max_tokens tb.tokens then tb else record tb { tokens = (tb.tokens + 1) % 2 ^ 64 }

-- A complete operation of another goroutine
pub data Op : Type 0 where
  refill consume give_back : Op

pub apply_op : Op → RateLimiter → RateLimiter
unfolding refill_once consume_one give_back_one
apply_op refill tb = refill_once tb
apply_op consume tb = (consume_one tb).0
apply_op give_back tb = give_back_one tb

unfoldable pub apply_ops : List Op → RateLimiter → RateLimiter
unfolding apply_op
apply_ops [] tb = tb
apply_ops (op ∷ ops) tb = apply_ops ops (apply_op op tb)

-- The loops of compare-and-swap. Each list of operations is what other goroutines do between a round's
-- `Load` and its `CompareAndSwap`; when the lists are at an end nothing interferes any more.
unfoldable pub refill_cas : List (List Op) → RateLimiter → RateLimiter
unfolding apply_ops
refill_cas [] tb = record tb { tokens = refilled tb tb.tokens }
refill_cas (ops ∷ more) tb = elim ((apply_ops ops tb).tokens == tb.tokens) [
  | true ↦ record (apply_ops ops tb) { tokens = refilled tb tb.tokens }
  | false ↦ refill_cas more (apply_ops ops tb)
]

unfoldable pub consume_cas : List (List Op) → RateLimiter → RateLimiter × Bool
unfolding apply_ops
consume_cas [] tb =
    if tb.tokens == 0 then (tb, false) else (record tb { tokens = tb.tokens - 1 }, true)
consume_cas (ops ∷ more) tb = elim (tb.tokens == 0) [
  | true ↦ (tb, false)
  | false ↦ elim ((apply_ops ops tb).tokens == tb.tokens) [
    | true ↦ (record (apply_ops ops tb) { tokens = tb.tokens - 1 }, true)
    | false ↦ consume_cas more (apply_ops ops tb)
  ]
]

unfoldable pub give_back_cas : List (List Op) → RateLimiter → RateLimiter
unfolding apply_ops
give_back_cas [] tb =
    if leb tb.max_tokens tb.tokens then tb else record tb { tokens = (tb.tokens + 1) % 2 ^ 64 }
give_back_cas (ops ∷ more) tb = elim (leb tb.max_tokens tb.tokens) [
  | true ↦ tb
  | false ↦ elim ((apply_ops ops tb).tokens == tb.tokens) [
    | true ↦ record (apply_ops ops tb) { tokens = (tb.tokens + 1) % 2 ^ 64 }
    | false ↦ give_back_cas more (apply_ops ops tb)
  ]
]

-- `Remaining`: `int(tokens)` in 64 bits
unfoldable pub remaining : RateLimiter → ℕ
remaining tb = tb.tokens
