-- ===== src/Dnsanitize/RateLimiter/Laws.antt =====
-- The bucket's bounds, and each compare-and-swap loop as one atomic operation.
use dnsanity.Common.{
  ◌≤◌, ◌<◌, ◌^◌, ◌≡◌, refl, sym, ap, ◌∙◌, append_assoc, true, false, List, [], ◌∷◌, ◌++◌, some,
  arith, inl, inr, Bool-cases, ◌==◌, leb,
}
use dnsanity.Common.Int.{ℤ}
use dnsanity.Dnsanitize.RateLimiter.{
  RateLimiter, Floats, new_rate_limiter, refilled, refill_once, consume_one, give_back_one,
  stop_refiller, Op, refill, consume, give_back, apply_op, apply_ops, refill_cas, consume_cas,
  give_back_cas,
}

-- A bucket that `NewRateLimiter` can build, at any later time. The bound keeps `old + refillAmount`
-- within 64 bits.
pub record IsBucket (tb : RateLimiter) : Type 0 where
  pub some_tokens : 0 < tb.max_tokens
  pub amount_full : tb.refill_amount ≡ tb.max_tokens
  pub within : tb.tokens ≤ tb.max_tokens
  pub fits : tb.max_tokens < 2 ^ 63

-- Where the size computed is below 2^63, a limiter that `NewRateLimiter` returns is a bucket of that
-- size, and full.
pub new_rate_limiter-IsBucket :
    (fl : Floats) (rate burst : ℤ) {tb : RateLimiter}
    → fl.tokens_of rate burst < 2 ^ 63
    → new_rate_limiter fl rate burst ≡ some tb
    → IsBucket tb × (tb.tokens ≡ tb.max_tokens) × (tb.max_tokens ≡ fl.tokens_of rate burst)
unfolding new_rate_limiter
new_rate_limiter-IsBucket fl rate burst small e = ground arith

pub refill_once-full : (tb : RateLimiter) → IsBucket tb → (refill_once tb).tokens ≡ tb.max_tokens
unfolding refill_once
refill_once-full tb h = ground arith

pub refill_once-IsBucket : (tb : RateLimiter) → IsBucket tb → IsBucket (refill_once tb)
unfolding refill_once
refill_once-IsBucket tb h = ground arith

pub consume_one-IsBucket : (tb : RateLimiter) → IsBucket tb → IsBucket (consume_one tb).0
unfolding consume_one
consume_one-IsBucket tb h = ground arith

pub give_back_one-IsBucket : (tb : RateLimiter) → IsBucket tb → IsBucket (give_back_one tb)
unfolding give_back_one
give_back_one-IsBucket tb h = ground arith

pub stop_refiller-IsBucket : (tb : RateLimiter) → IsBucket tb → IsBucket (stop_refiller tb)
unfolding stop_refiller
stop_refiller-IsBucket tb h = ground arith

pub apply_op-IsBucket : (op : Op) (tb : RateLimiter) → IsBucket tb → IsBucket (apply_op op tb)
unfolding apply_op
apply_op-IsBucket refill tb h = ground arith
apply_op-IsBucket consume tb h = ground arith
apply_op-IsBucket give_back tb h = ground arith

-- Any operations of any goroutines leave a bucket a bucket: its tokens stay within its size.
pub apply_ops-IsBucket :
    (ops : List Op) (tb : RateLimiter) → IsBucket tb → IsBucket (apply_ops ops tb)
unfolding apply_ops
apply_ops-IsBucket [] tb h = h
apply_ops-IsBucket (op ∷ ops) tb h =
    apply_ops-IsBucket ops (apply_op op tb) (apply_op-IsBucket op tb h)

-- The operations of other goroutines change the tokens alone.
record SameCaps (s t : RateLimiter) : Type 0 where
  same_max : s.max_tokens ≡ t.max_tokens
  same_amount : s.refill_amount ≡ t.refill_amount

apply_op-caps : (op : Op) (tb : RateLimiter) → SameCaps (apply_op op tb) tb
unfolding apply_op
apply_op-caps refill tb = ground arith
apply_op-caps consume tb = ground arith
apply_op-caps give_back tb = ground arith

apply_ops-caps : (ops : List Op) (tb : RateLimiter) → SameCaps (apply_ops ops tb) tb
unfolding apply_ops
apply_ops-caps [] tb = ground arith
apply_ops-caps (op ∷ ops) tb =
    ground (arith, apply_ops-caps ops (apply_op op tb), apply_op-caps op tb)

apply_ops-append :
    (xs ys : List Op) (tb : RateLimiter) → apply_ops (xs ++ ys) tb ≡ apply_ops ys (apply_ops xs tb)
unfolding apply_ops
apply_ops-append [] ys tb = refl
apply_ops-append (x ∷ xs) ys tb = apply_ops-append xs ys (apply_op x tb)

-- All interfering operations in the order in which they happen.
abbrev pub in_order : List (List Op) → List Op
in_order [] = []
in_order (ops ∷ more) = ops ++ in_order more

-- An answer that is the atomic operation's, at a point between two operations of others.
abbrev pub Linear {ℓ} : {R : Type ℓ} → (RateLimiter → R) → List (List Op) → RateLimiter → R → Type ℓ
Linear atomic others tb r =
    (before after : List Op) × (in_order others ≡ before ++ after)
    × (r ≡ atomic (apply_ops before tb))

Linear-next {ℓ} :
    {R : Type ℓ} (atomic : RateLimiter → R) (ops : List Op) (more : List (List Op))
    (tb : RateLimiter) (r : R)
    → Linear atomic more (apply_ops ops tb) r
    → Linear atomic (ops ∷ more) tb r
Linear-next atomic ops more tb r (before, after, e, q) = (
  ops ++ before,
  after,
  ap (◌++◌ ops) e ∙ sym (append_assoc ops before after),
  q ∙ ap atomic (sym (apply_ops-append ops before tb)),
)

refill_cas-same :
    (ops : List Op) (tb : RateLimiter)
    → ((apply_ops ops tb).tokens == tb.tokens) ≡ true
    → record (apply_ops ops tb) { tokens = refilled tb tb.tokens } ≡ refill_once (apply_ops ops tb)
unfolding refill_once
refill_cas-same ops tb e = ground (arith, apply_ops-caps ops tb)

refill_cas-hit :
    (ops : List Op) (more : List (List Op)) (tb : RateLimiter)
    → ((apply_ops ops tb).tokens == tb.tokens) ≡ true
    → refill_cas (ops ∷ more) tb ≡ refill_once (apply_ops ops tb)
unfolding refill_cas
refill_cas-hit ops more tb e = rw (e, refill_cas) (refill_cas-same ops tb e)

refill_cas-miss :
    (ops : List Op) (more : List (List Op)) (tb : RateLimiter)
    → ((apply_ops ops tb).tokens == tb.tokens) ≡ false
    → refill_cas (ops ∷ more) tb ≡ refill_cas more (apply_ops ops tb)
unfolding refill_cas
refill_cas-miss ops more tb e = rw (e, refill_cas)

-- `refillOnce` takes effect as one atomic refill, whatever other goroutines do between its rounds.
pub refill_cas-Linear :
    (others : List (List Op)) (tb : RateLimiter)
    → Linear refill_once others tb (refill_cas others tb)
refill_cas-Linear [] tb = ([], [], refl, unfold refill_cas refill_once apply_ops in refl)
refill_cas-Linear (ops ∷ more) tb = elim (Bool-cases ((apply_ops ops tb).tokens == tb.tokens)) [
  | inl e ↦ (ops, in_order more, refl, refill_cas-hit ops more tb e)
  | inr e ↦
      rw (refill_cas-miss ops more tb e)
        (Linear-next refill_once ops more tb _ (refill_cas-Linear more (apply_ops ops tb)))
]

consume_cas-empty :
    (ops : List Op) (more : List (List Op)) (tb : RateLimiter)
    → (tb.tokens == 0) ≡ true
    → consume_cas (ops ∷ more) tb ≡ consume_one tb
unfolding consume_cas consume_one
consume_cas-empty ops more tb e = ground arith

consume_cas-hit :
    (ops : List Op) (more : List (List Op)) (tb : RateLimiter)
    → (tb.tokens == 0) ≡ false
    → ((apply_ops ops tb).tokens == tb.tokens) ≡ true
    → consume_cas (ops ∷ more) tb ≡ consume_one (apply_ops ops tb)
unfolding consume_cas consume_one
consume_cas-hit ops more tb z e = ground arith

consume_cas-miss :
    (ops : List Op) (more : List (List Op)) (tb : RateLimiter)
    → (tb.tokens == 0) ≡ false
    → ((apply_ops ops tb).tokens == tb.tokens) ≡ false
    → consume_cas (ops ∷ more) tb ≡ consume_cas more (apply_ops ops tb)
unfolding consume_cas
consume_cas-miss ops more tb z e = ground arith

-- `ConsumeOne` takes effect, and answers, as one atomic attempt to take a token.
pub consume_cas-Linear :
    (others : List (List Op)) (tb : RateLimiter)
    → Linear consume_one others tb (consume_cas others tb)
consume_cas-Linear [] tb = ([], [], refl, unfold consume_cas consume_one apply_ops in refl)
consume_cas-Linear (ops ∷ more) tb = elim (Bool-cases (tb.tokens == 0)) [
  | inl z ↦
      ([], ops ++ in_order more, refl, consume_cas-empty ops more tb z ∙ (unfold apply_ops in refl))
  | inr z ↦ elim (Bool-cases ((apply_ops ops tb).tokens == tb.tokens)) [
    | inl e ↦ (ops, in_order more, refl, consume_cas-hit ops more tb z e)
    | inr e ↦
        rw (consume_cas-miss ops more tb z e)
          (Linear-next consume_one ops more tb _ (consume_cas-Linear more (apply_ops ops tb)))
  ]
]

give_back_cas-full :
    (ops : List Op) (more : List (List Op)) (tb : RateLimiter)
    → leb tb.max_tokens tb.tokens ≡ true
    → give_back_cas (ops ∷ more) tb ≡ give_back_one tb
unfolding give_back_cas give_back_one
give_back_cas-full ops more tb e = ground arith

give_back_cas-hit :
    (ops : List Op) (more : List (List Op)) (tb : RateLimiter)
    → leb tb.max_tokens tb.tokens ≡ false
    → ((apply_ops ops tb).tokens == tb.tokens) ≡ true
    → give_back_cas (ops ∷ more) tb ≡ give_back_one (apply_ops ops tb)
unfolding give_back_cas give_back_one
give_back_cas-hit ops more tb f e = ground (arith, apply_ops-caps ops tb)

give_back_cas-miss :
    (ops : List Op) (more : List (List Op)) (tb : RateLimiter)
    → leb tb.max_tokens tb.tokens ≡ false
    → ((apply_ops ops tb).tokens == tb.tokens) ≡ false
    → give_back_cas (ops ∷ more) tb ≡ give_back_cas more (apply_ops ops tb)
unfolding give_back_cas
give_back_cas-miss ops more tb f e = ground arith

-- `GiveBackOne` takes effect as one atomic return of a token.
pub give_back_cas-Linear :
    (others : List (List Op)) (tb : RateLimiter)
    → Linear give_back_one others tb (give_back_cas others tb)
give_back_cas-Linear [] tb = ([], [], refl, unfold give_back_cas give_back_one apply_ops in refl)
give_back_cas-Linear (ops ∷ more) tb = elim (Bool-cases (leb tb.max_tokens tb.tokens)) [
  | inl f ↦ (
    [],
    ops ++ in_order more,
    refl,
    give_back_cas-full ops more tb f ∙ (unfold apply_ops in refl),
  )
  | inr f ↦ elim (Bool-cases ((apply_ops ops tb).tokens == tb.tokens)) [
    | inl e ↦ (ops, in_order more, refl, give_back_cas-hit ops more tb f e)
    | inr e ↦
        rw (give_back_cas-miss ops more tb f e)
          (Linear-next give_back_one ops more tb _ (give_back_cas-Linear more (apply_ops ops tb)))
  ]
]
