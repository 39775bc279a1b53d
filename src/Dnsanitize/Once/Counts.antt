-- ===== src/Dnsanitize/Once/Counts.antt =====
-- internal/dnsanitize/dnsanitize.go: the checks of a server that are nowhere waiting, counted.
use dnsanity.Common.{
  ℕ, zero, suc, ◌+◌, ◌≤◌, ◌<◌, ◌≡◌, refl, Bool, true, ◌&&◌, inl, inr, List, [], ◌∷◌, some, arith,
  length, ◌==◌, ==_iff, Bool-cases, All,
}
use dnsanity.Dns.Server.{ServerContext}
use dnsanity.Dnsanitize.Slots.{find}
use dnsanity.Dnsanitize.System.{Job, WorkerResult, System}
use dnsanity.Dnsanitize.Invariant.{Inv}
use dnsanity.Dnsanitize.Invariant.Counting.{one_if, workers_of, results_of}
use dnsanity.Dnsanitize.Once.{times, workers_on, results_on, places, Once}

abbrev sum_below : ℕ → (ℕ → ℕ) → ℕ
sum_below zero f = 0
sum_below (suc n) f = sum_below n f + f n

-- How many numbers below `n` have the value 0
abbrev pub none_below : ℕ → (ℕ → ℕ) → ℕ
none_below zero f = 0
none_below (suc n) f = none_below n f + one_if (f n == 0)

none_and_sum : (n : ℕ) (f : ℕ → ℕ) → ((i : ℕ) → f i ≤ 1) → none_below n f + sum_below n f ≡ n
none_and_sum zero f h = omega arith
none_and_sum (suc n) f h = ground (arith, none_and_sum n f h, h n)

sum_below-add : (n : ℕ) (f g : ℕ → ℕ) → sum_below n (λ i. f i + g i) ≡ sum_below n f + sum_below n g
sum_below-add zero f g = omega arith
sum_below-add (suc n) f g = omega (arith, sum_below-add n f g)

sum_below-zero : (n : ℕ) → sum_below n (λ i. 0) ≡ 0
sum_below-zero zero = refl
sum_below-zero (suc n) = omega (arith, sum_below-zero n)

sum_below-one :
    (b : Bool) (c n : ℕ)
    → (n ≤ c → sum_below n (λ i. one_if (b && c == i)) ≡ 0)
      × (c < n → sum_below n (λ i. one_if (b && c == i)) ≡ one_if b)
sum_below-one b c zero = (λ le. refl, λ lt. absurd (omega arith))
sum_below-one b c (suc n) =
    let (above, below) = sum_below-one b c n in
    (λ le. ground (arith, above (omega arith), ==_iff c n), λ lt. step above below lt)
  where
    step :
        (n ≤ c → sum_below n (λ i. one_if (b && c == i)) ≡ 0)
        → (c < n → sum_below n (λ i. one_if (b && c == i)) ≡ one_if b)
        → c < suc n
        → sum_below (suc n) (λ i. one_if (b && c == i)) ≡ one_if b
    step above below lt = elim (Bool-cases (c == n)) [
      | inl same ↦ ground (arith, same, above (omega (arith, (==_iff c n).0 same)))
      | inr other ↦ ground (arith, other, below (ground (arith, ==_iff c n)))
    ]

sum_below-times :
    (n : ℕ) (cs : List ℕ) → All (λ i. i < n) cs → sum_below n (λ i. times i cs) ≡ length cs
unfolding times
sum_below-times n [] h = sum_below-zero n
sum_below-times n (c ∷ cs) (lt, h) = omega (
  arith,
  sum_below-add n (λ i. one_if (c == i)) (λ i. times i cs),
  (sum_below-one true c n).1 lt,
  sum_below-times n cs h,
)

sum_below-workers :
    (n k : ℕ) (js : List Job)
    → All (λ (j : Job). j.check_id < n) js
    → sum_below n (λ i. workers_on k i js) ≡ workers_of k js
unfolding workers_on workers_of
sum_below-workers n k [] h = sum_below-zero n
sum_below-workers n k (j ∷ js) (lt, h) = omega (
  arith,
  sum_below-add n (λ i. one_if (j.srv_id == k && j.check_id == i)) (λ i. workers_on k i js),
  (sum_below-one (j.srv_id == k) j.check_id n).1 lt,
  sum_below-workers n k js h,
)

sum_below-results :
    (n k : ℕ) (rs : List WorkerResult)
    → All (λ (r : WorkerResult). r.check_id < n) rs
    → sum_below n (λ i. results_on k i rs) ≡ results_of k rs
unfolding results_on results_of
sum_below-results n k [] h = sum_below-zero n
sum_below-results n k (r ∷ rs) (lt, h) = omega (
  arith,
  sum_below-add n (λ i. one_if (r.srv_id == k && r.check_id == i)) (λ i. results_on k i rs),
  (sum_below-one (r.srv_id == k) r.check_id n).1 lt,
  sum_below-results n k rs h,
)

-- Where each of the `t` checks of a server of the pool is: pending, at a worker or in the channel, in one of
-- these places once; or in none, and then it is among the completed ones, which are that many.
pub record IsLocated (t : ℕ) (sys : System) (k : ℕ) (srv : ServerContext) : Type 0 where
  pub at_most_once : (i : ℕ) → places k i srv sys.running sys.results ≤ 1
  pub elsewhere : none_below t (λ i. places k i srv sys.running sys.results) ≡ srv.completed_count

-- So it is for every server of the pool.
abbrev pub AllLocated : ℕ → System → Type 0
AllLocated t sys =
    (k : ℕ) (srv : ServerContext) → find k sys.pool.pool ≡ some srv → IsLocated t sys k srv

pub Once-AllLocated : (t : ℕ) (sys : System) → Inv t sys → Once sys → AllLocated t sys
Once-AllLocated t sys inv h k srv found =
    let a = inv.active k srv found in
    record {
      at_most_once = λ i. h.once k i srv found;
      elsewhere = omega (
        arith,
        a.each_once,
        none_and_sum t (λ i. places k i srv sys.running sys.results) (λ i. h.once k i srv found),
        sum_below-add t (λ i. times i srv.pending_checks + workers_on k i sys.running)
            (λ i. results_on k i sys.results),
        sum_below-add t (λ i. times i srv.pending_checks) (λ i. workers_on k i sys.running),
        sum_below-times t srv.pending_checks a.in_range,
        sum_below-workers t k sys.running inv.pipeline.running_in_range,
        sum_below-results t k sys.results inv.pipeline.results_in_range,
      );
    }
