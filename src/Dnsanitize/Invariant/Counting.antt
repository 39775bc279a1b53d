-- ===== src/Dnsanitize/Invariant/Counting.antt =====
-- How many workers and results a server has.
use dnsanity.Common.{
  ℕ, zero, suc, ◌+◌, ◌≡◌, refl, subst, some-injective, Bool, List, [], ◌∷◌, ◌++◌, some, arith,
  length, ◌==◌, if◌then◌else◌, All, get_elem?,
}
use dnsanity.Dnsanitize.System.{Job, WorkerResult, remove_at, in_flight_of}
use dnsanity.Dnsanitize.Slots.{find}

abbrev pub one_if : Bool → ℕ
one_if b = if b then 1 else 0

unfoldable pub workers_of : ℕ → List Job → ℕ
workers_of k [] = 0
workers_of k (j ∷ js) = one_if (j.srv_id == k) + workers_of k js

unfoldable pub results_of : ℕ → List WorkerResult → ℕ
results_of k [] = 0
results_of k (r ∷ rs) = one_if (r.srv_id == k) + results_of k rs

abbrev pub jobs_of : ℕ → List Job → List WorkerResult → ℕ
jobs_of k js rs = workers_of k js + results_of k rs

pub jobs_of-none : (k : ℕ) → jobs_of k [] [] ≡ 0
unfolding workers_of results_of
jobs_of-none k = refl

pub in_flight_of-none : (k : ℕ) → in_flight_of k [] ≡ 0
unfolding in_flight_of find
in_flight_of-none k = refl

pub workers_of-snoc :
    (k : ℕ) (js : List Job) (j : Job)
    → workers_of k (js ++ j ∷ []) ≡ workers_of k js + one_if (j.srv_id == k)
unfolding workers_of
workers_of-snoc k [] j = omega arith
workers_of-snoc k (i ∷ js) j = omega (arith, workers_of-snoc k js j)

pub results_of-snoc :
    (k : ℕ) (rs : List WorkerResult) (r : WorkerResult)
    → results_of k (rs ++ r ∷ []) ≡ results_of k rs + one_if (r.srv_id == k)
unfolding results_of
results_of-snoc k [] r = omega arith
results_of-snoc k (x ∷ rs) r = omega (arith, results_of-snoc k rs r)

pub results_of-cons :
    (k : ℕ) (r : WorkerResult) (rs : List WorkerResult)
    → results_of k (r ∷ rs) ≡ one_if (r.srv_id == k) + results_of k rs
unfolding results_of
results_of-cons k r rs = refl

pub workers_of-remove_at :
    (k i : ℕ) (js : List Job) (j : Job)
    → get_elem? js i ≡ some j
    → workers_of k (remove_at i js) + one_if (j.srv_id == k) ≡ workers_of k js
unfolding workers_of
workers_of-remove_at k i [] j h = cc
workers_of-remove_at k zero (x ∷ js) j h = ground arith
workers_of-remove_at k (suc i) (x ∷ js) j h = omega (arith, workers_of-remove_at k i js j h)

module _ {A : Type 0} where
  pub length-remove_at :
      (i : ℕ) (xs : List A) (x : A)
      → get_elem? xs i ≡ some x
      → suc (length (remove_at i xs)) ≡ length xs
  length-remove_at i [] x h = cc
  length-remove_at zero (y ∷ xs) x h = refl
  length-remove_at (suc i) (y ∷ xs) x h = omega (arith, length-remove_at i xs x h)

  pub All-remove_at : (P : A → Type 0) (i : ℕ) (xs : List A) → All P xs → All P (remove_at i xs)
  All-remove_at P i [] h = tt
  All-remove_at P zero (x ∷ xs) (hx, hxs) = hxs
  All-remove_at P (suc i) (x ∷ xs) (hx, hxs) = (hx, All-remove_at P i xs hxs)

  pub All-get_elem? :
      (P : A → Type 0) (i : ℕ) (xs : List A) (x : A) → All P xs → get_elem? xs i ≡ some x → P x
  All-get_elem? P i [] x h e = cc
  All-get_elem? P zero (y ∷ xs) x (hy, hxs) e = subst P (some-injective e) hy
  All-get_elem? P (suc i) (y ∷ xs) x (hy, hxs) e = All-get_elem? P i xs x hxs e
