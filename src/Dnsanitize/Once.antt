-- ===== src/Dnsanitize/Once.antt =====
-- internal/dnsanitize/dnsanitize.go and serverpool.go: where each check of a server is, over the steps of a
-- run.
pub mod Steps
pub mod Counts
pub mod Loads
pub mod Runs
use dnsanity.Common.{
  ℕ, zero, suc, ◌+◌, ◌≤◌, ◌<◌, ◌≡◌, refl, sym, ap, subst, ◌∙◌, Bool, true, false, ◌&&◌, inl, inr,
  List, [], ◌∷◌, ◌++◌, Option, none, some, arith, length, ltb, ◌==◌, ==_iff, if◌then◌else◌,
  Bool-cases, Option-cases, get_elem?, Result, ◌⊎◌, not,
}
use dnsanity.Common.Int.{ℤ, pos, ◌-ℤ◌, ltb_ℤ, leb_ℤ}
use dnsanity.Text.{Bytes}
use dnsanity.Dns.Answer.{is_worth_retrying}
use dnsanity.Dns.Template.{TemplateEntry, Template}
use dnsanity.Dns.Resolver.{Response, NetError}
use dnsanity.Dns.Server.{CheckContext, ServerContext, indices, new_server_context, finished}
use dnsanity.Report.Status.{StatusReporter}
use dnsanity.Dnsanitize.Slots.{find}
use dnsanity.Dnsanitize.Slots.Replace.{put-own, put-other, delete-some}
use dnsanity.Dnsanitize.Pool.{get, unload}
use dnsanity.Dnsanitize.System.{
  Job, WorkerResult, System, Event, answered, released, refilled, Setup, worker_result, remove_at,
  send, check_of, happen, crash_if,
}
use dnsanity.Dnsanitize.Collect.{
  count_failure, apply_to, apply_results, settle, deliver, collect_one,
}
use dnsanity.Dnsanitize.Invariant.{Inv}
use dnsanity.Dnsanitize.Invariant.Counting.{one_if, workers_of, results_of, jobs_of}
use dnsanity.Dnsanitize.Induction.{IsStepwise, with_loaded}

-- How often a check is among the pending ones
pub times : ℕ → List ℕ → ℕ
times i [] = 0
times i (c ∷ cs) = one_if (c == i) + times i cs

-- How many workers and results there are for a check of a server
pub workers_on : ℕ → ℕ → List Job → ℕ
workers_on k i [] = 0
workers_on k i (j ∷ js) = one_if (j.srv_id == k && j.check_id == i) + workers_on k i js

pub results_on : ℕ → ℕ → List WorkerResult → ℕ
results_on k i [] = 0
results_on k i (r ∷ rs) = one_if (r.srv_id == k && r.check_id == i) + results_on k i rs

-- How often a check of the server `k` is pending, at a worker or in the channel
abbrev pub places : ℕ → ℕ → ServerContext → List Job → List WorkerResult → ℕ
places k i srv js rs = times i srv.pending_checks + workers_on k i js + results_on k i rs

-- Each check of a server in the pool is in at most one of these places, once.
pub record Once (sys : System) : Type 0 where
  pub once :
      (k i : ℕ) (srv : ServerContext)
      → find k sys.pool.pool ≡ some srv
      → places k i srv sys.running sys.results ≤ 1

pub times-cons : (i c : ℕ) (cs : List ℕ) → times i (c ∷ cs) ≡ one_if (c == i) + times i cs
unfolding times
times-cons i c cs = refl

pub results_on-cons :
    (k i : ℕ) (r : WorkerResult) (rs : List WorkerResult)
    → results_on k i (r ∷ rs) ≡ one_if (r.srv_id == k && r.check_id == i) + results_on k i rs
unfolding results_on
results_on-cons k i r rs = refl

pub workers_on-snoc :
    (k i : ℕ) (js : List Job) (j : Job)
    → workers_on k i (js ++ j ∷ []) ≡ workers_on k i js + one_if (j.srv_id == k && j.check_id == i)
unfolding workers_on
workers_on-snoc k i [] j = omega arith
workers_on-snoc k i (x ∷ js) j = omega (arith, workers_on-snoc k i js j)

pub results_on-snoc :
    (k i : ℕ) (rs : List WorkerResult) (r : WorkerResult)
    → results_on k i (rs ++ r ∷ []) ≡ results_on k i rs + one_if (r.srv_id == k && r.check_id == i)
unfolding results_on
results_on-snoc k i [] r = omega arith
results_on-snoc k i (x ∷ rs) r = omega (arith, results_on-snoc k i rs r)

pub workers_on-remove_at :
    (k i n : ℕ) (js : List Job) (j : Job)
    → get_elem? js n ≡ some j
    → workers_on k i (remove_at n js) + one_if (j.srv_id == k && j.check_id == i)
      ≡ workers_on k i js
unfolding workers_on
workers_on-remove_at k i n [] j h = cc
workers_on-remove_at k i zero (x ∷ js) j h = ground arith
workers_on-remove_at k i (suc n) (x ∷ js) j h = omega (arith, workers_on-remove_at k i n js j h)

-- No more than the workers and results of the server
workers_on-workers_of : (k i : ℕ) (js : List Job) → workers_on k i js ≤ workers_of k js
unfolding workers_on workers_of
workers_on-workers_of k i [] = omega arith
workers_on-workers_of k i (j ∷ js) = ground (arith, workers_on-workers_of k i js)

results_on-results_of : (k i : ℕ) (rs : List WorkerResult) → results_on k i rs ≤ results_of k rs
unfolding results_on results_of
results_on-results_of k i [] = omega arith
results_on-results_of k i (r ∷ rs) = ground (arith, results_on-results_of k i rs)

-- Each index of a template stands once among the pending checks of a new server.
pub times-indices :
    (i j : ℕ) (template : Template)
    → (times i (indices j template) ≤ 1) × (i < j → times i (indices j template) ≡ 0)
unfolding times
times-indices i j [] = (omega arith, λ lt. refl)
times-indices i j (e ∷ template) =
    let (le, before) = times-indices i (suc j) template in
    elim (Bool-cases (j == i)) [
      | inl same ↦
          let eq = (==_iff j i).0 same in
          rw same (omega (arith, before (omega (arith, eq)), eq), λ lt. absurd (omega (arith, eq)))
      | inr other ↦ rw other (omega (arith, le), λ lt. omega (arith, before (omega arith)))
    ]

-- What a result does to the pending checks: nothing, or its check goes to their front.
abbrev pub Returned : ServerContext → WorkerResult → ServerContext → Type 0
Returned srv res srv' =
    (srv'.pending_checks ≡ srv.pending_checks)
    ⊎ (srv'.pending_checks ≡ res.check_id ∷ srv.pending_checks)

count_failure-pending :
    (n : ℤ) (srv : ServerContext) (status : StatusReporter)
    → (count_failure n srv status).0.pending_checks ≡ srv.pending_checks
count_failure-pending n srv status = elim (Bool-cases (leb_ℤ n (pos (srv.failed_count + 1)))) [
  | inl e ↦ rw e refl
  | inr e ↦ rw e refl
]

apply_to-Returned :
    (chk : CheckContext) (srv : ServerContext) (res : WorkerResult) (n : ℤ)
    (status : StatusReporter)
    → Returned srv res (apply_to chk srv res n status).0
unfolding apply_to
apply_to-Returned chk srv res n status = elim (Bool-cases res.passed) [
  | inl q ↦ rw q (inl refl)
  | inr q ↦
      elim (Bool-cases
        (ltb_ℤ (pos 0) (chk.attempts_left -ℤ pos 1) && is_worth_retrying (some res.answer))) [
          | inl again ↦ rw (q, again) (inr refl)
          | inr last ↦ rw (q, last) (inl (count_failure-pending n _ status))
        ]
]

pub apply_results-Returned :
    (srv : ServerContext) (res : WorkerResult) (n : ℤ) (status : StatusReporter)
    → Returned srv res (apply_results srv res n status).0
unfolding apply_results
apply_results-Returned srv res n status = elim (Option-cases (get_elem? srv.checks res.check_id)) [
  | inl q ↦ rw q (inl refl)
  | inr (chk, q) ↦ rw q (apply_to-Returned chk srv res n status)
]

-- A server that has just been loaded
loaded-places :
    (t : ℕ) (ip : Bytes) (sys : System)
    → Inv t sys
    → (k i : ℕ) → sys.pool.next_slot ≡ k
    → places k i
        (new_server_context ip sys.pool.template sys.pool.max_attempts)
        sys.running
        sys.results
      ≤ 1
unfolding new_server_context
loaded-places t ip sys inv k i own = omega (
  arith,
  (times-indices i 0 sys.pool.template).0,
  inv.pipeline.fresh_jobs k (omega arith),
  workers_on-workers_of k i sys.running,
  results_on-results_of k i sys.results,
)

pub load-Once :
    (t : ℕ) (ip : Bytes) (sys : System)
    → Inv t sys
    → Once sys
    → Once (record sys { pool = with_loaded ip sys.pool })
load-Once t ip sys inv h = record {
  once = λ k i x q. elim (Bool-cases (sys.pool.next_slot == k)) [
    | inl own ↦
        subst (λ y. places k i y sys.running sys.results ≤ 1)
          (put-own sys.pool.next_slot k _ x sys.pool.pool own q)
          (loaded-places t ip sys inv k i ((==_iff sys.pool.next_slot k).0 own))
    | inr other ↦ h.once k i x (put-other sys.pool.next_slot k _ x sys.pool.pool other q)
  ];
}
