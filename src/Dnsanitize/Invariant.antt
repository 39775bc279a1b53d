-- ===== src/Dnsanitize/Invariant.antt =====
-- What holds of the scheduler's system between any two of its steps.
pub mod Counting
pub mod Events
pub mod Applied
pub mod Received
pub mod Delivered
pub mod Collected
pub mod Dispatched
pub mod Grown
pub mod Turns
use dnsanity.Common.{
  ℕ, suc, ◌+◌, ◌-◌, ◌*◌, ◌≤◌, ◌<◌, ◌≡◌, refl, Bool, true, false, List, [], ◌∷◌, Option, none, some,
  length, All,
}
use dnsanity.Common.Int.{ℤ, pos, ◌+ℤ◌}
use dnsanity.Dns.Server.{ServerContext}
use dnsanity.Dns.Template.{Template}
use dnsanity.Dnsanitize.Slots.{find}
use dnsanity.Dnsanitize.Slots.Sums.{Unique, total}
use dnsanity.Dnsanitize.Pool.{ServerPool, len, num_pending}
use dnsanity.Dnsanitize.RateLimiter.Laws.{IsBucket}
use dnsanity.Dnsanitize.System.{Job, WorkerResult, System, in_flight_of}
use Counting.{jobs_of}

-- A server in the pool: its pending checks, its jobs and its completed checks are `t` together, and it is
-- neither finished nor disabled.
pub record IsActive (t jobs : ℕ) (srv : ServerContext) : Type 0 where
  pub all_checks : length srv.checks ≡ t
  pub each_once : length srv.pending_checks + jobs + srv.completed_count ≡ t
  pub unfinished : srv.completed_count < t
  pub enabled : srv.disabled ≡ false
  pub in_range : All (λ i. i < t) srv.pending_checks

-- The checks of a server that are not completed
abbrev pub open_checks : ℕ → ServerContext → ℕ
open_checks t srv = t - srv.completed_count

-- The checks not completed of all servers, in the pool and in the queue
abbrev pub open_work : ℕ → ServerPool → ℕ
open_work t sp = total (open_checks t) sp.pool + num_pending sp * t

-- The pool and its slots
pub record IsPool (t : ℕ) (sp : ServerPool) : Type 0 where
  pub unique : Unique sp.pool
  pub fresh : (k : ℕ) → sp.next_slot ≤ k → find k sp.pool ≡ none
  pub in_size : len sp ≤ sp.max_pool_sz
  pub in_queue : sp.dequeue_idx ≤ length sp.queue
  pub checks : length sp.template ≡ t

-- The workers, their channel and their slots
pub record IsPipeline (t : ℕ) (sys : System) : Type 0 where
  pub slots : sys.busy ≡ length sys.running + sys.releasing
  pub room : sys.busy ≤ sys.capacity
  pub channel : length sys.results ≤ sys.capacity
  pub running_in_range : All (λ (j : Job). j.check_id < t) sys.running
  pub results_in_range : All (λ (r : WorkerResult). r.check_id < t) sys.results
  pub fresh_jobs : (k : ℕ) → sys.pool.next_slot ≤ k → jobs_of k sys.running sys.results ≡ 0
  pub counted : (k : ℕ) → in_flight_of k sys.in_flight ≡ jobs_of k sys.running sys.results

-- The counters of the status against the work that is left
pub record IsAccounted (t : ℕ) (sys : System) : Type 0 where
  pub checks_left : sys.status.total_checks ≡ sys.status.done_checks +ℤ pos (open_work t sys.pool)
  pub servers_left :
      sys.status.valid_servers + sys.status.invalid_servers + len sys.pool + num_pending sys.pool
      ≡ sys.status.total_servers

pub record Inv (t : ℕ) (sys : System) : Type 0 where
  pub pool_ok : IsPool t sys.pool
  pub active :
      (k : ℕ) (srv : ServerContext)
      → find k sys.pool.pool ≡ some srv
      → IsActive t (jobs_of k sys.running sys.results) srv
  pub pipeline : IsPipeline t sys
  pub bucket : IsBucket sys.limiter
  pub accounted : IsAccounted t sys
