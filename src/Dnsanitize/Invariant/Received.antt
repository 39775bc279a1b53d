-- ===== src/Dnsanitize/Invariant/Received.antt =====
-- A result taken from the channel, before it is applied.
use dnsanity.Common.{
  ℕ, ◌+◌, ◌-◌, ◌<◌, ◌≡◌, ap, subst, ◌∙◌, Bool, List, ◌∷◌, some, arith, length, ◌==◌, ==_iff, All,
}
use dnsanity.Dns.Server.{ServerContext}
use dnsanity.Dnsanitize.Slots.{find, find-put, find-delete}
use dnsanity.Dnsanitize.RateLimiter.Laws.{IsBucket}
use dnsanity.Dnsanitize.System.{Job, WorkerResult, System, in_flight_of, crash_if}
use dnsanity.Dnsanitize.Collect.{land}
use dnsanity.Dnsanitize.Invariant.{IsActive, IsPool, IsPipeline, IsAccounted, Inv}
use dnsanity.Dnsanitize.Invariant.Counting.{jobs_of, one_if, results_of-cons}

-- The count of requests in flight after one has landed
in_flight_of-land :
    (k srv_id : ℕ) (m : List (ℕ × ℕ))
    → in_flight_of k (land srv_id m) ≡ in_flight_of k m - one_if (srv_id == k)
unfolding in_flight_of
in_flight_of-land k srv_id m = ground (
  arith,
  find-put srv_id k (in_flight_of srv_id m - 1) m,
  find-delete srv_id k m,
  ==_iff srv_id k,
)

-- A system from whose channel `res` was received, and whose request is no longer in flight: the result
-- still counts as a job of its server.
pub record IsReceived (t : ℕ) (res : WorkerResult) (sys : System) : Type 0 where
  pub pool_ok : IsPool t sys.pool
  pub active :
      (k : ℕ) (srv : ServerContext)
      → find k sys.pool.pool ≡ some srv
      → IsActive t (jobs_of k sys.running sys.results + one_if (res.srv_id == k)) srv
  pub pipeline : IsPipeline t sys
  pub bucket : IsBucket sys.limiter
  pub accounted : IsAccounted t sys
  pub in_range : res.check_id < t

pub crash_if-IsReceived :
    (t : ℕ) (res : WorkerResult) (b : Bool) (sys : System)
    → IsReceived t res sys
    → IsReceived t res (crash_if b sys)
crash_if-IsReceived t res b sys h = record {
  pool_ok = h.pool_ok;
  active = h.active;
  pipeline = record {
    slots = h.pipeline.slots;
    room = h.pipeline.room;
    channel = h.pipeline.channel;
    running_in_range = h.pipeline.running_in_range;
    results_in_range = h.pipeline.results_in_range;
    fresh_jobs = h.pipeline.fresh_jobs;
    counted = h.pipeline.counted;
  };
  bucket = h.bucket;
  accounted = record {
    checks_left = h.accounted.checks_left;
    servers_left = h.accounted.servers_left;
  };
  in_range = h.in_range;
}

jobs_of-cons :
    (k : ℕ) (js : List Job) (res : WorkerResult) (rest : List WorkerResult)
    → jobs_of k js (res ∷ rest) ≡ jobs_of k js rest + one_if (res.srv_id == k)
jobs_of-cons k js res rest = omega (arith, results_of-cons k res rest)

pub receive-IsReceived :
    (t : ℕ) (res : WorkerResult) (rest : List WorkerResult) (sys : System)
    → sys.results ≡ res ∷ rest
    → Inv t sys
    → IsReceived t res (record sys { results = rest; in_flight = land res.srv_id sys.in_flight })
receive-IsReceived t res rest sys e h = record {
  pool_ok = h.pool_ok;
  active = λ k srv found. subst (λ n. IsActive t n srv) (jobs k) (h.active k srv found);
  pipeline = record {
    slots = h.pipeline.slots;
    room = h.pipeline.room;
    channel = omega (arith, ap length e, h.pipeline.channel);
    running_in_range = h.pipeline.running_in_range;
    results_in_range = (in_range_all).1;
    fresh_jobs = λ k lt. omega (arith, jobs k, h.pipeline.fresh_jobs k lt);
    counted = λ k.
        in_flight_of-land k res.srv_id sys.in_flight
        ∙ (omega (arith, jobs k, h.pipeline.counted k));
  };
  bucket = h.bucket;
  accounted = record {
    checks_left = h.accounted.checks_left;
    servers_left = h.accounted.servers_left;
  };
  in_range = (in_range_all).0;
}
  where
    jobs :
        (k : ℕ)
        → jobs_of k sys.running sys.results ≡ jobs_of k sys.running rest + one_if (res.srv_id == k)
    jobs k = ap (jobs_of k sys.running) e ∙ jobs_of-cons k sys.running res rest

    in_range_all : (res.check_id < t) × All (λ (r : WorkerResult). r.check_id < t) rest
    in_range_all = subst (All (λ (r : WorkerResult). r.check_id < t)) e h.pipeline.results_in_range
