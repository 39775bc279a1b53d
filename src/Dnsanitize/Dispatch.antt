-- ===== src/Dnsanitize/Dispatch.antt =====
-- internal/dnsanitize/dnsanitize.go: the two passes of `scheduleChecks` that start new queries.
use dnsanity.Common.{
  ℕ, ◌+◌, Bool, true, false, not, ◌&&◌, ◌||◌, List, [], ◌∷◌, ◌++◌, Option, none, some, length, max,
  ltb, ◌==◌, if◌then◌else◌,
}
use dnsanity.Common.Int.{pos, ◌-ℤ◌, ltb_ℤ}
use dnsanity.Dns.Server.{ServerContext}
use dnsanity.Dnsanitize.Slots.{find, put}
use dnsanity.Dnsanitize.Pool.{get}
use dnsanity.Dnsanitize.RateLimiter.{RateLimiter, consume_one, give_back_one}
use dnsanity.Dnsanitize.System.{
  System, Event, Tally, Setup, Turn, in_flight_of, crash_if, happen_all,
}

module _ (setup : Setup) where
  -- The `case` that starts a worker for the first pending check; the program panics where there is none, or
  -- the template has no such check.
  abbrev pub start : ℕ → ℕ → Bool → ServerContext → List ℕ → System × Tally → System × Tally
  start now srv_id idle srv [] (sys, t) = (crash_if true sys, t)
  start now srv_id idle srv (check_id ∷ pending) (sys, t) = (
    record sys {
      pool = record (sys.pool) {
        pool =
            put srv_id
              (record srv {
                pending_checks = pending;
                next_query_at = now + setup.srv_req_interval;
              })
              sys.pool.pool;
      };
      in_flight = put srv_id (in_flight_of srv_id sys.in_flight + 1) sys.in_flight;
      running = sys.running ++ record { srv_id = srv_id; check_id = check_id } ∷ [];
      busy = sys.busy + 1;
      crashed = sys.crashed || not (ltb check_id (length setup.template));
    },
    record {
      num_scheduled = t.num_scheduled + 1;
      num_idle = if idle then t.num_idle + 1 else t.num_idle;
      num_busy = if idle then t.num_busy else t.num_busy + 1;
      busy_jobs = max t.busy_jobs (sys.busy + 1);
      free_jobs = t.free_jobs -ℤ pos 1;
    },
  )

  -- `SKIP SERVER IF`, but for the rate limiter, which is asked last
  abbrev pub is_skipped : ℕ → Bool → Bool → ServerContext → Bool
  is_skipped now second idle srv =
      (not second && not idle)
      || (second && idle)
      || length srv.pending_checks == 0
      || ltb now srv.next_query_at

  abbrev pub try_start :
      ℕ → ℕ → Bool → ServerContext → RateLimiter × Bool → System × Tally → System × Tally
  try_start now srv_id idle srv (limiter, false) (sys, t) = (record sys { limiter = limiter }, t)
  try_start now srv_id idle srv (limiter, true) (sys, t) =
      if ltb sys.busy sys.capacity
      then start now srv_id idle srv srv.pending_checks (record sys { limiter = limiter }, t)
      else (record sys { limiter = give_back_one limiter }, t)

  abbrev pub schedule_at : ℕ → Bool → ℕ → Option ServerContext → System × Tally → System × Tally
  schedule_at now second srv_id none s = s
  schedule_at now second srv_id (some srv) (sys, t) =
      let idle = in_flight_of srv_id sys.in_flight == 0 in
      if is_skipped now second idle srv
      then (sys, t)
      else try_start now srv_id idle srv (consume_one sys.limiter) (sys, t)

  -- The body of `for srvID, srv := range pool.pool`; `second` is `pass == 1`.
  unfoldable pub schedule_one : ℕ → Bool → ℕ → System × Tally → System × Tally
  unfolding in_flight_of find put consume_one give_back_one get ◌-ℤ◌
  schedule_one now second srv_id (sys, t) =
      schedule_at now second srv_id (get sys.pool srv_id) (sys, t)

  unfoldable pub schedule_pass : ℕ → Bool → List (ℕ × List Event) → System × Tally → System × Tally
  unfolding schedule_one happen_all
  schedule_pass now second [] s = s
  schedule_pass now second ((srv_id, es) ∷ more) (sys, t) =
      schedule_pass now second more (schedule_one now second srv_id (happen_all setup es sys, t))

  -- The two passes. The second runs only where the pool cannot grow, and each only with free jobs.
  unfoldable pub schedule_passes : Turn → Bool → System × Tally → System × Tally
  unfolding schedule_pass
  schedule_passes turn pool_can_grow s =
      let s1 =
        if ltb_ℤ (pos 0) s.1.free_jobs then schedule_pass turn.now false turn.first_pass s else s in
      if ltb_ℤ (pos 0) s1.1.free_jobs && not pool_can_grow
      then schedule_pass turn.now true turn.second_pass s1
      else s1
