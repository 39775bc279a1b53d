-- ===== src/Dnsanitize/Invariant/Events.antt =====
-- internal/dnsanitize/dnsanitize.go: the invariant over the steps of the other goroutines.
use dnsanity.Common.{
  ℕ, ◌+◌, ◌<◌, ◌≡◌, refl, sym, ◌∙◌, inl, inr, List, [], ◌∷◌, ◌++◌, Option, none, some, arith,
  length, length-append, ltb, ltb_iff, All-append, Bool-cases, Result, get_elem?, Bool,
}
use dnsanity.Dns.Resolver.{Response, NetError}
use dnsanity.Dns.Template.{TemplateEntry}
use dnsanity.Dnsanitize.RateLimiter.{RateLimiter, refill_once}
use dnsanity.Dnsanitize.RateLimiter.Laws.{IsBucket, refill_once-IsBucket}
use dnsanity.Dnsanitize.System.{
  Job, System, Event, answered, released, refilled, Setup, remove_at, worker_result, send, happen,
  happen_all, crash_if,
}
use dnsanity.Dnsanitize.Invariant.{Inv}
use dnsanity.Dnsanitize.Invariant.Counting.{
  jobs_of, workers_of-remove_at, results_of-snoc, length-remove_at, All-remove_at, All-get_elem?,
}

module _ (setup : Setup) (t : ℕ) where
  -- A worker's move from its run to the channel changes no server's number of jobs.
  sent-jobs :
      (k i : ℕ) (job : Job) (check : TemplateEntry) (outcome : Result NetError Response)
      (sys : System)
      → get_elem? sys.running i ≡ some job
      → jobs_of k
          (remove_at i sys.running)
          (sys.results ++ worker_result setup check job outcome ∷ [])
        ≡ jobs_of k sys.running sys.results
  sent-jobs k i job check outcome sys e = omega (
    arith,
    workers_of-remove_at k i sys.running job e,
    results_of-snoc k sys.results (worker_result setup check job outcome),
  )

  send-Inv :
      (i : ℕ) (job : Job) (check : TemplateEntry) (outcome : Result NetError Response)
      (sys : System)
      → get_elem? sys.running i ≡ some job
      → length sys.results < sys.capacity
      → Inv t sys
      → Inv t (record sys {
        running = remove_at i sys.running;
        releasing = sys.releasing + 1;
        results = sys.results ++ worker_result setup check job outcome ∷ [];
      })
  send-Inv i job check outcome sys e room h = record {
    pool_ok = h.pool_ok;
    active = λ k srv found. rw (sent-jobs k i job check outcome sys e) (h.active k srv found);
    pipeline = record {
      slots = omega (arith, length-remove_at i sys.running job e, h.pipeline.slots);
      room = h.pipeline.room;
      channel =
          omega (arith, length-append {0} sys.results (worker_result setup check job outcome ∷ []));
      running_in_range = All-remove_at _ i sys.running h.pipeline.running_in_range;
      results_in_range =
          All-append _ sys.results _ h.pipeline.results_in_range
            (All-get_elem? _ i sys.running job h.pipeline.running_in_range e, tt);
      fresh_jobs = λ k lt. sent-jobs k i job check outcome sys e ∙ h.pipeline.fresh_jobs k lt;
      counted = λ k. h.pipeline.counted k ∙ sym (sent-jobs k i job check outcome sys e);
    };
    bucket = h.bucket;
    accounted = record {
      checks_left = h.accounted.checks_left;
      servers_left = h.accounted.servers_left;
    };
  }

  send_cases-Inv :
      (job : Option Job) (check : Option TemplateEntry) (i : ℕ) (outcome : Result NetError Response)
      (sys : System)
      → get_elem? sys.running i ≡ job
      → Inv t sys
      → Inv t (send setup job check i outcome sys)
  send_cases-Inv none check i outcome sys e h = h
  send_cases-Inv (some job) none i outcome sys e h = h
  send_cases-Inv (some job) (some check) i outcome sys e h =
      elim (Bool-cases (ltb (length sys.results) sys.capacity)) [
        | inl room ↦ rw room (send-Inv i job check outcome sys e ((ltb_iff _ _).0 room) h)
        | inr full ↦ rw full h
      ]

  released-Inv : (sys : System) → Inv t sys → Inv t (happen setup released sys)
  unfolding happen
  released-Inv sys h = elim (Bool-cases (ltb 0 sys.releasing)) [
    | inl some_left ↦ rw some_left (record {
      pool_ok = h.pool_ok;
      active = h.active;
      pipeline = record {
        slots = omega (arith, h.pipeline.slots, (ltb_iff 0 sys.releasing).0 some_left);
        room = omega (arith, h.pipeline.room);
        channel = h.pipeline.channel;
        running_in_range = h.pipeline.running_in_range;
        results_in_range = h.pipeline.results_in_range;
        fresh_jobs = h.pipeline.fresh_jobs;
        counted = h.pipeline.counted;
      };
      bucket = h.bucket;
      accounted = record {
        checks_left = h.accounted.checks_left;
        servers_left = h.accounted.servers_left;
      };
    })
    | inr no_one ↦ rw no_one h
  ]

  -- The same system but for its rate limiter
  pub limiter-Inv :
      (sys : System) (limiter : RateLimiter)
      → IsBucket limiter
      → Inv t sys
      → Inv t (record sys { limiter = limiter })
  limiter-Inv sys limiter b h = record {
    pool_ok = h.pool_ok;
    active = h.active;
    pipeline = record {
      slots = h.pipeline.slots;
      room = h.pipeline.room;
      channel = h.pipeline.channel;
      running_in_range = h.pipeline.running_in_range;
      results_in_range = h.pipeline.results_in_range;
      fresh_jobs = h.pipeline.fresh_jobs;
      counted = h.pipeline.counted;
    };
    bucket = b;
    accounted = record {
      checks_left = h.accounted.checks_left;
      servers_left = h.accounted.servers_left;
    };
  }

  pub crash_if-Inv : (b : Bool) (sys : System) → Inv t sys → Inv t (crash_if b sys)
  crash_if-Inv b sys h = record {
    pool_ok = h.pool_ok;
    active = h.active;
    pipeline = record {
      slots = h.pipeline.slots;
      room = h.pipeline.room;
      channel = h.pipeline.channel;
      running_in_range = h.pipeline.running_in_range;
      results_in_range = h.pipeline.results_in_range;
      fresh_jobs = h.pipeline.fresh_jobs;
      counted = h.pipeline.counted;
    };
    bucket = h.bucket;
    accounted = record {
      checks_left = h.accounted.checks_left;
      servers_left = h.accounted.servers_left;
    };
  }

  pub happen-Inv : (event : Event) (sys : System) → Inv t sys → Inv t (happen setup event sys)
  unfolding happen
  happen-Inv (answered i outcome) sys h =
      send_cases-Inv (get_elem? sys.running i) _ i outcome sys refl h
  happen-Inv released sys h = released-Inv sys h
  happen-Inv refilled sys h =
      limiter-Inv sys (refill_once sys.limiter) (refill_once-IsBucket sys.limiter h.bucket) h

  -- Whatever other goroutines do between two steps of the scheduler keeps the invariant.
  pub happen_all-Inv :
      (events : List Event) (sys : System) → Inv t sys → Inv t (happen_all setup events sys)
  unfolding happen_all
  happen_all-Inv [] sys h = h
  happen_all-Inv (event ∷ events) sys h =
      happen_all-Inv events (happen setup event sys) (happen-Inv event sys h)
