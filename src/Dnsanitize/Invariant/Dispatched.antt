-- ===== src/Dnsanitize/Invariant/Dispatched.antt =====
-- internal/dnsanitize/dnsanitize.go: the invariant over the two passes of `scheduleChecks`.
use dnsanity.Common.{
  ℕ, ◌+◌, ◌≤◌, ◌<◌, ◌≡◌, refl, sym, ap, subst, ◌∙◌, Bool, true, false, not, ◌||◌, inl, inr, List,
  [], ◌∷◌, ◌++◌, Option, none, some, arith, length, length-append, ltb, ltb_iff, ◌==◌, ==_iff, All,
  All-append, Bool-cases, if◌then◌else◌,
}
use dnsanity.Common.Int.{pos, ◌+ℤ◌}
use dnsanity.Dns.Server.{ServerContext}
use dnsanity.Dnsanitize.Slots.{find, put, find-put}
use dnsanity.Dnsanitize.Slots.Sums.{Unique-put, total-put_old}
use dnsanity.Dnsanitize.Slots.Replace.{length-put, put-fresh, put-own, put-other}
use dnsanity.Dnsanitize.RateLimiter.{RateLimiter, consume_one, give_back_one}
use dnsanity.Dnsanitize.RateLimiter.Laws.{IsBucket, consume_one-IsBucket, give_back_one-IsBucket}
use dnsanity.Dnsanitize.Pool.{get}
use dnsanity.Dnsanitize.System.{Job, System, Tally, Setup, Turn, Event, in_flight_of, happen_all}
use dnsanity.Dnsanitize.Dispatch.{
  start, is_skipped, try_start, schedule_at, schedule_one, schedule_pass, schedule_passes,
}
use dnsanity.Dnsanitize.Invariant.{IsActive, Inv, open_checks}
use dnsanity.Dnsanitize.Invariant.Counting.{jobs_of, one_if, workers_of-snoc}
use dnsanity.Dnsanitize.Invariant.Events.{happen_all-Inv, limiter-Inv, crash_if-Inv}

in_flight_of-put :
    (srv_id k : ℕ) (m : List (ℕ × ℕ))
    → in_flight_of k (put srv_id (in_flight_of srv_id m + 1) m)
      ≡ in_flight_of k m + one_if (srv_id == k)
unfolding in_flight_of
in_flight_of-put srv_id k m =
    ground (arith, find-put srv_id k (in_flight_of srv_id m + 1) m, ==_iff srv_id k)

module _ (setup : Setup) (t : ℕ) where
  module _ (now srv_id c : ℕ) (rest : List ℕ) (srv : ServerContext) (sys : System) (h : Inv t sys)
      (found : find srv_id sys.pool.pool ≡ some srv) (pending : srv.pending_checks ≡ c ∷ rest)
      (free : sys.busy < sys.capacity) where
    abbrev pub started : ServerContext
    started = record srv { pending_checks = rest; next_query_at = now + setup.srv_req_interval }

    abbrev pub job : Job
    job = record { srv_id = srv_id; check_id = c }

    own : IsActive t (jobs_of srv_id sys.running sys.results) srv
    own = h.active srv_id srv found

    pending_range : (c < t) × All (λ i. i < t) rest
    pending_range = subst (All (λ i. i < t)) pending own.in_range

    jobs :
        (k : ℕ)
        → jobs_of k (sys.running ++ job ∷ []) sys.results
          ≡ jobs_of k sys.running sys.results + one_if (srv_id == k)
    jobs k = omega (arith, workers_of-snoc k sys.running job)

    taken : srv_id < sys.pool.next_slot
    taken = ground (arith, h.pool_ok.fresh srv_id)

    own_started : IsActive t (jobs_of srv_id (sys.running ++ job ∷ []) sys.results) started
    own_started = record {
      all_checks = own.all_checks;
      each_once = ground (arith, own.each_once, ap length pending, jobs srv_id);
      unfinished = own.unfinished;
      enabled = own.enabled;
      in_range = pending_range.1;
    }

    pub start-Inv : Inv t (record sys {
      pool = record (sys.pool) { pool = put srv_id started sys.pool.pool };
      in_flight = put srv_id (in_flight_of srv_id sys.in_flight + 1) sys.in_flight;
      running = sys.running ++ job ∷ [];
      busy = sys.busy + 1;
      crashed = sys.crashed || not (ltb c (length setup.template));
    })
    start-Inv = record {
      pool_ok = record {
        unique = Unique-put srv_id started sys.pool.pool h.pool_ok.unique;
        fresh = λ k lt. put-fresh srv_id k srv started sys.pool.pool found (h.pool_ok.fresh k lt);
        in_size =
            omega (arith, length-put srv_id started srv sys.pool.pool found, h.pool_ok.in_size);
        in_queue = h.pool_ok.in_queue;
        checks = h.pool_ok.checks;
      };
      active = λ k x e. elim (Bool-cases (srv_id == k)) [
        | inl same ↦
            let k_eq : srv_id ≡ k = (==_iff srv_id k).0 same in
            let x_eq : started ≡ x = put-own srv_id k started x sys.pool.pool same e in
            subst (λ y. IsActive t (jobs_of k (sys.running ++ job ∷ []) sys.results) y) x_eq
              (subst (λ j. IsActive t (jobs_of j (sys.running ++ job ∷ []) sys.results) started)
                k_eq own_started)
        | inr differs ↦
            subst (λ n. IsActive t n x) (same_jobs k differs)
              (h.active k x (put-other srv_id k started x sys.pool.pool differs e))
      ];
      pipeline = record {
        slots = omega (arith, h.pipeline.slots, length-append {0} sys.running (job ∷ []));
        room = omega arith;
        channel = h.pipeline.channel;
        running_in_range =
            All-append _ sys.running _ h.pipeline.running_in_range (pending_range.0, tt);
        results_in_range = h.pipeline.results_in_range;
        fresh_jobs = λ k lt. fresh_still k lt;
        counted = λ k.
            in_flight_of-put srv_id k sys.in_flight ∙ omega (arith, jobs k, h.pipeline.counted k);
      };
      bucket = h.bucket;
      accounted = record {
        checks_left =
            h.accounted.checks_left
            ∙ ap (λ n. sys.status.done_checks +ℤ pos n)
                (omega
                  (arith, total-put_old (open_checks t) srv_id started srv sys.pool.pool found));
        servers_left =
            omega
              (arith, h.accounted.servers_left, length-put srv_id started srv sys.pool.pool found);
      };
    }
      where
        same_jobs :
            (k : ℕ)
            → (srv_id == k) ≡ false
            → jobs_of k sys.running sys.results ≡ jobs_of k (sys.running ++ job ∷ []) sys.results
        same_jobs k differs = sym (jobs k ∙ (rw differs (omega arith)))

        fresh_still :
            (k : ℕ) → sys.pool.next_slot ≤ k → jobs_of k (sys.running ++ job ∷ []) sys.results ≡ 0
        fresh_still k lt =
            ground (arith, jobs k, h.pipeline.fresh_jobs k lt, ==_iff srv_id k, taken)

  start_cases-Inv :
      (now srv_id : ℕ) (idle : Bool) (srv : ServerContext) (pending : List ℕ) (sys : System)
      (tally : Tally)
      → Inv t sys
      → find srv_id sys.pool.pool ≡ some srv
      → srv.pending_checks ≡ pending
      → sys.busy < sys.capacity
      → Inv t (start setup now srv_id idle srv pending (sys, tally)).0
  start_cases-Inv now srv_id idle srv [] sys tally h found e free = crash_if-Inv setup t true sys h
  start_cases-Inv now srv_id idle srv (c ∷ rest) sys tally h found e free =
      start-Inv now srv_id c rest srv sys h found e free

  try_start-Inv :
      (now srv_id : ℕ) (idle : Bool) (srv : ServerContext) (limiter : RateLimiter) (ok : Bool)
      (sys : System) (tally : Tally)
      → Inv t sys
      → IsBucket limiter
      → find srv_id sys.pool.pool ≡ some srv
      → Inv t (try_start setup now srv_id idle srv (limiter, ok) (sys, tally)).0
  try_start-Inv now srv_id idle srv limiter false sys tally h b found =
      limiter-Inv setup t sys limiter b h
  try_start-Inv now srv_id idle srv limiter true sys tally h b found =
      elim (Bool-cases (ltb sys.busy sys.capacity)) [
        | inl free ↦ rw free (
            start_cases-Inv now srv_id idle srv srv.pending_checks
              (record sys { limiter = limiter }) tally (limiter-Inv setup t sys limiter b h) found
              refl ((ltb_iff _ _).0 free))
        | inr full ↦
            rw full
              (limiter-Inv setup t sys (give_back_one limiter) (give_back_one-IsBucket limiter b) h)
      ]

  schedule_at-Inv :
      (now : ℕ) (second : Bool) (srv_id : ℕ) (o : Option ServerContext) (sys : System)
      (tally : Tally)
      → Inv t sys
      → find srv_id sys.pool.pool ≡ o
      → Inv t (schedule_at setup now second srv_id o (sys, tally)).0
  schedule_at-Inv now second srv_id none sys tally h e = h
  schedule_at-Inv now second srv_id (some srv) sys tally h e =
      let idle = in_flight_of srv_id sys.in_flight == 0 in
      elim (Bool-cases (is_skipped setup now second idle srv)) [
        | inl skip ↦ rw skip h
        | inr go ↦ rw go (
            try_start-Inv now srv_id idle srv (consume_one sys.limiter).0
              (consume_one sys.limiter).1 sys tally h (consume_one-IsBucket sys.limiter h.bucket) e)
      ]

  pub schedule_one-Inv :
      (now : ℕ) (second : Bool) (srv_id : ℕ) (s : System × Tally)
      → Inv t s.0
      → Inv t (schedule_one setup now second srv_id s).0
  unfolding schedule_one get
  schedule_one-Inv now second srv_id (sys, tally) h =
      schedule_at-Inv now second srv_id (find srv_id sys.pool.pool) sys tally h refl

  pub schedule_pass-Inv :
      (now : ℕ) (second : Bool) (visits : List (ℕ × List Event)) (s : System × Tally)
      → Inv t s.0
      → Inv t (schedule_pass setup now second visits s).0
  unfolding schedule_pass
  schedule_pass-Inv now second [] s h = h
  schedule_pass-Inv now second ((srv_id, es) ∷ more) (sys, tally) h =
      schedule_pass-Inv now second more
        (schedule_one setup now second srv_id (happen_all setup es sys, tally))
        (schedule_one-Inv now second srv_id (happen_all setup es sys, tally)
          (happen_all-Inv setup t es sys h))

  pass_if-Inv :
      (b : Bool) (now : ℕ) (second : Bool) (visits : List (ℕ × List Event)) (s : System × Tally)
      → Inv t s.0
      → Inv t (if b then schedule_pass setup now second visits s else s).0
  pass_if-Inv true now second visits s h = schedule_pass-Inv now second visits s h
  pass_if-Inv false now second visits s h = h

  -- Both passes keep the invariant, in whatever order they visit the servers.
  pub schedule_passes-Inv :
      (turn : Turn) (pool_can_grow : Bool) (s : System × Tally)
      → Inv t s.0
      → Inv t (schedule_passes setup turn pool_can_grow s).0
  unfolding schedule_passes
  schedule_passes-Inv turn pool_can_grow s h =
      pass_if-Inv _ turn.now true turn.second_pass _
        (pass_if-Inv _ turn.now false turn.first_pass s h)
