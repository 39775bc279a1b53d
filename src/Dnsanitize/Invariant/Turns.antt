-- ===== src/Dnsanitize/Invariant/Turns.antt =====
-- internal/dnsanitize/dnsanitize.go: the invariant over whole turns of `scheduleChecks`.
use dnsanity.Common.{
  ℕ, ◌<◌, ◌≡◌, Bool, true, false, ◌&&◌, inl, inr, List, [], ◌∷◌, arith, ltb, ◌==◌, Bool-cases, min,
}
use dnsanity.Common.Int.{ℤ, pos, negsuc}
use dnsanity.Dnsanitize.Pool.{ServerPool, len, load_n, can_grow, is_drained}
use dnsanity.Dnsanitize.RateLimiter.{remaining}
use dnsanity.Report.Status.{StatusReporter, update_pool_size, update_busy_jobs, log_requests, debug}
use dnsanity.Report.Status.Counters.{SameCounters, debug-same}
use dnsanity.Dnsanitize.System.{System, Tally, Setup, Turn, happen_all}
use dnsanity.Dnsanitize.Collect.{collect_loop}
use dnsanity.Dnsanitize.Dispatch.{schedule_passes}
use dnsanity.Dnsanitize.Scheduler.{
  notify, grown, load_up_to, grow, idle_wait, fresh_tally, finish_turn, take_turn, schedule_checks,
}
use dnsanity.Dnsanitize.Invariant.{Inv}
use dnsanity.Dnsanitize.Invariant.Events.{happen_all-Inv}
use dnsanity.Dnsanitize.Invariant.Collected.{collect_loop-Inv}
use dnsanity.Dnsanitize.Invariant.Dispatched.{schedule_passes-Inv}
use dnsanity.Dnsanitize.Invariant.Grown.{load_n-Inv}

module _ (t : ℕ) where
  -- A status with the same counters serves as well.
  pub status-Inv :
      (sys : System) (s : StatusReporter)
      → SameCounters sys.status s
      → Inv t sys
      → Inv t (record sys { status = s })
  status-Inv sys s same h = record {
    pool_ok = h.pool_ok;
    active = h.active;
    pipeline = record {
      slots = h.pipeline.slots;
      room = h.pipeline.room;
      channel = h.pipeline.channel;
      running_in_range = h.pipeline.running_in_range;
      results_in_range = h.pipeline.results_in_range;
      fresh_jobs = h.pipeline.fresh_jobs;
      counted = h.pipeline.counted;
    };
    bucket = h.bucket;
    accounted = record {
      checks_left = cc (same.total_checks, same.done_checks, h.accounted.checks_left);
      servers_left = ground (
        arith, same.valid_servers, same.invalid_servers, same.total_servers,
        h.accounted.servers_left,
      );
    };
  }

pub update_pool_size-same : (n : ℕ) (s : StatusReporter) → SameCounters s (update_pool_size n s)
unfolding update_pool_size
update_pool_size-same n s = ground arith

pub told-same :
    (n now n_idle n_busy : ℕ) (s : StatusReporter)
    → SameCounters s (update_busy_jobs n (log_requests now n_idle n_busy s))
unfolding update_busy_jobs log_requests
told-same n now n_idle n_busy s = ground arith

module _ (setup : Setup) where
  pub finish_end :
      (turn : Turn) (b : Bool) (s : System × Tally)
      → is_drained (notify setup turn.now s).pool ≡ true
      → (finish_turn setup turn b s).0 ≡ notify setup turn.now s
  unfolding finish_turn
  finish_end turn b s e = rw (e, finish_turn)

  pub finish_more :
      (turn : Turn) (b : Bool) (s : System × Tally)
      → is_drained (notify setup turn.now s).pool ≡ false
      → (finish_turn setup turn b s).0
        ≡ idle_wait setup s.1.num_scheduled (
            grow setup b s.1.free_jobs
              (happen_all setup turn.before_growth (notify setup turn.now s)))
  unfolding finish_turn
  finish_more turn b s e = rw (e, finish_turn)

  pub checks_end :
      (turn : Turn) (turns : List Turn) (sys : System)
      → (take_turn setup turn sys).1 ≡ true
      → schedule_checks setup (turn ∷ turns) sys ≡ take_turn setup turn sys
  unfolding schedule_checks
  checks_end turn turns sys e = rw (e, schedule_checks)

  pub checks_more :
      (turn : Turn) (turns : List Turn) (sys : System)
      → (take_turn setup turn sys).1 ≡ false
      → schedule_checks setup (turn ∷ turns) sys
        ≡ schedule_checks setup turns (take_turn setup turn sys).0
  unfolding schedule_checks
  checks_more turn turns sys e = rw (e, schedule_checks)

module _ (setup : Setup) (t : ℕ) (pos_t : 0 < t) where
  notify-Inv :
      (now : ℕ) (sys : System) (tally : Tally) → Inv t sys → Inv t (notify setup now (sys, tally))
  unfolding notify
  notify-Inv now sys tally h = elim (Bool-cases (ltb 0 tally.num_scheduled)) [
    | inl some_new ↦ rw some_new (
        status-Inv t sys _ (told-same tally.busy_jobs now tally.num_idle tally.num_busy sys.status)
          h)
    | inr no_new ↦ rw no_new h
  ]

  pub growth_told :
      (n : ℕ) (message : _) (s : StatusReporter)
      → SameCounters s (debug setup.strip_ansi message (update_pool_size n s))
  growth_told n message s =
      ground (
        arith,
        debug-same setup.strip_ansi message (update_pool_size n s),
        update_pool_size-same n s,
      )

  grown-Inv :
      (pool : ServerPool) (growth : ℕ) (sys : System)
      → Inv t (record sys { pool = pool })
      → Inv t (grown setup (pool, growth) sys).0
  grown-Inv pool growth sys h = elim (Bool-cases (ltb 0 growth)) [
    | inl some_new ↦
        rw some_new
          (status-Inv t (record sys { pool = pool }) _ (growth_told (len pool) _ sys.status) h)
    | inr no_new ↦ rw no_new h
  ]

  load_up_to-Inv : (z : ℤ) (sys : System) → Inv t sys → Inv t (load_up_to setup z sys).0
  load_up_to-Inv (pos n) sys h =
      let to_load = min (remaining sys.limiter) n in
      elim (Bool-cases (ltb 0 to_load)) [
        | inl some_new ↦ rw some_new (
            grown-Inv (load_n to_load sys.pool).0 (load_n to_load sys.pool).1 sys
              (load_n-Inv t pos_t to_load sys h))
        | inr no_new ↦ rw no_new h
      ]
  load_up_to-Inv (negsuc n) sys h = h

  grow-Inv : (b : Bool) (z : ℤ) (sys : System) → Inv t sys → Inv t (grow setup b z sys).0
  unfolding grow
  grow-Inv true z sys h = load_up_to-Inv z sys h
  grow-Inv false z sys h = h

  idle_wait-Inv :
      (n growth : ℕ) (sys : System) → Inv t sys → Inv t (idle_wait setup n (sys, growth))
  idle_wait-Inv n growth sys h = elim (Bool-cases (n == 0 && growth == 0)) [
    | inl idle ↦ rw idle (status-Inv t sys _ (update_pool_size-same (len sys.pool) sys.status) h)
    | inr going ↦ rw going h
  ]

  finish_cases-Inv :
      (turn : Turn) (b : Bool) (s : System × Tally)
      → Inv t s.0
      → Inv t (finish_turn setup turn b s).0
  finish_cases-Inv turn b (sys, tally) h =
      let told = notify setup turn.now (sys, tally) in
      let h' : Inv t told = notify-Inv turn.now sys tally h in
      elim (Bool-cases (is_drained told.pool)) [
        | inl e ↦ rw (finish_end setup turn b (sys, tally) e) h'
        | inr e ↦ rw (finish_more setup turn b (sys, tally) e) (
            idle_wait-Inv tally.num_scheduled _ _ (
              grow-Inv b tally.free_jobs (happen_all setup turn.before_growth told)
                (happen_all-Inv setup t turn.before_growth told h')))
      ]

  -- A whole turn keeps the invariant.
  pub take_turn-Inv : (turn : Turn) (sys : System) → Inv t sys → Inv t (take_turn setup turn sys).0
  unfolding take_turn
  take_turn-Inv turn sys h =
      let collected = collect_loop setup turn.before_receives sys in
      let ready = happen_all setup turn.before_scheduling collected in
      finish_cases-Inv turn (can_grow ready.pool)
        (schedule_passes setup turn (can_grow ready.pool) (ready, fresh_tally setup ready))
        (schedule_passes-Inv setup t turn (can_grow ready.pool) (ready, fresh_tally setup ready)
          (happen_all-Inv setup t turn.before_scheduling collected
            (collect_loop-Inv setup t turn.before_receives sys h)))

  -- So do any number of turns.
  pub schedule_checks-Inv :
      (turns : List Turn) (sys : System) → Inv t sys → Inv t (schedule_checks setup turns sys).0
  schedule_checks-Inv [] sys h = unfold schedule_checks in h
  schedule_checks-Inv (turn ∷ turns) sys h = elim (Bool-cases ((take_turn setup turn sys).1)) [
    | inl done ↦ rw (checks_end setup turn turns sys done) (take_turn-Inv turn sys h)
    | inr more ↦
        rw (checks_more setup turn turns sys more)
          (schedule_checks-Inv turns (take_turn setup turn sys).0 (take_turn-Inv turn sys h))
  ]
