-- ===== src/Dnsanitize/Conservation.antt =====
-- internal/dnsanitize/dnsanitize.go, `DNSanitize`: runs from their start, and their counters.
use dnsanity.Common.{
  min, ◌≤◌, ℕ, ◌+◌, ◌-◌, ◌*◌, ◌<◌, ◌^◌, ◌≡◌, refl, sym, ap, subst, ◌∙◌, Bool, true, false≢true, inl,
  inr, List, [], ◌∷◌, Option, none, some, some-injective, arith, length, ==_iff, Bool-cases,
}
use dnsanity.Common.Int.{pos, int_laws}
use dnsanity.Dnsanitize.Slots.{find}
use dnsanity.Dnsanitize.Slots.Sums.{total-empty}
use dnsanity.Dnsanitize.Pool.{len, num_pending, is_drained, new_server_pool, can_grow}
use dnsanity.Dnsanitize.RateLimiter.{RateLimiter, Floats, new_rate_limiter, stop_refiller}
use dnsanity.Dnsanitize.RateLimiter.Laws.{
  IsBucket, stop_refiller-IsBucket, new_rate_limiter-IsBucket,
}
use dnsanity.Report.Metrics.{second}
use dnsanity.Report.Status.{IoFiles, StatusReporter, new_status_reporter, is_finished}
use dnsanity.Dnsanitize.System.{happen_all, System, Setup, Turn, Tally}
use dnsanity.Dnsanitize.Collect.{collect_loop}
use dnsanity.Dnsanitize.Dispatch.{schedule_passes}
use dnsanity.Dnsanitize.Scheduler.{
  fresh_tally, finish_turn, take_turn, schedule_checks, Settings, initial, run_with, dnsanitize,
}
use dnsanity.Dnsanitize.Invariant.{Inv, open_checks, open_work}
use dnsanity.Dnsanitize.Limits.{IsKept, schedule_checks-IsKept}
use dnsanity.Dnsanitize.Invariant.Counting.{jobs_of-none, in_flight_of-none}
use dnsanity.Dnsanitize.Invariant.Events.{limiter-Inv}
use dnsanity.Dnsanitize.Invariant.Turns.{schedule_checks-Inv, checks_end, checks_more}

-- The settings and template fit: the bucket's size is what 63 bits hold, and there is a check to do.
pub record IsSetup (fl : Floats) (setup : Setup) (s : Settings) : Type 0 where
  pub small_bucket : fl.tokens_of s.glob_rate_limit (pos second) < 2 ^ 63
  pub some_check : 0 < length setup.template

-- The status that `main` makes for a run
abbrev pub fresh_status : IoFiles → ℕ → Setup → Settings → StatusReporter
fresh_status io now setup s =
    new_status_reporter io now s.server_ips setup.template s.max_pool_size s.max_threads

minus_zero : (n : ℕ) → n - 0 ≡ n
minus_zero n = omega arith

pub initial-Inv :
    (io : IoFiles) (now : ℕ) (setup : Setup) (s : Settings) (limiter : RateLimiter)
    → IsBucket limiter
    → Inv (length setup.template) (initial setup s limiter (fresh_status io now setup s))
unfolding new_server_pool new_status_reporter
initial-Inv io now setup s limiter b = record {
  pool_ok = record {
    unique = tt;
    fresh = λ k lt. unfold find in refl;
    in_size = omega arith;
    in_queue = omega arith;
    checks = refl;
  };
  active = λ k srv e. absurd (unfold find in cc);
  pipeline = record {
    slots = omega arith;
    room = omega arith;
    channel = omega arith;
    running_in_range = tt;
    results_in_range = tt;
    fresh_jobs = λ k lt. jobs_of-none k;
    counted = λ k. in_flight_of-none k ∙ sym (jobs_of-none k);
  };
  bucket = b;
  accounted = record { checks_left = rw (all_open) (omega int_laws); servers_left = omega arith };
}
  where
    all_open :
        open_work
          (length setup.template)
          (new_server_pool s.max_pool_size s.server_ips setup.template s.per_check_max_attempts)
        ≡ length s.server_ips * length setup.template
    all_open =
        unfold new_server_pool in
        (omega (
          arith,
          total-empty (open_checks (length setup.template)) [] (omega arith),
          ap (λ n. n * length setup.template) (minus_zero (length s.server_ips)),
        ))

drained-counts :
    (t : ℕ) (sys : System)
    → Inv t sys
    → is_drained sys.pool ≡ true
    → (sys.status.total_checks ≡ sys.status.done_checks) × (is_finished sys.status ≡ true)
unfolding is_drained is_finished
drained-counts t sys h e = (
  h.accounted.checks_left ∙ (rw no_work (omega int_laws)),
  ground (
    arith,
    h.accounted.servers_left,
    empty,
    ==_iff (sys.status.valid_servers + sys.status.invalid_servers) sys.status.total_servers,
  ),
)
  where
    empty : (length sys.pool.pool ≡ 0) × (num_pending sys.pool ≡ 0)
    empty = ground (arith, ==_iff (length sys.pool.pool) 0, ==_iff (num_pending sys.pool) 0)

    no_work : open_work t sys.pool ≡ 0
    no_work =
        omega (arith, total-empty (open_checks t) sys.pool.pool empty.0, ap (λ n. n * t) empty.1)

module _ (setup : Setup) where
  finish_turn-drained :
      (turn : Turn) (b : Bool) (s : System × Tally)
      → (finish_turn setup turn b s).1 ≡ true
      → is_drained (finish_turn setup turn b s).0.pool ≡ true
  unfolding finish_turn
  finish_turn-drained turn b s e = ground arith

  take_turn-drained :
      (turn : Turn) (sys : System)
      → (take_turn setup turn sys).1 ≡ true
      → is_drained (take_turn setup turn sys).0.pool ≡ true
  unfolding take_turn
  take_turn-drained turn sys e =
      let collected = collect_loop setup turn.before_receives sys in
      let ready = happen_all setup turn.before_scheduling collected in
      finish_turn-drained turn (can_grow ready.pool)
        (schedule_passes setup turn (can_grow ready.pool) (ready, fresh_tally setup ready)) e

  schedule_checks-drained :
      (turns : List Turn) (sys : System)
      → (schedule_checks setup turns sys).1 ≡ true
      → is_drained (schedule_checks setup turns sys).0.pool ≡ true
  schedule_checks-drained [] sys e = absurd (unfold schedule_checks in false≢true e)
  schedule_checks-drained (turn ∷ turns) sys e = elim (Bool-cases ((take_turn setup turn sys).1)) [
    | inl done ↦ rw (checks_end setup turn turns sys done) (take_turn-drained turn sys done)
    | inr more ↦ rw (checks_more setup turn turns sys more) (
        schedule_checks-drained turns (take_turn setup turn sys).0
          (sym (ap (λ r. r.1) (checks_more setup turn turns sys more)) ∙ e))
  ]

  -- The slots that a run has
  abbrev slots_of : Settings → ℕ
  slots_of s = min s.max_threads (length s.server_ips * length setup.template)

  -- What holds of a run's system, and of the pool where the loop has ended
  abbrev AfterRun : Settings → System × Bool → Type 0
  AfterRun s (sys, done) =
      Inv (length setup.template) sys
      × IsKept (slots_of s) s.max_pool_size (length s.server_ips) sys
      × (done ≡ true → is_drained sys.pool ≡ true)

  run_with-AfterRun :
      (s : Settings) (turns : List Turn) (status : StatusReporter) (o : Option RateLimiter)
      {r : System × Bool}
      → 0 < length setup.template
      → status.total_servers ≡ length s.server_ips
      → ((limiter : RateLimiter)
          → o ≡ some limiter
          → Inv (length setup.template) (initial setup s limiter status))
      → run_with setup s turns status o ≡ some r
      → AfterRun s r
  run_with-AfterRun s turns status none pos_t servers start e = absurd (cc)
  run_with-AfterRun s turns status (some limiter) pos_t servers start e =
      let sys = initial setup s limiter status in
      let r = schedule_checks setup turns sys in
      let h : Inv (length setup.template) r.0 =
        schedule_checks-Inv setup (length setup.template) pos_t turns sys (start limiter refl) in
      let kept : IsKept (slots_of s) s.max_pool_size (length s.server_ips) r.0 =
        schedule_checks-IsKept setup (slots_of s) s.max_pool_size (length s.server_ips)
          (length setup.template) pos_t turns sys (start limiter refl)
          (record {
            slots = refl;
            pool_size = unfold new_server_pool in refl;
            servers = servers;
          }) in
      subst (λ (p : System × Bool). AfterRun s p) (some-injective e)
        (
          limiter-Inv setup (length setup.template) r.0 (stop_refiller r.0.limiter)
              (stop_refiller-IsBucket r.0.limiter h.bucket) h,
          record { slots = kept.slots; pool_size = kept.pool_size; servers = kept.servers },
          schedule_checks-drained turns sys,
        )

dnsanitize-AfterRun :
    (fl : Floats) (setup : Setup) (s : Settings) (turns : List Turn) (io : IoFiles) (now : ℕ)
    {r : System × Bool}
    → IsSetup fl setup s
    → dnsanitize fl setup s turns (fresh_status io now setup s) ≡ some r
    → AfterRun setup s r
unfolding dnsanitize
dnsanitize-AfterRun fl setup s turns io now ok e =
    run_with-AfterRun setup s turns (fresh_status io now setup s)
      (new_rate_limiter fl s.glob_rate_limit (pos second)) ok.some_check
      (unfold new_status_reporter in refl)
      (λ limiter q.
        initial-Inv io now setup s limiter
          ((new_rate_limiter-IsBucket fl s.glob_rate_limit (pos second) ok.small_bucket q).0))
      e

-- With a bucket that fits 63 bits and a template of at least one check, the invariant holds after any
-- turns of a run of `DNSanitize`, however the network answers and the goroutines interleave: the
-- pending checks, jobs and completed checks of a server in the pool are together as many as the template has,
-- the workers fit the slots of
-- `JobLimiter`, `inFlight` counts the jobs of each server, the tokens stay within the bucket, and the
-- counters of the status add up with the work that is left.
pub dnsanitize-Inv :
    (fl : Floats) (setup : Setup) (s : Settings) (turns : List Turn) (io : IoFiles) (now : ℕ)
    {sys : System} {done : Bool}
    → IsSetup fl setup s
    → dnsanitize fl setup s turns (fresh_status io now setup s) ≡ some (sys, done)
    → Inv (length setup.template) sys
dnsanitize-Inv fl setup s turns io now ok e = (dnsanitize-AfterRun fl setup s turns io now ok e).0

-- With a bucket that fits 63 bits and a template of at least one check, after any turns of a run of
-- `DNSanitize` the workers that hold a slot are at most `max_threads` and at most one for each check of
-- each server, the pool holds at most `max_pool_size` servers, and each server of the list is valid,
-- invalid, in the pool or in the queue.
pub dnsanitize-limits :
    (fl : Floats) (setup : Setup) (s : Settings) (turns : List Turn) (io : IoFiles) (now : ℕ)
    {sys : System} {done : Bool}
    → IsSetup fl setup s
    → dnsanitize fl setup s turns (fresh_status io now setup s) ≡ some (sys, done)
    → (length sys.running + sys.releasing ≤ s.max_threads)
      × (length sys.running + sys.releasing ≤ length s.server_ips * length setup.template)
      × (len sys.pool ≤ s.max_pool_size)
      × (sys.status.valid_servers + sys.status.invalid_servers + len sys.pool + num_pending sys.pool
          ≡ length s.server_ips)
dnsanitize-limits fl setup s turns io now ok e =
    let (h, kept, drained) = dnsanitize-AfterRun fl setup s turns io now ok e in
    (
      omega (arith, h.pipeline.slots, h.pipeline.room, kept.slots),
      omega (arith, h.pipeline.slots, h.pipeline.room, kept.slots),
      omega (arith, h.pool_ok.in_size, kept.pool_size),
      h.accounted.servers_left ∙ kept.servers,
    )

-- With a bucket that fits 63 bits and a template of at least one check, where the loop of `DNSanitize`
-- has ended, the done checks equal the total, the valid and the invalid servers together are the servers
-- of the list, and the status is finished.
pub dnsanitize-finished :
    (fl : Floats) (setup : Setup) (s : Settings) (turns : List Turn) (io : IoFiles) (now : ℕ)
    {sys : System}
    → IsSetup fl setup s
    → dnsanitize fl setup s turns (fresh_status io now setup s) ≡ some (sys, true)
    → (sys.status.total_checks ≡ sys.status.done_checks)
      × (sys.status.valid_servers + sys.status.invalid_servers ≡ length s.server_ips)
      × (is_finished sys.status ≡ true)
unfolding is_finished
dnsanitize-finished fl setup s turns io now {sys} ok e =
    let (h, kept, drained) = dnsanitize-AfterRun fl setup s turns io now ok e in
    let (checks, all) = drained-counts (length setup.template) _ h (drained refl) in
    (
      checks,
      (==_iff (sys.status.valid_servers + sys.status.invalid_servers) sys.status.total_servers).0
            all
          ∙ kept.servers,
      all,
    )
