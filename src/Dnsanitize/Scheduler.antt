-- ===== src/Dnsanitize/Scheduler.antt =====
-- internal/dnsanitize/dnsanitize.go: the loop of `scheduleChecks`, turn by turn, and `DNSanitize`.
use dnsanity.Common.{
  ℕ, ◌*◌, Bool, true, false, ◌&&◌, List, [], ◌∷◌, ◌++◌, Option, none, some, length, min, ltb, ◌==◌,
  if◌then◌else◌,
}
use dnsanity.Common.Int.{ℤ, pos, ◌-ℤ◌}
use dnsanity.Text.{Bytes, codes}
use dnsanity.Dnsanitize.Pool.{ServerPool, len, is_drained, can_grow, load_n, new_server_pool}
use dnsanity.Dnsanitize.RateLimiter.{
  RateLimiter, Floats, new_rate_limiter, stop_refiller, remaining,
}
use dnsanity.Report.Dump.{decimal}
use dnsanity.Report.Status.{StatusReporter, update_pool_size, update_busy_jobs, log_requests, debug}
use dnsanity.Dnsanitize.System.{System, Tally, Setup, Turn, happen_all}
use dnsanity.Report.Metrics.{second}
use dnsanity.Dnsanitize.Collect.{collect_loop}
use dnsanity.Dnsanitize.Dispatch.{schedule_passes}

module _ (setup : Setup) where
  -- What is told of the turn's new requests
  unfoldable pub notify : ℕ → System × Tally → System
  notify now (sys, t) =
      if ltb 0 t.num_scheduled
      then record sys {
        status = update_busy_jobs t.busy_jobs (log_requests now t.num_idle t.num_busy sys.status);
      }
      else sys

  -- The new system and `poolGrowth`
  abbrev pub grown : ServerPool × ℕ → System → System × ℕ
  grown (pool, growth) sys =
      if ltb 0 growth
      then (
        record sys {
          pool = pool;
          status =
              debug setup.strip_ansi
                (codes "expand pool by "
                  ++ (decimal growth ++ (codes ". newsz=" ++ decimal (len pool))))
                (update_pool_size (len pool) sys.status);
        },
        growth,
      )
      else (record sys { pool = pool }, growth)

  abbrev pub load_up_to : ℤ → System → System × ℕ
  load_up_to (pos n) sys =
      let to_load = min (remaining sys.limiter) n in
      if ltb 0 to_load then grown (load_n to_load sys.pool) sys else (sys, 0)
  load_up_to _ sys = (sys, 0)

  unfoldable pub grow : Bool → ℤ → System → System × ℕ
  grow pool_can_grow free_jobs sys = if pool_can_grow then load_up_to free_jobs sys else (sys, 0)

  abbrev pub idle_wait : ℕ → System × ℕ → System
  idle_wait num_scheduled (sys, growth) =
      if num_scheduled == 0 && growth == 0
      then record sys { status = update_pool_size (len sys.pool) sys.status }
      else sys

  abbrev pub fresh_tally : System → Tally
  fresh_tally sys = record {
    num_scheduled = 0;
    num_idle = 0;
    num_busy = 0;
    busy_jobs = sys.busy;
    free_jobs = pos sys.capacity -ℤ pos sys.busy;
  }

  -- A turn after its scheduling: whether the loop ends, and the growth of the pool if it does not
  unfoldable pub finish_turn : Turn → Bool → System × Tally → System × Bool
  finish_turn turn pool_can_grow (sys, t) =
      let told = notify turn.now (sys, t) in
      elim (is_drained told.pool) [
        | true ↦ (told, true)
        | false ↦ (
          idle_wait t.num_scheduled
              (grow pool_can_grow t.free_jobs (happen_all setup turn.before_growth told)),
          false,
        )
      ]

  -- One turn of the loop of `scheduleChecks`; `true` where it breaks.
  unfoldable pub take_turn : Turn → System → System × Bool
  unfolding collect_loop schedule_passes finish_turn notify happen_all grow can_grow is_drained
      load_n
  take_turn turn sys =
      let collected = collect_loop setup turn.before_receives sys in
      let ready = happen_all setup turn.before_scheduling collected in
      let pool_can_grow = can_grow ready.pool in
      finish_turn turn pool_can_grow
        (schedule_passes setup turn pool_can_grow (ready, fresh_tally ready))

  -- `scheduleChecks` for as many turns as are given; `true` where the loop has ended.
  unfoldable pub schedule_checks : List Turn → System → System × Bool
  unfolding take_turn
  schedule_checks [] sys = (sys, false)
  schedule_checks (turn ∷ turns) sys = elim ((take_turn turn sys).1) [
    | true ↦ take_turn turn sys
    | false ↦ schedule_checks turns (take_turn turn sys).0
  ]

-- The fields of `config.Settings` that `DNSanitize` reads; `req_interval` is `srvReqInterval`, computed
-- in `float64` from the rate of a server.
pub record Settings : Type 0 where
  pub server_ips : List Bytes
  pub max_threads : ℕ
  pub max_pool_size : ℕ
  pub glob_rate_limit : ℤ
  pub per_check_max_attempts : ℤ

-- The system with which `DNSanitize` enters the loop
abbrev pub initial : Setup → Settings → RateLimiter → StatusReporter → System
initial setup s limiter status = record {
  pool = new_server_pool s.max_pool_size s.server_ips setup.template s.per_check_max_attempts;
  in_flight = [];
  running = [];
  releasing = 0;
  results = [];
  busy = 0;
  capacity = min s.max_threads (length s.server_ips * length setup.template);
  limiter = limiter;
  status = status;
  crashed = false;
}

-- The loop, then the limiter stopped
abbrev finish_run : System × Bool → System × Bool
finish_run (sys, done) = (record sys { limiter = stop_refiller sys.limiter }, done)

abbrev pub run_with :
    Setup → Settings → List Turn → StatusReporter → Option RateLimiter → Option (System × Bool)
run_with setup s turns status none = none
run_with setup s turns status (some limiter) =
    some (finish_run (schedule_checks setup turns (initial setup s limiter status)))

-- `DNSanitize`; `none` is the panic of `NewRateLimiter`.
unfoldable pub dnsanitize :
    Floats → Setup → Settings → List Turn → StatusReporter → Option (System × Bool)
unfolding new_rate_limiter stop_refiller schedule_checks new_server_pool
dnsanitize fl setup s turns status =
    run_with setup s turns status (new_rate_limiter fl s.glob_rate_limit (pos second))
