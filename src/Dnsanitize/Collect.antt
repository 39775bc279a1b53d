-- ===== src/Dnsanitize/Collect.antt =====
-- internal/dnsanitize/dnsanitize.go: `applyResults`, and `collectLoop` of `scheduleChecks`.
use dnsanity.Common.{
  ℕ, zero, suc, ◌+◌, ◌-◌, true, not, ◌&&◌, List, [], ◌∷◌, Option, none, some, length, ltb,
  if◌then◌else◌, get_elem?, set,
}
use dnsanity.Common.Int.{ℤ, pos, ◌-ℤ◌, ltb_ℤ, leb_ℤ}
use dnsanity.Dns.Answer.{is_worth_retrying}
use dnsanity.Dns.Server.{CheckContext, ServerContext, finished}
use dnsanity.Dnsanitize.Slots.{find, put, delete}
use dnsanity.Dnsanitize.Pool.{get, unload}
use dnsanity.Report.Status.{StatusReporter, add_done_checks, report_finished_server}
use dnsanity.Dnsanitize.System.{
  WorkerResult, System, Event, Setup, in_flight_of, crash_if, happen_all,
}

-- Where a result is a failure with no retry left: the counters, and the threshold
abbrev pub count_failure : ℤ → ServerContext → StatusReporter → ServerContext × StatusReporter
count_failure srv_max_failures srv status =
    let srv' = record srv {
      completed_count = srv.completed_count + 1;
      failed_count = srv.failed_count + 1;
    } in
    if leb_ℤ srv_max_failures (pos srv'.failed_count)
    then (
      record srv' { disabled = true; cancelled = true },
      add_done_checks (pos 1) (pos 0 -ℤ (pos (length srv'.checks) -ℤ pos srv'.completed_count))
          status,
    )
    else (srv', add_done_checks (pos 1) (pos 0) status)

-- `applyResults` on the check `chk` of its index
unfoldable pub apply_to :
    CheckContext
    → ServerContext
    → WorkerResult
    → ℤ
    → StatusReporter
    → ServerContext × StatusReporter
apply_to chk srv res srv_max_failures status =
    let left = chk.attempts_left -ℤ pos 1 in
    let chk' = record chk { attempts_left = left; answer = res.answer } in
    let srv' = record srv { checks = set srv.checks res.check_id chk' } in
    if res.passed
    then (
      record srv {
        checks = set srv.checks res.check_id (record chk' { passed = true });
        completed_count = srv.completed_count + 1;
      },
      add_done_checks (pos 1) (pos 0) status,
    )
    else if ltb_ℤ (pos 0) left && is_worth_retrying (some res.answer)
    then (
      record srv' { pending_checks = res.check_id ∷ srv.pending_checks },
      add_done_checks (pos 1) (pos 1) status,
    )
    else count_failure srv_max_failures srv' status

abbrev pub apply_at :
    Option CheckContext
    → ServerContext
    → WorkerResult
    → ℤ
    → StatusReporter
    → ServerContext × StatusReporter
apply_at none srv res srv_max_failures status = (srv, status)
apply_at (some chk) srv res srv_max_failures status = apply_to chk srv res srv_max_failures status

-- `applyResults`. Its panic, where the index is out of range, is left to `deliver`, which calls it.
unfoldable pub apply_results :
    ServerContext → WorkerResult → ℤ → StatusReporter → ServerContext × StatusReporter
unfolding apply_to
apply_results srv res srv_max_failures status =
    apply_at (get_elem? srv.checks res.check_id) srv res srv_max_failures status

-- `if n := inFlight[res.SrvID]; n > 1 { … } else { delete(…) }`
abbrev pub land : ℕ → List (ℕ × ℕ) → List (ℕ × ℕ)
land srv_id m =
    let n = in_flight_of srv_id m in if ltb 1 n then put srv_id (n - 1) m else delete srv_id m

module _ (setup : Setup) where
  -- The server after its result: reported and dropped if it is finished.
  abbrev pub settle : ℕ → ServerContext × StatusReporter → System → System
  settle srv_id (srv, status) sys =
      if finished srv
      then record sys {
        pool = unload sys.pool srv_id;
        status = report_finished_server setup.strip_ansi srv status;
      }
      else record sys {
        pool = record (sys.pool) { pool = put srv_id srv sys.pool.pool };
        status = status;
      }

  -- `applyResults` panics where its index is out of range.
  abbrev pub deliver : Option ServerContext → WorkerResult → System → System
  deliver none res sys = sys
  deliver (some srv) res sys =
      settle res.srv_id (apply_results srv res setup.srv_max_failures sys.status)
        (crash_if (not (ltb res.check_id (length srv.checks))) sys)

  -- The body of `case res := <-sched.Results`
  unfoldable pub collect_one : WorkerResult → System → System
  unfolding in_flight_of find put delete get unload finished
  collect_one res sys =
      deliver (get sys.pool res.srv_id) res
        (record sys { in_flight = land res.srv_id sys.in_flight })

  -- Receives until the channel is empty, with no event in between
  unfoldable pub drain : ℕ → System → System
  unfolding collect_one
  drain zero sys = sys
  drain (suc n) sys = elim sys.results [
    | [] ↦ sys
    | res ∷ rest ↦ drain n (collect_one res (record sys { results = rest }))
  ]

  -- `collectLoop`
  unfoldable pub collect_loop : List (List Event) → System → System
  unfolding drain collect_one happen_all
  collect_loop [] sys = drain (length sys.results) sys
  collect_loop (es ∷ more) sys = elim ((happen_all setup es sys).results) [
    | [] ↦ happen_all setup es sys
    | res ∷ rest ↦
        collect_loop more (collect_one res (record (happen_all setup es sys) { results = rest }))
  ]
