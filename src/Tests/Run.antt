-- ===== src/Tests/Run.antt =====
-- A run of `DNSanitize` on one server and one check, turn by turn.
use dnsanity.Common.{
  ◌+◌, ◌≤◌, length, ℕ, ◌≡◌, refl, Bool, true, false, List, [], ◌∷◌, Option, none, some, arith,
  Result, ok,
}
use dnsanity.Common.Int.{pos}
use dnsanity.Text.{codes}
use dnsanity.Dns.Answer.{noerror}
use dnsanity.Dns.Template.{TemplateEntry, Template, entry_matches}
use dnsanity.Dns.Resolver.{address, Response, NetError, resolve_dns}
use dnsanity.Dns.Server.{new_server_context}
use dnsanity.Dnsanitize.Pool.{load_n, len, num_pending}
use dnsanity.Dnsanitize.RateLimiter.{RateLimiter, Floats, remaining}
use dnsanity.Report.Status.{
  IoFiles, is_finished, report_finished_server, count_server, add_done_checks, update_busy_jobs,
  log_requests, debug, update_pool_size, new_status_reporter,
}
use dnsanity.Dnsanitize.System.{
  System, Setup, Turn, Event, answered, released, refilled, WorkerResult, worker_result, happen_all,
}
use dnsanity.Dnsanitize.Collect.{collect_one, apply_results}
use dnsanity.Dnsanitize.Dispatch.{schedule_passes}
use dnsanity.Dnsanitize.Scheduler.{schedule_checks, Settings, initial, dnsanitize, fresh_tally}
use dnsanity.Dnsanitize.Invariant.{Inv}
use dnsanity.Dnsanitize.Invariant.Events.{happen_all-Inv}
use dnsanity.Dnsanitize.Invariant.Collected.{collect_one-Inv}
use dnsanity.Dnsanitize.Invariant.Dispatched.{schedule_passes-Inv}
use dnsanity.Dnsanitize.Slots.{find}
use dnsanity.Dnsanitize.Once.{Once}
use dnsanity.Dnsanitize.Once.Counts.{AllLocated}
use dnsanity.Dnsanitize.Once.Loads.{IsLoaded, load_n-IsLoaded}
use dnsanity.Dnsanitize.Once.Runs.{dnsanitize-AllLocated}
use dnsanity.Dnsanitize.Waiting.{HasRoom}
use dnsanity.Dnsanitize.Waiting.Ends.{schedule_checks-HasRoom}
use dnsanity.Dnsanitize.Conservation.{
  IsSetup, fresh_status, dnsanitize-Inv, dnsanitize-limits, dnsanitize-finished,
}

abbrev pub exact : Floats
exact = record { tokens_of = λ rate burst. 4; interval_of = λ amount rate. pos 1000000000 }

abbrev first_entry : TemplateEntry
first_entry = record {
  domain = codes "a.co";
  valid_answers = record { status = noerror; a = codes "1.1.1.*" ∷ []; cname = [] } ∷ [];
}

abbrev pub one_entry : Template
one_entry = first_entry ∷ []

abbrev pub small : Setup
small = record {
  rcode_to_string = λ n. codes "NXDOMAIN";
  strip_ansi = λ s. s;
  order = λ m. m;
  template = one_entry;
  srv_req_interval = 5;
  srv_max_failures = pos 1;
}

abbrev pub settings : Settings
settings = record {
  server_ips = codes "9.9.9.9" ∷ [];
  max_threads = 2;
  max_pool_size = 3;
  glob_rate_limit = pos 4;
  per_check_max_attempts = pos 2;
}

abbrev pub no_files : IoFiles
no_files = record { has_tty = false; output_file = none; verbose_file = none; debug_file = none }

abbrev quiet_turn : ℕ → List (List Event) → Turn
quiet_turn now before_receives = record {
  now = now;
  before_receives = before_receives;
  before_scheduling = [];
  first_pass = (0, []) ∷ [];
  second_pass = [];
  before_growth = refilled ∷ [];
}

abbrev good_outcome : Result NetError Response
good_outcome =
    ok (record { rcode = 0; answers = address (codes "1.1.1.7") ∷ []; truncated = false })

abbrev good_answer : Event
good_answer = answered 0 good_outcome

-- The server is loaded, then asked, then its answer is collected.
abbrev pub three_turns : List Turn
three_turns =
    quiet_turn 1 [] ∷ quiet_turn 2 [] ∷ quiet_turn 9 ((good_answer ∷ released ∷ []) ∷ [] ∷ []) ∷ []

abbrev run : List Turn → Option (System × Bool)
run turns = dnsanitize exact small settings turns (fresh_status no_files 0 small settings)

abbrev pub system_or : System → Option (System × Bool) → System
system_or sys none = sys
system_or sys (some r) = r.0

abbrev flag_of : Option (System × Bool) → Bool
flag_of none = false
flag_of (some r) = r.1

pub small_ok : IsSetup exact small settings
small_ok = record { small_bucket = omega arith; some_check = omega arith }

abbrev full : RateLimiter
full = record {
  tokens = 4;
  max_tokens = 4;
  refill_amount = 4;
  refill_interval = pos 1000000000;
  stopped = false;
}

abbrev pub start_system : System
start_system = initial small settings full (fresh_status no_files 0 small settings)

abbrev pub two_turns : List Turn
two_turns = quiet_turn 1 [] ∷ quiet_turn 2 [] ∷ []

-- The systems after no turn, after two turns, with the answer sent, and at the end
abbrev first_system : System
first_system = system_or start_system (run [])

abbrev loaded_system : System
loaded_system = system_or start_system (run (quiet_turn 1 [] ∷ []))

abbrev pub asked_system : System
asked_system = system_or start_system (run two_turns)

abbrev answered_system : System
answered_system = happen_all small (good_answer ∷ released ∷ []) asked_system

abbrev last_system : System
last_system = system_or start_system (run three_turns)

run_first : run [] ≡ some (first_system, false)
unfolding dnsanitize remaining new_server_context apply_results entry_matches resolve_dns
run_first = refl

first_system-Inv : Inv 1 first_system
first_system-Inv = dnsanitize-Inv exact small settings [] no_files 0 small_ok run_first

run_loaded : run (quiet_turn 1 [] ∷ []) ≡ some (loaded_system, false)
unfolding dnsanitize remaining new_server_context apply_results entry_matches resolve_dns
run_loaded = refl

pub run_asked : run two_turns ≡ some (asked_system, false)
unfolding dnsanitize remaining new_server_context apply_results entry_matches resolve_dns
run_asked = refl

run_last : run three_turns ≡ some (last_system, true)
unfolding dnsanitize remaining new_server_context apply_results entry_matches resolve_dns
run_last = refl

-- The one server is valid.
run_valid : last_system.status.valid_servers ≡ 1
unfolding dnsanitize remaining new_server_context apply_results entry_matches resolve_dns
    report_finished_server count_server add_done_checks update_busy_jobs log_requests debug
    update_pool_size new_status_reporter
run_valid = refl

dnsanitize-AllLocated_example : Inv 1 asked_system × AllLocated 1 asked_system
dnsanitize-AllLocated_example =
    dnsanitize-AllLocated exact small settings two_turns no_files 0 small_ok run_asked

dnsanitize-finished_example :
    (last_system.status.total_checks ≡ last_system.status.done_checks)
    × (last_system.status.valid_servers + last_system.status.invalid_servers ≡ 1)
    × (is_finished last_system.status ≡ true)
dnsanitize-finished_example =
    dnsanitize-finished exact small settings three_turns no_files 0 small_ok run_last

dnsanitize-limits_example :
    (length asked_system.running + asked_system.releasing ≤ 2)
    × (length asked_system.running + asked_system.releasing ≤ 1)
    × (len asked_system.pool ≤ 3)
    × (asked_system.status.valid_servers
          + asked_system.status.invalid_servers
          + len asked_system.pool
          + num_pending asked_system.pool
        ≡ 1)
dnsanitize-limits_example =
    dnsanitize-limits exact small settings two_turns no_files 0 small_ok run_asked

asked_system-Inv : Inv 1 asked_system
asked_system-Inv = dnsanitize-Inv exact small settings two_turns no_files 0 small_ok run_asked

happen_all-Inv_example : Inv 1 answered_system
happen_all-Inv_example =
    happen_all-Inv small 1 (good_answer ∷ released ∷ []) asked_system asked_system-Inv

abbrev good_result : WorkerResult
good_result = worker_result small first_entry (record { srv_id = 0; check_id = 0 }) good_outcome

answered_results : answered_system.results ≡ good_result ∷ []
unfolding dnsanitize remaining new_server_context apply_results entry_matches resolve_dns happen_all
answered_results = refl

collect_one-Inv_example :
    Inv 1 (collect_one small good_result (record answered_system { results = [] }))
collect_one-Inv_example =
    collect_one-Inv small 1 good_result [] answered_system answered_results
      (happen_all-Inv small 1 (good_answer ∷ released ∷ []) asked_system asked_system-Inv)

first_system-Once : Once first_system
unfolding dnsanitize find
first_system-Once = record { once = λ k i srv q. absurd (cc) }

load_n-IsLoaded_example :
    IsLoaded 1 first_system (record first_system { pool = (load_n 2 first_system.pool).0 })
load_n-IsLoaded_example =
    load_n-IsLoaded 1 (omega arith) 2 first_system first_system-Inv first_system-Once

schedule_passes-Inv_example :
    Inv 1
      (schedule_passes small
        (quiet_turn 2 [])
        false
        (loaded_system, fresh_tally small loaded_system)).0
schedule_passes-Inv_example =
    schedule_passes-Inv small 1 (quiet_turn 2 []) false
      (loaded_system, fresh_tally small loaded_system)
      (dnsanitize-Inv exact small settings (quiet_turn 1 [] ∷ []) no_files 0 small_ok run_loaded)

ends_again : (schedule_checks small three_turns first_system).1 ≡ true
unfolding dnsanitize remaining new_server_context apply_results entry_matches resolve_dns
ends_again = refl

schedule_checks-HasRoom_example : HasRoom (schedule_checks small three_turns first_system).0
schedule_checks-HasRoom_example =
    schedule_checks-HasRoom small 1 (omega arith) three_turns first_system first_system-Inv
      ends_again
