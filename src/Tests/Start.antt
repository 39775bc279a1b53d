-- ===== src/Tests/Start.antt =====
-- The options, and the whole program on one trusted server, one server and one check.
use dnsanity.Common.{ℕ, ◌≡◌, ◌≢◌, ◌↔◌, refl, true, false, List, [], ◌∷◌, some, arith, ok, fail}
use dnsanity.Common.Int.{pos, pos_part}
use dnsanity.Text.{Bytes, codes, contains}
use dnsanity.Text.Lines.{Input}
use dnsanity.Dns.Template.{Template, entry_matches}
use dnsanity.Dns.Resolver.{resolve_dns}
use dnsanity.Dns.Server.{ServerContext, new_server_context}
use dnsanity.Report.Metrics.{second}
use dnsanity.Report.Status.{
  report_finished_server, count_server, add_done_checks, update_busy_jobs, log_requests, debug,
  update_pool_size, new_status_reporter,
}
use dnsanity.Config.Options.{Options, default_options}
use dnsanity.Config.ServerList.{no_file}
use dnsanity.Config.Init.{
  Env, Config, global_ratelimit, stdout, created, check_limits, open_file, init,
}
use dnsanity.Config.Init.Laws.{Accepted, init_iff, init-touched, IsLimited, check_limits-IsLimited}
use dnsanity.Dnsanitize.Slots.{find}
use dnsanity.Dnsanitize.RateLimiter.{Floats, remaining}
use dnsanity.Dnsanitize.Collect.{apply_results}
use dnsanity.Dnsanitize.System.{System, Setup}
use dnsanity.Dnsanitize.Scheduler.{dnsanitize}
use dnsanity.Dnsanitize.Conservation.{IsSetup, fresh_status}
use dnsanity.Dnsanitize.Trusted.Runs.{dnsanitize-drops_none}
use dnsanity.Main.{World, panicked, exited, main}
use dnsanity.Main.Starts.{IsExact, main-no_panic}
use dnsanity.Main.Ends.{Succeeded, main-Succeeded}
use dnsanity.Tests.Lists.{dotted}
use dnsanity.Tests.Run.{
  exact, small, one_entry, settings, no_files, two_turns, three_turns, system_or, start_system,
}

abbrev one_check : Input
one_check = record { content = codes "a.co A=1.1.1.*"; broken = false }

abbrev env : Env ℕ
env = record {
  is_ip = dotted;
  template_file = λ path. some one_check;
  first_lookup = λ text. no_file;
  second_lookup = λ text. no_file;
  stdin_is_tty = false;
  can_open = λ path. true;
  is_negative = λ rate. false;
}

abbrev opts : Options ℕ
opts = record (default_options 2 10) {
  untrusted_dns = codes "9.9.9.9";
  trusted_dns = codes "8.8.8.8";
  template = codes "t.txt";
}

abbrev conf : Config ℕ
conf = record {
  opts = record opts { threads = pos 10000; max_pool_size = pos 10000 };
  trusted_list = codes "8.8.8.8" ∷ [];
  untrusted_list = codes "9.9.9.9" ∷ [];
  template = one_entry;
  output = stdout;
}

starts : (init env opts).result ≡ ok conf
unfolding init contains
starts = refl

init_iff_example : ((init env opts).result ≡ ok conf) ↔ (
    Accepted env opts conf.template conf.trusted_list conf.untrusted_list
    × (open_file env.can_open opts.output_file_path ≡ some conf.output)
    × (check_limits opts ≡ ok conf.opts))
init_iff_example = init_iff env opts conf

opts-Accepted : Accepted env opts one_entry (codes "8.8.8.8" ∷ []) (codes "9.9.9.9" ∷ [])
opts-Accepted = ((init_iff env opts conf).0 starts).0

-- A file as output, and a global rate that is refused
abbrev no_rate : Options ℕ
no_rate = record opts { glob_rate_limit = pos 0; output_file_path = codes "o.txt" }

-- The file is created or truncated, and the run is refused.
no_rate_refused :
    init env no_rate ≡ record { touched = some (codes "o.txt"); result = fail global_ratelimit }
unfolding init contains
no_rate_refused = refl

init-touched_example : ((init env no_rate).touched ≡ some (codes "o.txt")) ↔ (
    ((template : Template) × (trusted : List Bytes) × (untrusted : List Bytes) × Accepted env
        no_rate template trusted untrusted)
    × (open_file env.can_open no_rate.output_file_path ≡ some (created (codes "o.txt"))))
init-touched_example = init-touched env no_rate (codes "o.txt")

limits : check_limits opts ≡ ok conf.opts
unfolding check_limits
limits = refl

check_limits-IsLimited_example :
    IsLimited conf.opts
    × (conf.opts
        ≡ record opts { threads = conf.opts.threads; max_pool_size = conf.opts.max_pool_size })
check_limits-IsLimited_example = check_limits-IsLimited opts conf.opts 500 refl (omega arith) limits

abbrev floats : Floats
floats = record { tokens_of = λ rate burst. pos_part rate; interval_of = λ amount rate. pos second }

floats-IsExact : IsExact floats
floats-IsExact = record { tokens = λ g small. refl; interval = λ g some_g small. refl }

abbrev world : World ℕ
world = record {
  floats = floats;
  rcode_to_string = λ n. codes "NXDOMAIN";
  strip_ansi = λ s. s;
  order = λ m. m;
  req_interval = λ rate. 5;
  percent = λ valid total. codes "100.0";
  has_tty = false;
  output_is_tty = false;
  stderr_is_tty = true;
  start_1 = 0;
  start_2 = 0;
}

main-no_panic_example : (main world env opts two_turns three_turns).ending ≢ panicked
main-no_panic_example =
    main-no_panic world 500 floats-IsExact (omega arith) env opts two_turns three_turns refl

succeeds : (main world env opts three_turns three_turns).ending ≡ exited 0
unfolding main contains dnsanitize remaining new_server_context apply_results entry_matches
    resolve_dns report_finished_server count_server add_done_checks update_busy_jobs log_requests
    debug update_pool_size new_status_reporter
succeeds = refl

main-Succeeded_example :
    (c : Config ℕ) × ((init env opts).result ≡ ok c)
    × Succeeded world c three_turns three_turns (main world env opts three_turns three_turns).report
main-Succeeded_example =
    main-Succeeded world 500 floats-IsExact (omega arith) env opts three_turns three_turns refl
      succeeds

abbrev trusting : Setup
trusting = record small { srv_max_failures = pos 2 }

trusting_ok : IsSetup exact trusting settings
trusting_ok = record { small_bucket = omega arith; some_check = omega arith }

abbrev trusted_system : System
trusted_system =
    system_or start_system
      (dnsanitize exact trusting settings three_turns (fresh_status no_files 0 trusting settings))

trusted_run :
    dnsanitize exact trusting settings three_turns (fresh_status no_files 0 trusting settings)
    ≡ some (trusted_system, true)
unfolding dnsanitize remaining new_server_context apply_results entry_matches resolve_dns
trusted_run = refl

dnsanitize-drops_none_example :
    (trusted_system.status.invalid_servers ≡ 0)
    × ((k : ℕ) (srv : ServerContext)
        → find k trusted_system.pool.pool ≡ some srv
        → srv.disabled ≡ false)
    × (true ≡ true → trusted_system.status.valid_servers ≡ 1)
dnsanitize-drops_none_example =
    dnsanitize-drops_none exact trusting settings three_turns no_files 0 2 trusting_ok refl
      (omega arith) trusted_run
