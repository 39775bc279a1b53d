-- ===== src/Main.antt =====
-- main.go: the validation of the template with the trusted servers, then the run on the servers of the list.
-- `F` is the type `float64`. `status.Stop` only writes to the terminal and is modelled in
-- Report/Redraw/Stopping, not here; where both options ask for it, the standard error stands twice, as the
-- file of each.
pub mod Starts
pub mod Ends
use dnsanity.Common.{
  ℕ, suc, ◌+◌, Bool, true, false, List, [], ◌∷◌, ◌++◌, Option, none, some, length, ltb, ◌==◌,
  if◌then◌else◌, Result, ok, fail,
}
use dnsanity.Common.Int.{ℤ, pos, negsuc}
use dnsanity.Text.{Bytes, codes}
use dnsanity.Dns.Records.{Counts}
use dnsanity.Dns.Template.{Template}
use dnsanity.Report.Dump.{decimal, esc}
use dnsanity.Report.Status.{File, IoFiles, StatusReporter}
use dnsanity.Dnsanitize.RateLimiter.{Floats}
use dnsanity.Dnsanitize.System.{System, Setup, Turn}
use dnsanity.Dnsanitize.Scheduler.{Settings, dnsanitize}
use dnsanity.Dnsanitize.Conservation.{fresh_status}
use dnsanity.Config.Options.{Options}
use dnsanity.Config.Init.{Env, Config, InitError, init}

-- What `main` meets outside the program: the libraries of `Setup` and `Floats`, the interval between two
-- queries of a server at a rate, a percentage with one digit behind the point, the terminals, and the
-- times at which the two runs start
pub record World (F : Type 0) : Type 0 where
  pub floats : Floats
  pub rcode_to_string : ℕ → Bytes
  pub strip_ansi : Bytes → Bytes
  pub order : Counts → Counts
  pub req_interval : F → ℕ
  pub percent : ℕ → ℕ → Bytes
  pub has_tty : Bool
  pub output_is_tty : Bool
  pub stderr_is_tty : Bool
  pub start_1 : ℕ
  pub start_2 : ℕ

-- The end of a run: `none` is a panic; a run that has not ended has the status that it has reached.
abbrev pub Reached : Type 0
Reached = Option (System × Bool)

-- A run in which an index was out of range has panicked there.
abbrev pub alive : Reached → Reached
alive none = none
alive (some (sys, done)) = if sys.crashed then none else some (sys, done)

-- How the program ends
pub data Ending : Type 0 where
  refused : InitError → Ending
  panicked unfinished : Ending
  exited : ℕ → Ending

-- The ending, what `main` itself writes to the standard error, and the status of the second run
pub record Outcome : Type 0 where
  pub ending : Ending
  pub messages : Bytes
  pub report : Option StatusReporter

abbrev newline : Bytes
newline = 10 ∷ []

abbrev new_file : Bool → Bool → File
new_file is_tty is_buffer = record { is_tty = is_tty; is_buffer = is_buffer; content = [] }

-- A pool whose size is negative, as a product that wraps may be, is never full; nor is one of this size,
-- which the debug block would show.
abbrev pub pool_limit : ℤ → List Bytes → ℕ
pool_limit (pos n) ips = n
pool_limit (negsuc n) ips = suc (length ips)

abbrev pub content_of : Option File → Bytes
content_of none = []
content_of (some file) = file.content

module _ {F : Type 0} where
  -- The interval is 0 for a rate of 0, and also where the quotient does not fit a `Duration` and the program
  -- has a negative one: with either the next query of a server need not wait.
  abbrev pub setup_for : World F → Template → F → ℤ → Setup
  setup_for w template rate max_failures = record {
    rcode_to_string = w.rcode_to_string;
    strip_ansi = w.strip_ansi;
    order = w.order;
    template = template;
    srv_req_interval = w.req_interval rate;
    srv_max_failures = max_failures;
  }

  abbrev pub settings_for : Options F → ℕ → List Bytes → ℤ → Settings
  settings_for opts max_threads ips attempts = record {
    server_ips = ips;
    max_threads = max_threads;
    max_pool_size = pool_limit opts.max_pool_size ips;
    glob_rate_limit = opts.glob_rate_limit;
    per_check_max_attempts = attempts;
  }

  -- `NewStatusReporter`, then `DNSanitize`, which panics where the capacity of a channel is negative, the rate
  -- limiter cannot be made, or an index is out of range
  unfoldable pub start_run :
      World F → Setup → Options F → ℤ → List Bytes → ℤ → IoFiles → ℕ → List Turn → Reached
  unfolding dnsanitize
  start_run w setup opts (pos n) ips attempts io now turns =
      let s = settings_for opts n ips attempts in
      alive (dnsanitize w.floats setup s turns (fresh_status io now setup s))
  start_run w setup opts (negsuc n) ips attempts io now turns = none

  -- `validateTemplate` up to its test: a threshold above the number of checks, and a buffer
  unfoldable pub validation : World F → Config F → List Turn → Reached
  unfolding start_run
  validation w conf turns =
      start_run w
        (setup_for w conf.template conf.opts.trusted_rate_limit (pos (length conf.template + 1)))
        conf.opts conf.opts.threads conf.trusted_list conf.opts.trusted_attempts
        (record {
          has_tty = w.has_tty;
          output_file = none;
          verbose_file = some (new_file false true);
          debug_file = none;
        })
        w.start_1 turns

  -- `sanitizeServers` up to its report
  unfoldable pub sanitization : World F → Config F → List Turn → Reached
  unfolding start_run
  sanitization w conf turns =
      start_run w (setup_for w conf.template conf.opts.rate_limit conf.opts.max_mismatches)
        conf.opts conf.opts.threads conf.untrusted_list conf.opts.attempts
        (record {
          has_tty = w.has_tty;
          output_file = some (new_file w.output_is_tty false);
          verbose_file = if conf.opts.verbose then some (new_file w.stderr_is_tty false) else none;
          debug_file = if conf.opts.debug then some (new_file w.stderr_is_tty false) else none;
        })
        w.start_2 turns

  -- The message of a validation that fails
  pub failure_message : World F → Config F → StatusReporter → Bytes
  failure_message w conf status =
      let text =
        content_of status.io.verbose_file
        ++ newline
        ++ esc (codes "1;31m[-] Template validation error: (")
        ++ decimal status.servers_with_failures
        ++ codes "/"
        ++ decimal (length conf.trusted_list)
        ++ codes " trusted servers failed)"
        ++ newline
        ++ codes "[-] Possible reasons:"
        ++ newline
        ++ codes "    - Unreliable internet connection"
        ++ newline
        ++ codes "    - Outdated template entries"
        ++ newline
        ++ codes "    - Trusted servers not so trustworthy"
        ++ newline
        ++ esc (codes "0m") in
      if w.stderr_is_tty then text else w.strip_ansi text

  -- `reportStr`
  abbrev pub report_str : World F → StatusReporter → Bytes
  report_str w status =
      codes "[*] Valid servers: "
      ++ decimal status.valid_servers
      ++ codes "/"
      ++ decimal status.total_servers
      ++ codes " ("
      ++ (if ltb 0 status.total_servers
          then w.percent status.valid_servers status.total_servers
          else codes "0.0")
      ++ codes "%)"

  pub final_message : World F → StatusReporter → Bytes
  final_message w status = if w.stderr_is_tty then [] else newline ++ report_str w status ++ newline

  abbrev pub after_sanitization : World F → Reached → Outcome
  unfolding final_message
  after_sanitization w none = record { ending = panicked; messages = []; report = none }
  after_sanitization w (some (sys, false)) = record {
    ending = unfinished;
    messages = [];
    report = some sys.status;
  }
  after_sanitization w (some (sys, true)) = record {
    ending = exited 0;
    messages = final_message w sys.status;
    report = some sys.status;
  }

  -- The test of `validateTemplate`, and what `main` makes of it
  abbrev pub after_validation : World F → Config F → List Turn → Reached → Outcome
  unfolding failure_message sanitization final_message
  after_validation w conf turns none = record { ending = panicked; messages = []; report = none }
  after_validation w conf turns (some (sys, false)) = record {
    ending = unfinished;
    messages = [];
    report = none;
  }
  after_validation w conf turns (some (sys, true)) =
      if ltb 0 sys.status.servers_with_failures
      then record { ending = exited 3; messages = failure_message w conf sys.status; report = none }
      else after_sanitization w (sanitization w conf turns)

  abbrev pub after_init : World F → List Turn → List Turn → Result InitError (Config F) → Outcome
  unfolding failure_message validation final_message sanitization
  after_init w turns_1 turns_2 (fail e) = record {
    ending = refused e;
    messages = [];
    report = none;
  }
  after_init w turns_1 turns_2 (ok conf) =
      after_validation w conf turns_2 (validation w conf turns_1)

  -- `main`, on the options given and as many turns of the two runs as are given
  unfoldable pub main : World F → Env F → Options F → List Turn → List Turn → Outcome
  unfolding init validation sanitization failure_message final_message
  main w env opts turns_1 turns_2 = after_init w turns_1 turns_2 (init env opts).result
