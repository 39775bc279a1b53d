-- ===== src/Report/Status.antt =====
-- internal/report/status.go: the counters of a run, and what is written to the files. A method holds the
-- reporter's lock from start to end, so it is one step.
pub mod Counters
use dnsanity.Common.{
  ℕ, zero, suc, ◌+◌, ◌*◌, Bool, true, false, not, ◌&&◌, List, [], ◌∷◌, ◌++◌, ltb, ◌==◌,
  if◌then◌else◌, length, Option, none, some,
}
use dnsanity.Common.Int.{ℤ, pos, ◌+ℤ◌}
use dnsanity.Text.{Bytes, codes, has_suffix, str_eq}
use dnsanity.Dns.Template.{Template}
use dnsanity.Dns.Server.{ServerContext}
use dnsanity.Report.Metrics.{MetricGauge, log_sample, RequestsLogger, log_batch}
use dnsanity.Report.Dump.{dump_server, dump_template}

-- An `io.Writer`: whether it is a terminal, whether it is a `bytes.Buffer`, and what was written to it.
pub record File : Type 0 where
  pub is_tty : Bool
  pub is_buffer : Bool
  pub content : Bytes

-- `IOFiles`, with `none` for nil. Of the terminal only its presence matters here.
pub record IoFiles : Type 0 where
  pub has_tty : Bool
  pub output_file : Option File
  pub verbose_file : Option File
  pub debug_file : Option File

-- The fields of `StatusReporter` that its methods below read and write
pub record StatusReporter : Type 0 where
  pub io : IoFiles
  pub cache_str : Bytes
  pub verbose_file_hdr : Bytes
  pub total_servers : ℕ
  pub valid_servers : ℕ
  pub invalid_servers : ℕ
  pub servers_with_failures : ℕ
  pub total_checks : ℤ
  pub done_checks : ℤ
  pub requests : RequestsLogger
  pub pool_size : MetricGauge
  pub busy_jobs : MetricGauge

abbrev gauge : ℕ → MetricGauge
gauge max = record { max = max; current = 0; peak = 0; total_sum = 0; n_samples = 0 }

-- The counters that `NewStatusReporter` sets, from the settings' server list, template, pool size and
-- threads
unfoldable pub new_status_reporter : IoFiles → ℕ → List Bytes → Template → ℕ → ℕ → StatusReporter
unfolding dump_template
new_status_reporter io now server_ips template max_pool_size max_threads = record {
  io = io;
  cache_str = [];
  verbose_file_hdr = dump_template template;
  total_servers = length server_ips;
  valid_servers = 0;
  invalid_servers = 0;
  servers_with_failures = 0;
  total_checks = pos (length server_ips * length template);
  done_checks = pos 0;
  requests = record { start_time = now; idle = 0; busy = 0; one_sec_peak = 0; batches = [] };
  pool_size = gauge max_pool_size;
  busy_jobs = gauge max_threads;
}

-- `UpdatePoolSize`
unfoldable pub update_pool_size : ℕ → StatusReporter → StatusReporter
unfolding log_sample
update_pool_size n s = record s { pool_size = log_sample n s.pool_size }

-- `UpdateBusyJobs`
unfoldable pub update_busy_jobs : ℕ → StatusReporter → StatusReporter
unfolding log_sample
update_busy_jobs n s = record s { busy_jobs = log_sample n s.busy_jobs }

-- `AddDoneChecks`. Adding 0 to the total is the same as not adding.
unfoldable pub add_done_checks : ℤ → ℤ → StatusReporter → StatusReporter
add_done_checks done total s = record s {
  done_checks = s.done_checks +ℤ done;
  total_checks = s.total_checks +ℤ total;
}

-- `LogRequests`
unfoldable pub log_requests : ℕ → ℕ → ℕ → StatusReporter → StatusReporter
unfolding log_batch
log_requests t n_idle n_busy s = record s { requests = log_batch t n_idle n_busy s.requests }

-- `isFinished`
unfoldable pub is_finished : StatusReporter → Bool
is_finished s = s.valid_servers + s.invalid_servers == s.total_servers

-- `strip_ansi` is `tty.StripAnsi`: a regular expression of the library removes what it matches.
module _ (strip_ansi : Bytes → Bytes) where
  -- `fWrite` on a file that is not nil: the file, and the cached text
  unfoldable pub write_to : Bool → File → Bytes → Bytes → File × Bytes
  write_to has_pbar file str cache =
      let line = if not (has_suffix str (10 ∷ [])) then str ++ 10 ∷ [] else str in
      if has_pbar && file.is_tty then (file, cache ++ line) else (
        record file {
          content = file.content ++ (if file.is_buffer then line else strip_ansi line);
        },
        cache,
      )

  abbrev pub write_output : Option File → Bytes → StatusReporter → StatusReporter
  write_output none str s = s
  write_output (some file) str s =
      let (file', cache) = write_to s.io.has_tty file str s.cache_str in
      record s { io = record (s.io) { output_file = some file' }; cache_str = cache }

  abbrev pub write_verbose : Option File → Bytes → StatusReporter → StatusReporter
  write_verbose none str s = s
  write_verbose (some file) str s =
      let (file', cache) = write_to s.io.has_tty file str s.cache_str in
      record s {
        io = record (s.io) { verbose_file = some file' };
        cache_str = cache;
        verbose_file_hdr = [];
      }

  abbrev pub write_debug : Option File → Bytes → StatusReporter → StatusReporter
  write_debug none str s = s
  write_debug (some file) str s =
      let (file', cache) = write_to s.io.has_tty file str s.cache_str in
      record s { io = record (s.io) { debug_file = some file' }; cache_str = cache }

  -- `Debug`, with its message formatted
  unfoldable pub debug : Bytes → StatusReporter → StatusReporter
  unfolding write_to
  debug message s =
      write_debug s.io.debug_file
        (27
          ∷ (codes "[1;33m[DEBUG]"
              ++ (27 ∷ (codes "[0;33m " ++ (message ++ (27 ∷ (codes "[0m" ++ 10 ∷ [])))))))
        s

  -- The servers' counters
  unfoldable pub count_server : ServerContext → StatusReporter → StatusReporter
  count_server srv s = record s {
    servers_with_failures =
        if ltb 0 srv.failed_count then s.servers_with_failures + 1 else s.servers_with_failures;
    invalid_servers = if srv.disabled then s.invalid_servers + 1 else s.invalid_servers;
    valid_servers = if srv.disabled then s.valid_servers else s.valid_servers + 1;
  }

  -- `ReportFinishedServer`
  unfoldable pub report_finished_server : ServerContext → StatusReporter → StatusReporter
  report_finished_server srv s =
      let s' = count_server srv s in
      let s'' = if srv.disabled then s' else write_output s'.io.output_file srv.ip_address s' in
      write_verbose s''.io.verbose_file (s''.verbose_file_hdr ++ dump_server srv) s''
