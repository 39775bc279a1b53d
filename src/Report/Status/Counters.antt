-- ===== src/Report/Status/Counters.antt =====
-- What reporting a server does to the counters.
use dnsanity.Common.{◌+◌, ◌≡◌, Option, none, some, arith, ltb, ◌++◌, if◌then◌else◌}
use dnsanity.Text.{Bytes}
use dnsanity.Dns.Server.{ServerContext}
use dnsanity.Report.Dump.{dump_server}
use dnsanity.Report.Status.{
  File, StatusReporter, write_output, write_verbose, count_server, report_finished_server, debug,
  write_debug,
}

-- The counters of servers and checks
pub record SameCounters (s s' : StatusReporter) : Type 0 where
  pub total_servers : s'.total_servers ≡ s.total_servers
  pub valid_servers : s'.valid_servers ≡ s.valid_servers
  pub invalid_servers : s'.invalid_servers ≡ s.invalid_servers
  pub servers_with_failures : s'.servers_with_failures ≡ s.servers_with_failures
  pub total_checks : s'.total_checks ≡ s.total_checks
  pub done_checks : s'.done_checks ≡ s.done_checks

module _ (strip_ansi : Bytes → Bytes) where
  write_output-same :
      (file : Option File) (str : Bytes) (s : StatusReporter)
      → SameCounters s (write_output strip_ansi file str s)
  write_output-same none str s = ground arith
  write_output-same (some file) str s = ground arith

  write_verbose-same :
      (file : Option File) (str : Bytes) (s : StatusReporter)
      → SameCounters s (write_verbose strip_ansi file str s)
  write_verbose-same none str s = ground arith
  write_verbose-same (some file) str s = ground arith

  write_debug-same :
      (file : Option File) (str : Bytes) (s : StatusReporter)
      → SameCounters s (write_debug strip_ansi file str s)
  write_debug-same none str s = ground arith
  write_debug-same (some file) str s = ground arith

  pub debug-same :
      (message : Bytes) (s : StatusReporter) → SameCounters s (debug strip_ansi message s)
  unfolding debug
  debug-same message s = write_debug-same s.io.debug_file _ s

  count_server_counts :
      (srv : ServerContext) (s : StatusReporter)
      → let s' = count_server strip_ansi srv s in
        (s'.valid_servers ≡ s.valid_servers + (if srv.disabled then 0 else 1))
        × (s'.invalid_servers ≡ s.invalid_servers + (if srv.disabled then 1 else 0))
        × (s'.servers_with_failures
            ≡ s.servers_with_failures + (if ltb 0 srv.failed_count then 1 else 0))
        × (s'.total_servers ≡ s.total_servers)
        × (s'.total_checks ≡ s.total_checks)
        × (s'.done_checks ≡ s.done_checks)
  unfolding count_server
  count_server_counts srv s = ground arith

  -- A reported server is counted once: as invalid if it was disabled, as valid if not, and among the
  -- servers with failures if a check of it failed. The counters of checks do not change.
  pub report_finished_server_counts :
      (srv : ServerContext) (s : StatusReporter)
      → let s' = report_finished_server strip_ansi srv s in
        (s'.valid_servers ≡ s.valid_servers + (if srv.disabled then 0 else 1))
        × (s'.invalid_servers ≡ s.invalid_servers + (if srv.disabled then 1 else 0))
        × (s'.servers_with_failures
            ≡ s.servers_with_failures + (if ltb 0 srv.failed_count then 1 else 0))
        × (s'.total_servers ≡ s.total_servers)
        × (s'.total_checks ≡ s.total_checks)
        × (s'.done_checks ≡ s.done_checks)
  unfolding report_finished_server
  report_finished_server_counts srv s =
      let s' = count_server strip_ansi srv s in
      let s'' =
        if srv.disabled then s' else write_output strip_ansi s'.io.output_file srv.ip_address s' in
      ground (
        arith,
        count_server_counts srv s,
        write_output-same s'.io.output_file srv.ip_address s',
        write_verbose-same s''.io.verbose_file (s''.verbose_file_hdr ++ dump_server srv) s'',
      )
