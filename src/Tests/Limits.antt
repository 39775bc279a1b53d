-- ===== src/Tests/Limits.antt =====
-- The rate limiter, the log of requests, the counters of a server and its failures.
use dnsanity.Common.{
  ℕ, ◌+◌, ◌*◌, ◌≤◌, ◌≡◌, refl, true, false, ◌&&◌, List, [], ◌∷◌, none, some, arith, ltb, fail,
}
use dnsanity.Common.Int.{pos, leb_ℤ}
use dnsanity.Text.{Bytes, codes}
use dnsanity.Dns.Resolver.{NetError, resolve_dns}
use dnsanity.Dns.Server.{CheckContext, ServerContext}
use dnsanity.Dnsanitize.RateLimiter.{
  RateLimiter, Floats, refill_once, consume_one, give_back_one, Op, refill, consume, give_back,
  apply_ops, refill_cas, consume_cas, give_back_cas,
}
use dnsanity.Dnsanitize.RateLimiter.Laws.{
  IsBucket, apply_ops-IsBucket, Linear, refill_cas-Linear, consume_cas-Linear, give_back_cas-Linear,
}
use dnsanity.Dnsanitize.RateLimiter.Bounds.{taken, refills, returns, taken-bound}
use dnsanity.Dnsanitize.System.{WorkerResult}
use dnsanity.Dnsanitize.Collect.{apply_results}
use dnsanity.Dnsanitize.Failures.{apply_results-disabled}
use dnsanity.Report.Metrics.{RequestsLogger}
use dnsanity.Report.Metrics.Window.{Entry}
use dnsanity.Report.Status.{IoFiles, StatusReporter, new_status_reporter, report_finished_server}
use dnsanity.Report.Status.Counters.{report_finished_server_counts}

abbrev floats : Floats
floats = record { tokens_of = λ rate burst. 2; interval_of = λ amount rate. pos 1000000000 }

abbrev two_tokens : RateLimiter
two_tokens = record {
  tokens = 2;
  max_tokens = 2;
  refill_amount = 2;
  refill_interval = pos 1000000000;
  stopped = false;
}

two_tokens-IsBucket : IsBucket two_tokens
two_tokens-IsBucket = record {
  some_tokens = omega arith;
  amount_full = refl;
  within = omega arith;
  fits = omega arith;
}

abbrev some_ops : List Op
some_ops = consume ∷ consume ∷ consume ∷ give_back ∷ refill ∷ consume ∷ []

apply_ops-IsBucket_example : IsBucket (apply_ops some_ops two_tokens)
apply_ops-IsBucket_example = apply_ops-IsBucket some_ops two_tokens two_tokens-IsBucket

taken-bound_example :
    taken some_ops two_tokens
    ≤ two_tokens.tokens + refills some_ops * two_tokens.max_tokens + returns some_ops
taken-bound_example = taken-bound some_ops two_tokens two_tokens-IsBucket

abbrev rounds : List (List Op)
rounds = (consume ∷ []) ∷ (give_back ∷ consume ∷ []) ∷ []

refill_cas-Linear_example : Linear refill_once rounds two_tokens (refill_cas rounds two_tokens)
refill_cas-Linear_example = refill_cas-Linear rounds two_tokens

consume_cas-Linear_example : Linear consume_one rounds two_tokens (consume_cas rounds two_tokens)
consume_cas-Linear_example = consume_cas-Linear rounds two_tokens

give_back_cas-Linear_example :
    Linear give_back_one rounds two_tokens (give_back_cas rounds two_tokens)
give_back_cas-Linear_example = give_back_cas-Linear rounds two_tokens

abbrev empty_log : RequestsLogger
empty_log = record { start_time = 0; idle = 0; busy = 0; one_sec_peak = 0; batches = [] }

abbrev logged : List Entry
logged =
    record { ts = 5; idle_delta = 2; busy_delta = 0 }
    ∷ record { ts = 900000000; idle_delta = 1; busy_delta = 3 }
    ∷ []

abbrev files : IoFiles
files = record {
  has_tty = false;
  output_file = some (record { is_tty = false; is_buffer = false; content = [] });
  verbose_file = none;
  debug_file = none;
}

abbrev status : StatusReporter
status = new_status_reporter files 0 (codes "9.9.9.9" ∷ []) [] 1 1

abbrev a_check : CheckContext
a_check = record {
  answer = record {
    domain = codes "a.co";
    content = record { status = codes "SKIPPED"; a = []; cname = [] };
    truncated = false;
  };
  passed = false;
  attempts_left = pos 2;
  max_attempts = pos 2;
}

abbrev a_server : ServerContext
a_server = record {
  cancelled = false;
  disabled = false;
  ip_address = codes "9.9.9.9";
  failed_count = 0;
  completed_count = 0;
  next_query_at = 0;
  pending_checks = [];
  checks = a_check ∷ [];
}

report_finished_server_counts_example :
    let s' = report_finished_server (λ s. s) a_server status in
    (s'.valid_servers ≡ status.valid_servers + 1)
    × (s'.invalid_servers ≡ status.invalid_servers + 0)
    × (s'.servers_with_failures ≡ status.servers_with_failures + 0)
    × (s'.total_servers ≡ status.total_servers)
    × (s'.total_checks ≡ status.total_checks)
    × (s'.done_checks ≡ status.done_checks)
report_finished_server_counts_example = report_finished_server_counts (λ s. s) a_server status

abbrev deadline : NetError
deadline = record {
  deadline_exceeded = true;
  canceled = false;
  dns_error = none;
  net_timeout = none;
  errno = none;
  text = codes "i/o timeout";
}

abbrev names : ℕ → Bytes
names n = codes "NXDOMAIN"

abbrev late_result : WorkerResult
late_result = record {
  srv_id = 0;
  check_id = 0;
  answer = resolve_dns names (codes "a.co") (fail deadline);
  passed = false;
}

apply_results-disabled_example :
    let srv' = (apply_results a_server late_result (pos 1) status).0 in
    srv'.disabled ≡ (ltb 0 srv'.failed_count && leb_ℤ (pos 1) (pos srv'.failed_count))
apply_results-disabled_example = apply_results-disabled a_server late_result (pos 1) status refl
