-- ===== src/Report/Metrics.antt =====
-- internal/report/logging.go: a gauge, and the log of requests with its window of one second.
pub mod Window
use dnsanity.Common.{
  ℕ, zero, suc, ◌+◌, ◌*◌, ◌/◌, Bool, true, false, List, [], ◌∷◌, ◌++◌, ltb, leb, ◌==◌,
  if◌then◌else◌,
}

-- `MetricGauge`; `Max`, `Current` and the samples are never negative.
pub record MetricGauge : Type 0 where
  pub max : ℕ
  pub current : ℕ
  pub peak : ℕ
  pub total_sum : ℕ
  pub n_samples : ℕ

-- `MetricGauge.Log`
unfoldable pub log_sample : ℕ → MetricGauge → MetricGauge
log_sample v g = record g {
  current = v;
  peak = if ltb g.peak v then v else g.peak;
  total_sum = g.total_sum + v;
  n_samples = g.n_samples + 1;
}

-- `MetricGauge.Avg`, with the quotient exact: the floor of sum / n + 1 / 2
unfoldable pub average : MetricGauge → ℕ
average g = if g.n_samples == 0 then 0 else (2 * g.total_sum + g.n_samples) / (2 * g.n_samples)

-- `RequestsBatch`; a time is a number of nanoseconds.
pub record RequestsBatch : Type 0 where
  pub timestamp : ℕ
  pub count : ℕ

-- `RequestsLogger`
pub record RequestsLogger : Type 0 where
  pub start_time : ℕ
  pub idle : ℕ
  pub busy : ℕ
  pub one_sec_peak : ℕ
  pub batches : List RequestsBatch

abbrev pub second : ℕ
second = 1000000000

-- `b.timestamp.After(ts.Add(-time.Second))`
abbrev pub is_recent : ℕ → RequestsBatch → Bool
is_recent ts b = ltb ts (b.timestamp + second)

-- The loop that keeps the batches after the cutoff
unfoldable pub prune : ℕ → List RequestsBatch → List RequestsBatch
prune ts [] = []
prune ts (b ∷ bs) = let rest = prune ts bs in if is_recent ts b then b ∷ rest else rest

-- `RequestsLogger.Log`
unfoldable pub log_batch : ℕ → ℕ → ℕ → RequestsLogger → RequestsLogger
unfolding prune
log_batch ts idle_delta busy_delta r =
    let total = idle_delta + busy_delta in
    record r {
      idle = r.idle + idle_delta;
      busy = r.busy + busy_delta;
      batches = prune ts (
          if ltb 0 total
          then r.batches ++ record { timestamp = ts; count = total } ∷ []
          else r.batches);
    }

-- `RequestsLogger.Total`
unfoldable pub total_requests : RequestsLogger → ℕ
total_requests r = r.idle + r.busy

abbrev pub sum_counts : List RequestsBatch → ℕ
sum_counts [] = 0
sum_counts (b ∷ bs) = b.count + sum_counts bs

-- `RequestsLogger.LastSecCount` at the time `now`
unfoldable pub last_sec_count : ℕ → RequestsLogger → RequestsLogger × ℕ
unfolding prune
last_sec_count now r =
    let kept = prune now r.batches in
    let sum = sum_counts kept in
    (
      record r {
        batches = kept;
        one_sec_peak = if ltb r.one_sec_peak sum then sum else r.one_sec_peak;
      },
      sum,
    )

-- `RequestsLogger.OneSecAvg`, with the quotient exact; `elapsed_us` is `time.Since(StartTime)` in
-- microseconds, which is not negative.
unfoldable pub one_sec_avg : ℕ → RequestsLogger → ℕ
unfolding total_requests
one_sec_avg elapsed_us r =
    let us = elapsed_us + 500000 in (us + 2 * (total_requests r * 1000000)) / (2 * us)
