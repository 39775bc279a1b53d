-- ===== src/Report/Metrics/Window.antt =====
-- The window of one second over the requests, against the whole history of what was logged.
use dnsanity.Common.{ℕ, ◌+◌, ◌≤◌, List, [], ◌∷◌, ltb, if◌then◌else◌}
use dnsanity.Report.Metrics.{RequestsBatch, RequestsLogger, second, prune, log_batch, sum_counts}

-- One call of `Log`
pub record Entry : Type 0 where
  pub ts : ℕ
  pub idle_delta : ℕ
  pub busy_delta : ℕ

pub log_all : List Entry → RequestsLogger → RequestsLogger
log_all [] r = r
log_all (e ∷ es) r = log_all es (log_batch e.ts e.idle_delta e.busy_delta r)

-- The requests of a history within the second before `now`
pub recent_requests : ℕ → List Entry → ℕ
recent_requests now [] = 0
recent_requests now (e ∷ es) =
    (if ltb now (e.ts + second) then e.idle_delta + e.busy_delta else 0) + recent_requests now es

-- Every entry is logged at `from` or later, and none before the one in front of it.
abbrev pub InOrder : ℕ → List Entry → Type 0
InOrder from [] = Unit
InOrder from (e ∷ es) = (from ≤ e.ts) × InOrder e.ts es

-- The time of the last entry
abbrev pub last_time : ℕ → List Entry → ℕ
last_time from [] = from
last_time from (e ∷ es) = last_time e.ts es

-- The sum that `LastSecCount` forms
pub window_sum : ℕ → List RequestsBatch → ℕ
window_sum now bs = sum_counts (prune now bs)
