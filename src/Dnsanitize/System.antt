-- ===== src/Dnsanitize/System.antt =====
-- internal/dnsanitize/dnsanitize.go: what the scheduler and its goroutines share, and the steps that the
-- other goroutines take between two steps of the scheduler: `runDNSWorker` and the refill of the bucket.
use dnsanity.Common.{
  ℕ, zero, suc, ◌+◌, ◌-◌, Bool, false, ◌||◌, List, [], ◌∷◌, ◌++◌, Option, none, some, length, ltb,
  if◌then◌else◌, Result, get_elem?,
}
use dnsanity.Common.Int.{ℤ}
use dnsanity.Text.{Bytes}
use dnsanity.Dns.Answer.{DnsAnswer}
use dnsanity.Dns.Records.{Counts}
use dnsanity.Dns.Template.{TemplateEntry, Template, entry_matches}
use dnsanity.Dns.Resolver.{Response, NetError, resolve_dns}
use dnsanity.Dnsanitize.Slots.{find}
use dnsanity.Dnsanitize.Pool.{ServerPool}
use dnsanity.Dnsanitize.RateLimiter.{RateLimiter, refill_once}
use dnsanity.Report.Status.{StatusReporter}

-- A worker that has not sent its result: the arguments of `runDNSWorker` that matter to the scheduler
pub record Job : Type 0 where
  pub srv_id : ℕ
  pub check_id : ℕ

-- `WorkerResult`
pub record WorkerResult : Type 0 where
  pub srv_id : ℕ
  pub check_id : ℕ
  pub answer : DnsAnswer
  pub passed : Bool

-- The pool, `inFlight`, the workers before their send and between their send and the end, the channel of
-- results, the number of slots taken in `JobLimiter`, the capacity of both channels, the rate limiter,
-- the status, and whether the scheduler has indexed a slice out of its range, with which the program panics.
pub record System : Type 0 where
  pub pool : ServerPool
  pub in_flight : List (ℕ × ℕ)
  pub running : List Job
  pub releasing : ℕ
  pub results : List WorkerResult
  pub busy : ℕ
  pub capacity : ℕ
  pub limiter : RateLimiter
  pub status : StatusReporter
  pub crashed : Bool

-- An index in range, or a panic; that the model then goes on shows no more, as the panic is not undone.
abbrev pub crash_if : Bool → System → System
crash_if b sys = record sys { crashed = sys.crashed || b }

-- What a worker is told of its exchange, and what other goroutines do: worker `i` gets its outcome and
-- sends its result, a worker that has sent gives its slot back, the ticker refills the bucket.
pub data Event : Type 0 where
  answered : ℕ → Result NetError Response → Event
  released : Event
  refilled : Event

abbrev pub remove_at {ℓ} : {A : Type ℓ} → ℕ → List A → List A
remove_at i [] = []
remove_at zero (x ∷ xs) = xs
remove_at (suc i) (x ∷ xs) = x ∷ remove_at i xs

abbrev pub or_false : Option Bool → Bool
or_false none = false
or_false (some b) = b

-- `inFlight[srvID]`
abbrev pub count_at : Option ℕ → ℕ
count_at none = 0
count_at (some n) = n

unfoldable pub in_flight_of : ℕ → List (ℕ × ℕ) → ℕ
in_flight_of srv_id m = count_at (find srv_id m)

-- The locals of one turn of the scheduling loop
pub record Tally : Type 0 where
  pub num_scheduled : ℕ
  pub num_idle : ℕ
  pub num_busy : ℕ
  pub busy_jobs : ℕ
  pub free_jobs : ℤ

-- What the run depends on: the library's names of response codes and its regular expression, the order
-- in which maps are ranged over, the template, `srvReqInterval` and `srvMaxFailures`.
pub record Setup : Type 0 where
  pub rcode_to_string : ℕ → Bytes
  pub strip_ansi : Bytes → Bytes
  pub order : Counts → Counts
  pub template : Template
  pub srv_req_interval : ℕ
  pub srv_max_failures : ℤ

-- One turn of the loop: the time, the events before each receive and before the scheduling, the servers
-- in the order of the two passes with the events before each, and the events before the pool grows
pub record Turn : Type 0 where
  pub now : ℕ
  pub before_receives : List (List Event)
  pub before_scheduling : List Event
  pub first_pass : List (ℕ × List Event)
  pub second_pass : List (ℕ × List Event)
  pub before_growth : List Event

module _ (setup : Setup) where
  -- The result of `runDNSWorker`
  abbrev pub worker_result : TemplateEntry → Job → Result NetError Response → WorkerResult
  worker_result check job outcome =
      let answer = resolve_dns setup.rcode_to_string check.domain outcome in
      record {
        srv_id = job.srv_id;
        check_id = job.check_id;
        answer = answer;
        passed = or_false (entry_matches setup.order check answer);
      }

  -- A worker sends its result, if the channel has room.
  abbrev pub send :
      Option Job → Option TemplateEntry → ℕ → Result NetError Response → System → System
  send (some job) (some check) i outcome sys =
      if ltb (length sys.results) sys.capacity
      then record sys {
        running = remove_at i sys.running;
        releasing = sys.releasing + 1;
        results = sys.results ++ worker_result check job outcome ∷ [];
      }
      else sys
  send _ _ i outcome sys = sys

  abbrev pub check_of : Option Job → Option TemplateEntry
  check_of none = none
  check_of (some job) = get_elem? setup.template job.check_id

  -- An event that cannot happen changes nothing.
  unfoldable pub happen : Event → System → System
  unfolding refill_once
  happen (answered i outcome) sys =
      let job = get_elem? sys.running i in send job (check_of job) i outcome sys
  happen released sys =
      if ltb 0 sys.releasing
      then record sys { releasing = sys.releasing - 1; busy = sys.busy - 1 }
      else sys
  happen refilled sys = record sys { limiter = refill_once sys.limiter }

  unfoldable pub happen_all : List Event → System → System
  unfolding happen
  happen_all [] sys = sys
  happen_all (e ∷ es) sys = happen_all es (happen e sys)
