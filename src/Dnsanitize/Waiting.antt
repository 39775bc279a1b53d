-- ===== src/Dnsanitize/Waiting.antt =====
-- internal/dnsanitize/dnsanitize.go, the wait for workers at the end of `scheduleChecks`: no one receives
-- any more, so every worker that still runs needs room in the channel for its result.
pub mod Ends
use dnsanity.Common.{
  ℕ, zero, suc, ◌+◌, ◌≤◌, ◌<◌, ◌≡◌, refl, sym, ap, ◌∙◌, Bool, true, false, false≢true, ◌&&◌, List,
  [], ◌∷◌, ◌++◌, Option, none, some, arith, inl, inr, length, length-append, ltb, ltb_iff, ◌==◌,
  ==_iff, if◌then◌else◌, Bool-cases, Option-cases, List-cases, get_elem?, Result,
}
use dnsanity.Dns.Template.{TemplateEntry}
use dnsanity.Dns.Resolver.{Response, NetError}
use dnsanity.Dns.Server.{ServerContext, finished}
use dnsanity.Report.Status.{StatusReporter}
use dnsanity.Dnsanitize.Slots.{find}
use dnsanity.Dnsanitize.Slots.Replace.{length-put}
use dnsanity.Dnsanitize.Pool.{get, len, num_pending, can_grow, is_drained}
use dnsanity.Dnsanitize.RateLimiter.{RateLimiter, consume_one, give_back_one}
use dnsanity.Dnsanitize.System.{
  Job, WorkerResult, System, Event, answered, released, refilled, Tally, Setup, Turn, in_flight_of,
  worker_result, send, check_of, happen, happen_all,
}
use dnsanity.Dnsanitize.Collect.{apply_results, settle, deliver, collect_one, drain, collect_loop}
use dnsanity.Dnsanitize.Dispatch.{
  start, is_skipped, try_start, schedule_at, schedule_one, schedule_pass, schedule_passes,
}
use dnsanity.Dnsanitize.Scheduler.{notify, fresh_tally, finish_turn, take_turn, schedule_checks}
use dnsanity.Dnsanitize.Invariant.{Inv}
use dnsanity.Dnsanitize.Invariant.Counting.{length-remove_at}
use dnsanity.Dnsanitize.Invariant.Events.{happen_all-Inv}
use dnsanity.Dnsanitize.Invariant.Collected.{
  collect_one-Inv, drain-nil, drain-cons, loop-nil, loop-cons,
}
use dnsanity.Dnsanitize.Invariant.Turns.{take_turn-Inv, finish_end, checks_end, checks_more}

-- There is room in the channel for the results of all workers that run.
abbrev pub HasRoom : System → Type 0
HasRoom sys = length sys.results + length sys.running ≤ sys.capacity

-- A step that keeps the number of servers in the pool, and the room where there is no server
pub record IsQuiet (sys sys' : System) : Type 0 where
  pub same_size : length sys'.pool.pool ≡ length sys.pool.pool
  pub room : length sys.pool.pool ≡ 0 → HasRoom sys → HasRoom sys'

IsQuiet-refl : (sys : System) → IsQuiet sys sys
IsQuiet-refl sys = record { same_size = refl; room = λ empty h. h }

pub IsQuiet-then : {a b c : System} → IsQuiet a b → IsQuiet b c → IsQuiet a c
IsQuiet-then p q = record {
  same_size = q.same_size ∙ p.same_size;
  room = λ empty h. q.room (p.same_size ∙ empty) (p.room empty h);
}

find-some :
    {V : Type 0} (key : ℕ) (m : List (ℕ × V)) (v : V) → find key m ≡ some v → length m ≡ 0 → ⊥
unfolding find
find-some key [] v e h = cc
find-some key (x ∷ m) v e h = omega arith

module _ (setup : Setup) where
  send-IsQuiet :
      (job : Option Job) (check : Option TemplateEntry) (i : ℕ) (outcome : Result NetError Response)
      (sys : System)
      → get_elem? sys.running i ≡ job
      → IsQuiet sys (send setup job check i outcome sys)
  send-IsQuiet none check i outcome sys q = IsQuiet-refl sys
  send-IsQuiet (some job) none i outcome sys q = IsQuiet-refl sys
  send-IsQuiet (some job) (some check) i outcome sys q =
      elim (Bool-cases (ltb (length sys.results) sys.capacity)) [
        | inl e ↦ rw e (record {
          same_size = refl;
          room = λ empty h. omega (
            arith,
            h,
            length-remove_at i sys.running job q,
            length-append {0} sys.results (worker_result setup check job outcome ∷ []),
          );
        })
        | inr e ↦ rw e (IsQuiet-refl sys)
      ]

  happen-IsQuiet : (event : Event) (sys : System) → IsQuiet sys (happen setup event sys)
  unfolding happen
  happen-IsQuiet (answered i outcome) sys =
      send-IsQuiet (get_elem? sys.running i) (check_of setup (get_elem? sys.running i)) i outcome
        sys refl
  happen-IsQuiet released sys = elim (Bool-cases (ltb 0 sys.releasing)) [
    | inl e ↦ rw e (record { same_size = refl; room = λ empty h. h })
    | inr e ↦ rw e (IsQuiet-refl sys)
  ]
  happen-IsQuiet refilled sys = record { same_size = refl; room = λ empty h. h }

  pub happen_all-IsQuiet :
      (events : List Event) (sys : System) → IsQuiet sys (happen_all setup events sys)
  unfolding happen_all
  happen_all-IsQuiet [] sys = IsQuiet-refl sys
  happen_all-IsQuiet (event ∷ events) sys =
      IsQuiet-then (happen-IsQuiet event sys) (happen_all-IsQuiet events (happen setup event sys))

  start-size :
      (now srv_id : ℕ) (idle : Bool) (srv : ServerContext) (pending : List ℕ) (sys : System)
      (tally : Tally)
      → find srv_id sys.pool.pool ≡ some srv
      → length (start setup now srv_id idle srv pending (sys, tally)).0.pool.pool
        ≡ length sys.pool.pool
  start-size now srv_id idle srv [] sys tally e = refl
  start-size now srv_id idle srv (check ∷ rest) sys tally e =
      length-put srv_id _ srv sys.pool.pool e

  try_start-size :
      (now srv_id : ℕ) (idle : Bool) (srv : ServerContext) (limiter : RateLimiter) (ok : Bool)
      (sys : System) (tally : Tally)
      → find srv_id sys.pool.pool ≡ some srv
      → length (try_start setup now srv_id idle srv (limiter, ok) (sys, tally)).0.pool.pool
        ≡ length sys.pool.pool
  try_start-size now srv_id idle srv limiter false sys tally e = refl
  try_start-size now srv_id idle srv limiter true sys tally e =
      elim (Bool-cases (ltb sys.busy sys.capacity)) [
        | inl free ↦ rw free (
            start-size now srv_id idle srv srv.pending_checks (record sys { limiter = limiter })
              tally e)
        | inr full ↦ rw full refl
      ]

  schedule_at-size :
      (now : ℕ) (second : Bool) (srv_id : ℕ) (srv : ServerContext) (sys : System) (tally : Tally)
      → find srv_id sys.pool.pool ≡ some srv
      → length (schedule_at setup now second srv_id (some srv) (sys, tally)).0.pool.pool
        ≡ length sys.pool.pool
  schedule_at-size now second srv_id srv sys tally e =
      let idle = in_flight_of srv_id sys.in_flight == 0 in
      elim (Bool-cases (is_skipped setup now second idle srv)) [
        | inl skip ↦ rw skip refl
        | inr go ↦ rw go (
            try_start-size now srv_id idle srv (consume_one sys.limiter).0
              (consume_one sys.limiter).1 sys tally e)
      ]

  schedule_at-IsQuiet :
      (now : ℕ) (second : Bool) (srv_id : ℕ) (o : Option ServerContext) (sys : System)
      (tally : Tally)
      → find srv_id sys.pool.pool ≡ o
      → IsQuiet sys (schedule_at setup now second srv_id o (sys, tally)).0
  schedule_at-IsQuiet now second srv_id none sys tally e = IsQuiet-refl sys
  schedule_at-IsQuiet now second srv_id (some srv) sys tally e = record {
    same_size = schedule_at-size now second srv_id srv sys tally e;
    room = λ empty h. absurd (find-some srv_id sys.pool.pool srv e empty);
  }

  schedule_one-IsQuiet :
      (now : ℕ) (second : Bool) (srv_id : ℕ) (s : System × Tally)
      → IsQuiet s.0 (schedule_one setup now second srv_id s).0
  unfolding schedule_one get
  schedule_one-IsQuiet now second srv_id (sys, tally) =
      schedule_at-IsQuiet now second srv_id (find srv_id sys.pool.pool) sys tally refl

  schedule_pass-IsQuiet :
      (now : ℕ) (second : Bool) (visits : List (ℕ × List Event)) (s : System × Tally)
      → IsQuiet s.0 (schedule_pass setup now second visits s).0
  unfolding schedule_pass
  schedule_pass-IsQuiet now second [] s = IsQuiet-refl s.0
  schedule_pass-IsQuiet now second ((srv_id, es) ∷ more) (sys, tally) =
      let s' = schedule_one setup now second srv_id (happen_all setup es sys, tally) in
      IsQuiet-then (happen_all-IsQuiet es sys) (
        IsQuiet-then (schedule_one-IsQuiet now second srv_id (happen_all setup es sys, tally))
          (schedule_pass-IsQuiet now second more s'))

  pass_if-IsQuiet :
      (b : Bool) (now : ℕ) (second : Bool) (visits : List (ℕ × List Event)) (s : System × Tally)
      → IsQuiet s.0 (if b then schedule_pass setup now second visits s else s).0
  pass_if-IsQuiet true now second visits s = schedule_pass-IsQuiet now second visits s
  pass_if-IsQuiet false now second visits s = IsQuiet-refl s.0

  pub schedule_passes-IsQuiet :
      (turn : Turn) (pool_can_grow : Bool) (s : System × Tally)
      → IsQuiet s.0 (schedule_passes setup turn pool_can_grow s).0
  unfolding schedule_passes
  schedule_passes-IsQuiet turn pool_can_grow s =
      IsQuiet-then (pass_if-IsQuiet _ turn.now false turn.first_pass s)
        (pass_if-IsQuiet _ turn.now true turn.second_pass _)

  pub notify-IsQuiet : (now : ℕ) (s : System × Tally) → IsQuiet s.0 (notify setup now s)
  unfolding notify
  notify-IsQuiet now (sys, tally) = elim (Bool-cases (ltb 0 tally.num_scheduled)) [
    | inl e ↦ rw e (record { same_size = refl; room = λ empty h. h })
    | inr e ↦ rw e (IsQuiet-refl sys)
  ]
