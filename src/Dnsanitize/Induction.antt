-- ===== src/Dnsanitize/Induction.antt =====
-- internal/dnsanitize/dnsanitize.go: induction over a run of `scheduleChecks`, by its smallest steps.
pub mod Turns
pub mod Runs
use dnsanity.Common.{
  ℕ, zero, suc, ◌+◌, ◌<◌, ◌≡◌, refl, sym, ap, ◌∙◌, Bool, true, false, not, ◌&&◌, ◌||◌, List, [],
  ◌∷◌, ◌++◌, Option, none, some, arith, inl, inr, length, ltb, ltb_iff, ◌==◌, if◌then◌else◌,
  Bool-cases, Option-cases, List-cases, min, get_elem?,
}
use dnsanity.Common.Int.{ℤ, pos, negsuc}
use dnsanity.Text.{Bytes}
use dnsanity.Dns.Server.{ServerContext, new_server_context}
use dnsanity.Report.Status.{StatusReporter, update_pool_size}
use dnsanity.Report.Status.Counters.{SameCounters}
use dnsanity.Dnsanitize.Slots.{find, put}
use dnsanity.Dnsanitize.Pool.{
  ServerPool, get, len, load_one, load_loop, load_n, can_grow, is_drained,
}
use dnsanity.Dnsanitize.RateLimiter.{RateLimiter, consume_one, give_back_one, remaining}
use dnsanity.Dnsanitize.RateLimiter.Laws.{IsBucket, consume_one-IsBucket, give_back_one-IsBucket}
use dnsanity.Dnsanitize.System.{
  Job, WorkerResult, System, Event, Tally, Setup, Turn, in_flight_of, happen, happen_all,
}
use dnsanity.Dnsanitize.Collect.{collect_one, drain, collect_loop}
use dnsanity.Dnsanitize.Dispatch.{
  start, is_skipped, try_start, schedule_at, schedule_one, schedule_pass, schedule_passes,
}
use dnsanity.Dnsanitize.Scheduler.{
  notify, grown, load_up_to, grow, idle_wait, fresh_tally, finish_turn, take_turn, schedule_checks,
}
use dnsanity.Dnsanitize.Invariant.{Inv}
use dnsanity.Dnsanitize.Invariant.Events.{happen-Inv, limiter-Inv}
use dnsanity.Dnsanitize.Invariant.Collected.{
  collect_one-Inv, drain-nil, drain-cons, loop-nil, loop-cons,
}
use dnsanity.Dnsanitize.Invariant.Dispatched.{started, start-Inv}
use dnsanity.Dnsanitize.Invariant.Grown.{larger, load-Inv, loop_room, loop_full}
use dnsanity.Dnsanitize.Invariant.Turns.{
  status-Inv, update_pool_size-same, told-same, growth_told, finish_end, finish_more, checks_end,
  checks_more,
}

-- The system in which the first pending check of a server has been started
abbrev pub with_started : Setup → ℕ → ℕ → ℕ → List ℕ → ServerContext → System → System
with_started setup now srv_id c rest srv sys = record sys {
  pool = record (sys.pool) {
    pool =
        put srv_id
          (record srv { pending_checks = rest; next_query_at = now + setup.srv_req_interval })
          sys.pool.pool;
  };
  in_flight = put srv_id (in_flight_of srv_id sys.in_flight + 1) sys.in_flight;
  running = sys.running ++ record { srv_id = srv_id; check_id = c } ∷ [];
  busy = sys.busy + 1;
  crashed = sys.crashed || not (ltb c (length setup.template));
}

-- The pool with one server more
abbrev pub with_loaded : Bytes → ServerPool → ServerPool
with_loaded ip sp = record sp {
  dequeue_idx = suc sp.dequeue_idx;
  pool = put sp.next_slot (new_server_context ip sp.template sp.max_attempts) sp.pool;
  next_slot = suc sp.next_slot;
}

-- A predicate that each smallest step of a run keeps, where the invariant holds
pub record IsStepwise (setup : Setup) (t : ℕ) (P : System → Type 0) : Type 0 where
  pub by_event : (event : Event) (sys : System) → Inv t sys → P sys → P (happen setup event sys)
  pub by_limiter :
      (limiter : RateLimiter) (sys : System) → P sys → P (record sys { limiter = limiter })
  pub by_status :
      (s : StatusReporter) (sys : System)
      → SameCounters sys.status s
      → P sys
      → P (record sys { status = s })
  pub by_result :
      (res : WorkerResult) (rest : List WorkerResult) (sys : System)
      → sys.results ≡ res ∷ rest
      → Inv t sys
      → P sys
      → P (collect_one setup res (record sys { results = rest }))
  pub by_start :
      (now srv_id c : ℕ) (rest : List ℕ) (srv : ServerContext) (sys : System)
      → find srv_id sys.pool.pool ≡ some srv
      → srv.pending_checks ≡ c ∷ rest
      → Inv t sys
      → P sys
      → P (with_started setup now srv_id c rest srv sys)
  pub by_load :
      (ip : Bytes) (sys : System)
      → get_elem? sys.pool.queue sys.pool.dequeue_idx ≡ some ip
      → Inv t sys
      → P sys
      → P (record sys { pool = with_loaded ip sys.pool })

module _ (setup : Setup) (t : ℕ) (pos_t : 0 < t) (P : System → Type 0)
    (steps : IsStepwise setup t P) where
  -- What the induction carries
  abbrev pub Both : System → Type 0
  Both sys = Inv t sys × P sys

  by_limiter' :
      (limiter : RateLimiter) (sys : System)
      → IsBucket limiter
      → Both sys
      → Both (record sys { limiter = limiter })
  by_limiter' limiter sys b (h, p) =
      (limiter-Inv setup t sys limiter b h, steps.by_limiter limiter sys p)

  pub by_status' :
      (s : StatusReporter) (sys : System)
      → SameCounters sys.status s
      → Both sys
      → Both (record sys { status = s })
  by_status' s sys same (h, p) = (status-Inv t sys s same h, steps.by_status s sys same p)

  by_result' :
      (res : WorkerResult) (rest : List WorkerResult) (sys : System)
      → sys.results ≡ res ∷ rest
      → Both sys
      → Both (collect_one setup res (record sys { results = rest }))
  by_result' res rest sys e (h, p) =
      (collect_one-Inv setup t res rest sys e h, steps.by_result res rest sys e h p)

  pub by_events :
      (events : List Event) (sys : System) → Both sys → Both (happen_all setup events sys)
  unfolding happen_all
  by_events [] sys b = b
  by_events (event ∷ events) sys (h, p) =
      by_events events (happen setup event sys)
        (happen-Inv setup t event sys h, steps.by_event event sys h p)

  by_drain : (n : ℕ) (sys : System) → Both sys → Both (drain setup n sys)
  by_drain zero sys b = unfold drain in b
  by_drain (suc n) sys b = elim (List-cases sys.results) [
    | inl e ↦ rw (drain-nil setup t n sys e) b
    | inr (res, rest, e) ↦ rw (drain-cons setup t n sys res rest e) (
        by_drain n (collect_one setup res (record sys { results = rest }))
          (by_result' res rest sys e b))
  ]

  pub by_receives :
      (before : List (List Event)) (sys : System) → Both sys → Both (collect_loop setup before sys)
  by_receives [] sys b = unfold collect_loop in by_drain (length sys.results) sys b
  by_receives (es ∷ more) sys b =
      let sys' = happen_all setup es sys in
      let b' : Both sys' = by_events es sys b in
      elim (List-cases sys'.results) [
        | inl e ↦ rw (loop-nil setup t es more sys e) b'
        | inr (res, rest, e) ↦ rw (loop-cons setup t es more sys res rest e) (
            by_receives more (collect_one setup res (record sys' { results = rest }))
              (by_result' res rest sys' e b'))
      ]

  by_start' :
      (now srv_id : ℕ) (idle : Bool) (srv : ServerContext) (pending : List ℕ) (sys : System)
      (tally : Tally)
      → find srv_id sys.pool.pool ≡ some srv
      → srv.pending_checks ≡ pending
      → (length pending == 0) ≡ false
      → sys.busy < sys.capacity
      → Both sys
      → Both (start setup now srv_id idle srv pending (sys, tally)).0
  by_start' now srv_id idle srv [] sys tally found e some_pending free b = absurd (cc)
  by_start' now srv_id idle srv (c ∷ rest) sys tally found e some_pending free (h, p) = (
    start-Inv setup t now srv_id c rest srv sys h found e free,
    steps.by_start now srv_id c rest srv sys found e h p,
  )

  by_try :
      (now srv_id : ℕ) (idle : Bool) (srv : ServerContext) (limiter : RateLimiter) (ok : Bool)
      (sys : System) (tally : Tally)
      → IsBucket limiter
      → find srv_id sys.pool.pool ≡ some srv
      → (length srv.pending_checks == 0) ≡ false
      → Both sys
      → Both (try_start setup now srv_id idle srv (limiter, ok) (sys, tally)).0
  by_try now srv_id idle srv limiter false sys tally bucket found some_pending b =
      by_limiter' limiter sys bucket b
  by_try now srv_id idle srv limiter true sys tally bucket found some_pending b =
      elim (Bool-cases (ltb sys.busy sys.capacity)) [
        | inl free ↦ rw free (
            by_start' now srv_id idle srv srv.pending_checks (record sys { limiter = limiter })
              tally found refl some_pending ((ltb_iff _ _).0 free)
              (by_limiter' limiter sys bucket b))
        | inr full ↦
            rw full
              (by_limiter' (give_back_one limiter) sys (give_back_one-IsBucket limiter bucket) b)
      ]

  by_server :
      (now : ℕ) (second : Bool) (srv_id : ℕ) (o : Option ServerContext) (sys : System)
      (tally : Tally)
      → find srv_id sys.pool.pool ≡ o
      → Both sys
      → Both (schedule_at setup now second srv_id o (sys, tally)).0
  by_server now second srv_id none sys tally e b = b
  by_server now second srv_id (some srv) sys tally e b =
      let idle = in_flight_of srv_id sys.in_flight == 0 in
      elim (Bool-cases (is_skipped setup now second idle srv)) [
        | inl skip ↦ rw skip b
        | inr go ↦ rw go (
            by_try now srv_id idle srv (consume_one sys.limiter).0 (consume_one sys.limiter).1 sys
              tally (consume_one-IsBucket sys.limiter b.0.bucket) e (ground (arith, go)) b)
      ]

  by_pass :
      (now : ℕ) (second : Bool) (visits : List (ℕ × List Event)) (s : System × Tally)
      → Both s.0
      → Both (schedule_pass setup now second visits s).0
  unfolding schedule_pass schedule_one get
  by_pass now second [] s b = b
  by_pass now second ((srv_id, es) ∷ more) (sys, tally) b =
      let sys' = happen_all setup es sys in
      by_pass now second more (schedule_one setup now second srv_id (sys', tally)) (
        by_server now second srv_id (find srv_id sys'.pool.pool) sys' tally refl
          (by_events es sys b))

  by_pass_if :
      (c : Bool) (now : ℕ) (second : Bool) (visits : List (ℕ × List Event)) (s : System × Tally)
      → Both s.0
      → Both (if c then schedule_pass setup now second visits s else s).0
  by_pass_if true now second visits s b = by_pass now second visits s b
  by_pass_if false now second visits s b = b

  pub by_passes :
      (turn : Turn) (pool_can_grow : Bool) (s : System × Tally)
      → Both s.0
      → Both (schedule_passes setup turn pool_can_grow s).0
  unfolding schedule_passes
  by_passes turn pool_can_grow s b =
      by_pass_if _ turn.now true turn.second_pass _
        (by_pass_if _ turn.now false turn.first_pass s b)

  by_load_one :
      (sys : System)
      → can_grow sys.pool ≡ true
      → Both sys
      → Both (record sys { pool = load_one sys.pool })
  unfolding load_one
  by_load_one sys room (h, p) =
      elim (Option-cases (get_elem? sys.pool.queue sys.pool.dequeue_idx)) [
        | inl e ↦ rw e (h, p)
        | inr (ip, e) ↦ rw e (load-Inv t pos_t ip sys h room, steps.by_load ip sys e h p)
      ]

  pub by_load_loop :
      (n inserted : ℕ) (sys : System)
      → Both sys
      → Both (record sys { pool = (load_loop n inserted sys.pool).0 })
  by_load_loop zero inserted sys b = unfold load_loop in b
  by_load_loop (suc n) inserted sys b = elim (Bool-cases (can_grow sys.pool)) [
    | inl room ↦ rw (loop_room n inserted sys.pool room) (
        by_load_loop n (suc inserted) (record sys { pool = load_one sys.pool })
          (by_load_one sys room b))
    | inr full ↦ rw (loop_full n inserted sys.pool full) b
  ]
