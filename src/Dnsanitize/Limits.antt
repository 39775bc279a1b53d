-- ===== src/Dnsanitize/Limits.antt =====
-- internal/dnsanitize/dnsanitize.go: the slots, the size of the pool and the number of servers over the
-- steps of a run.
use dnsanity.Common.{
  ◌<◌, ℕ, ◌≡◌, refl, ◌∙◌, List, Option, none, some, arith, inl, inr, length, ltb, Bool-cases,
  Option-cases, get_elem?, Result, not,
}
use dnsanity.Common.Int.{ℤ}
use dnsanity.Dns.Template.{TemplateEntry}
use dnsanity.Dns.Resolver.{Response, NetError}
use dnsanity.Dns.Server.{CheckContext, ServerContext, finished}
use dnsanity.Report.Status.{StatusReporter, add_done_checks}
use dnsanity.Report.Status.Counters.{report_finished_server_counts}
use dnsanity.Dnsanitize.Pool.{get, unload}
use dnsanity.Dnsanitize.System.{
  Job, WorkerResult, System, Event, answered, released, refilled, Setup, Turn, send, check_of,
  happen, crash_if,
}
use dnsanity.Dnsanitize.Collect.{apply_to, apply_results, settle, deliver, collect_one}
use dnsanity.Dnsanitize.Scheduler.{schedule_checks}
use dnsanity.Dnsanitize.Invariant.{Inv}
use dnsanity.Dnsanitize.Induction.{IsStepwise}
use dnsanity.Dnsanitize.Induction.Turns.{schedule_checks_induction}

-- The slots, the size of the pool and the number of servers are `c`, `m` and `n`.
pub record IsKept (c m n : ℕ) (sys : System) : Type 0 where
  pub slots : sys.capacity ≡ c
  pub pool_size : sys.pool.max_pool_sz ≡ m
  pub servers : sys.status.total_servers ≡ n

apply_to-servers :
    (chk : CheckContext) (srv : ServerContext) (res : WorkerResult) (f : ℤ)
    (status : StatusReporter)
    → (apply_to chk srv res f status).1.total_servers ≡ status.total_servers
unfolding apply_to add_done_checks
apply_to-servers chk srv res f status = ground arith

apply_results-servers :
    (srv : ServerContext) (res : WorkerResult) (f : ℤ) (status : StatusReporter)
    → (apply_results srv res f status).1.total_servers ≡ status.total_servers
unfolding apply_results
apply_results-servers srv res f status = elim (Option-cases (get_elem? srv.checks res.check_id)) [
  | inl q ↦ rw q refl
  | inr (chk, q) ↦ rw q (apply_to-servers chk srv res f status)
]

module _ (setup : Setup) (c m n : ℕ) where
  send-IsKept :
      (job : Option Job) (check : Option TemplateEntry) (i : ℕ) (outcome : Result NetError Response)
      (sys : System)
      → IsKept c m n sys
      → IsKept c m n (send setup job check i outcome sys)
  send-IsKept none check i outcome sys h = h
  send-IsKept (some job) none i outcome sys h = h
  send-IsKept (some job) (some check) i outcome sys h =
      elim (Bool-cases (ltb (length sys.results) sys.capacity)) [
        | inl e ↦ rw e (record { slots = h.slots; pool_size = h.pool_size; servers = h.servers })
        | inr e ↦ rw e h
      ]

  happen-IsKept :
      (event : Event) (sys : System) → IsKept c m n sys → IsKept c m n (happen setup event sys)
  unfolding happen
  happen-IsKept (answered i outcome) sys h =
      send-IsKept (get_elem? sys.running i) (check_of setup (get_elem? sys.running i)) i outcome sys
        h
  happen-IsKept released sys h = elim (Bool-cases (ltb 0 sys.releasing)) [
    | inl e ↦ rw e (record { slots = h.slots; pool_size = h.pool_size; servers = h.servers })
    | inr e ↦ rw e h
  ]
  happen-IsKept refilled sys h = record {
    slots = h.slots;
    pool_size = h.pool_size;
    servers = h.servers;
  }

  settle-IsKept :
      (srv_id : ℕ) (srv : ServerContext) (status : StatusReporter) (sys : System)
      → status.total_servers ≡ n
      → IsKept c m n sys
      → IsKept c m n (settle setup srv_id (srv, status) sys)
  settle-IsKept srv_id srv status sys same h = elim (Bool-cases (finished srv)) [
    | inl e ↦ rw e (record {
      slots = h.slots;
      pool_size = unfold unload in h.pool_size;
      servers = (report_finished_server_counts setup.strip_ansi srv status).3 ∙ same;
    })
    | inr e ↦ rw e (record { slots = h.slots; pool_size = h.pool_size; servers = same })
  ]

  deliver-IsKept :
      (o : Option ServerContext) (res : WorkerResult) (sys : System)
      → IsKept c m n sys
      → IsKept c m n (deliver setup o res sys)
  deliver-IsKept none res sys h = h
  deliver-IsKept (some srv) res sys h =
      let r = apply_results srv res setup.srv_max_failures sys.status in
      settle-IsKept res.srv_id r.0 r.1 (crash_if (not (ltb res.check_id (length srv.checks))) sys)
        (apply_results-servers srv res setup.srv_max_failures sys.status ∙ h.servers)
        (record { slots = h.slots; pool_size = h.pool_size; servers = h.servers })

  pub collect_one-IsKept :
      (res : WorkerResult) (sys : System)
      → IsKept c m n sys
      → IsKept c m n (collect_one setup res sys)
  unfolding collect_one
  collect_one-IsKept res sys h =
      deliver-IsKept (get sys.pool res.srv_id) res _
        (record { slots = h.slots; pool_size = h.pool_size; servers = h.servers })

  -- Each step of a run keeps the limits.
  IsKept-IsStepwise : (t : ℕ) → IsStepwise setup t (IsKept c m n)
  IsKept-IsStepwise t = record {
    by_event = λ event sys h p. happen-IsKept event sys p;
    by_limiter =
        λ limiter sys p. record { slots = p.slots; pool_size = p.pool_size; servers = p.servers };
    by_status = λ s sys same p. record {
      slots = p.slots;
      pool_size = p.pool_size;
      servers = same.total_servers ∙ p.servers;
    };
    by_result = λ res rest sys e h p.
        collect_one-IsKept res (record sys { results = rest })
          (record { slots = p.slots; pool_size = p.pool_size; servers = p.servers });
    by_start = λ now srv_id c rest srv sys found e h p. record {
      slots = p.slots;
      pool_size = p.pool_size;
      servers = p.servers;
    };
    by_load =
        λ ip sys e h p. record { slots = p.slots; pool_size = p.pool_size; servers = p.servers };
  }

  -- No turn changes the limits.
  pub schedule_checks-IsKept :
      (t : ℕ)
      → 0 < t
      → (turns : List Turn) (sys : System) → Inv t sys
      → IsKept c m n sys
      → IsKept c m n (schedule_checks setup turns sys).0
  schedule_checks-IsKept t pos_t turns sys h p =
      (schedule_checks_induction setup t pos_t (IsKept c m n) (IsKept-IsStepwise t) turns sys h p).1
