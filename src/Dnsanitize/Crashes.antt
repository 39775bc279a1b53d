-- ===== src/Dnsanitize/Crashes.antt =====
-- internal/dnsanitize/dnsanitize.go: the indices of `PendingChecks`, of the template and of `Checks` with which
-- the scheduler reads are in range.
use dnsanity.Common.{
  ℕ, ◌<◌, ◌≡◌, refl, subst, ◌∙◌, Bool, false, not, List, ◌∷◌, Option, none, some, arith, inl, inr,
  length, ltb, ltb_iff, Bool-cases, get_elem?, Result, All,
}
use dnsanity.Dns.Template.{TemplateEntry}
use dnsanity.Dns.Resolver.{Response, NetError}
use dnsanity.Dns.Server.{ServerContext, finished}
use dnsanity.Report.Status.{IoFiles, StatusReporter}
use dnsanity.Dnsanitize.Slots.{find}
use dnsanity.Dnsanitize.Pool.{get}
use dnsanity.Dnsanitize.RateLimiter.{Floats}
use dnsanity.Dnsanitize.System.{
  Job, WorkerResult, System, Event, answered, released, refilled, Setup, Turn, send, check_of,
  happen, crash_if,
}
use dnsanity.Dnsanitize.Collect.{apply_results, settle, deliver, collect_one}
use dnsanity.Dnsanitize.Scheduler.{Settings, dnsanitize}
use dnsanity.Dnsanitize.Invariant.{Inv}
use dnsanity.Dnsanitize.Conservation.{IsSetup, fresh_status}
use dnsanity.Dnsanitize.Induction.{IsStepwise}
use dnsanity.Dnsanitize.Induction.Runs.{dnsanitize_induction}

-- Every index was in range.
abbrev pub NoCrash : System → Type 0
NoCrash sys = sys.crashed ≡ false

module _ (setup : Setup) where
  send-crashed :
      (job : Option Job) (check : Option TemplateEntry) (i : ℕ) (outcome : Result NetError Response)
      (sys : System)
      → (send setup job check i outcome sys).crashed ≡ sys.crashed
  send-crashed none check i outcome sys = refl
  send-crashed (some job) none i outcome sys = refl
  send-crashed (some job) (some check) i outcome sys =
      elim (Bool-cases (ltb (length sys.results) sys.capacity)) [
        | inl e ↦ rw e refl
        | inr e ↦ rw e refl
      ]

  happen-crashed : (event : Event) (sys : System) → (happen setup event sys).crashed ≡ sys.crashed
  unfolding happen
  happen-crashed (answered i outcome) sys =
      send-crashed (get_elem? sys.running i) (check_of setup (get_elem? sys.running i)) i outcome
        sys
  happen-crashed released sys = elim (Bool-cases (ltb 0 sys.releasing)) [
    | inl e ↦ rw e refl
    | inr e ↦ rw e refl
  ]
  happen-crashed refilled sys = refl

  settle-crashed :
      (srv_id : ℕ) (r : ServerContext × StatusReporter) (sys : System)
      → (settle setup srv_id r sys).crashed ≡ sys.crashed
  settle-crashed srv_id (srv, status) sys = elim (Bool-cases (finished srv)) [
    | inl e ↦ rw e refl
    | inr e ↦ rw e refl
  ]

  deliver-NoCrash :
      (o : Option ServerContext) (res : WorkerResult) (sys : System)
      → ((srv : ServerContext) → o ≡ some srv → res.check_id < length srv.checks)
      → NoCrash sys
      → NoCrash (deliver setup o res sys)
  deliver-NoCrash none res sys in_range h = h
  deliver-NoCrash (some srv) res sys in_range h =
      settle-crashed res.srv_id (apply_results srv res setup.srv_max_failures sys.status)
        (crash_if (not (ltb res.check_id (length srv.checks))) sys)
      ∙ rw (h, (ltb_iff _ _).1 (in_range srv refl)) refl

  collect_one-NoCrash :
      (t : ℕ) (res : WorkerResult) (rest : List WorkerResult) (sys : System)
      → sys.results ≡ res ∷ rest
      → Inv t sys
      → NoCrash sys
      → NoCrash (collect_one setup res (record sys { results = rest }))
  unfolding collect_one get
  collect_one-NoCrash t res rest sys e inv h =
      deliver-NoCrash (find res.srv_id sys.pool.pool) res _
        (λ srv found. omega (
          arith,
          (inv.active res.srv_id srv found).all_checks,
          (subst (All (λ (r : WorkerResult). r.check_id < t)) e inv.pipeline.results_in_range).0,
        ))
        h

  -- Each step of a run indexes within the ranges.
  NoCrash-IsStepwise : IsStepwise setup (length setup.template) NoCrash
  NoCrash-IsStepwise = record {
    by_event = λ event sys inv h. happen-crashed event sys ∙ h;
    by_limiter = λ limiter sys h. h;
    by_status = λ s sys same h. h;
    by_result =
        λ res rest sys e inv h. collect_one-NoCrash (length setup.template) res rest sys e inv h;
    by_start = λ now srv_id c rest srv sys found e inv h.
        rw
          (
            h,
            (ltb_iff c (length setup.template)).1
                (subst (All (λ i. i < length setup.template)) e
                  (inv.active srv_id srv found).in_range).0,
          )
          refl;
    by_load = λ ip sys e inv h. h;
  }

-- Over any turns of a run of `DNSanitize`, with a bucket that fits 63 bits and a template of at least one check,
-- every index is in range.
pub dnsanitize-NoCrash :
    (fl : Floats) (setup : Setup) (s : Settings) (turns : List Turn) (io : IoFiles) (now : ℕ)
    {sys : System} {done : Bool}
    → IsSetup fl setup s
    → dnsanitize fl setup s turns (fresh_status io now setup s) ≡ some (sys, done)
    → NoCrash sys
dnsanitize-NoCrash fl setup s turns io now ok e =
    dnsanitize_induction fl setup s turns io now NoCrash (NoCrash-IsStepwise setup)
      (λ limiter. refl) ok e
