-- ===== src/Dnsanitize/Trusted.antt =====
-- internal/dnsanitize/dnsanitize.go: runs whose threshold of failures is above the number of checks, as for
-- the trusted servers of main.go.
pub mod Runs
use dnsanity.Common.{
  ℕ, zero, suc, ◌+◌, ◌≤◌, ◌<◌, ◌≡◌, refl, sym, ap, subst, ◌∙◌, Bool, true, false, ◌&&◌, false≢true,
  inl, inr, List, [], ◌∷◌, Option, none, some, arith, length, ltb, leb, leb_iff, ◌==◌,
  if◌then◌else◌, Bool-cases, Option-cases, get_elem?, Result, not,
}
use dnsanity.Common.Int.{ℤ, pos, ◌-ℤ◌, ltb_ℤ, leb_ℤ}
use dnsanity.Dns.Answer.{is_worth_retrying}
use dnsanity.Dns.Template.{TemplateEntry}
use dnsanity.Dns.Resolver.{Response, NetError}
use dnsanity.Dns.Server.{CheckContext, ServerContext, new_server_context, finished}
use dnsanity.Report.Status.{StatusReporter, add_done_checks, report_finished_server}
use dnsanity.Report.Status.Counters.{report_finished_server_counts}
use dnsanity.Dnsanitize.Slots.{find, put, find-put}
use dnsanity.Dnsanitize.Slots.Replace.{put-own, put-other, delete-some}
use dnsanity.Dnsanitize.Pool.{get, unload}
use dnsanity.Dnsanitize.System.{
  Job, WorkerResult, System, Event, answered, released, refilled, Setup, Turn, send, check_of,
  happen, crash_if,
}
use dnsanity.Dnsanitize.Collect.{
  count_failure, apply_to, apply_results, settle, deliver, collect_one,
}
use dnsanity.Dnsanitize.Invariant.{Inv}
use dnsanity.Dnsanitize.Induction.{IsStepwise}

-- A server whose failures are among its completed checks
abbrev pub IsFair : ServerContext → Type 0
IsFair srv = srv.failed_count ≤ srv.completed_count

-- No server was dropped, and each failure of a server in the pool is a completed check.
pub record NoneDropped (sys : System) : Type 0 where
  pub fair : (k : ℕ) (srv : ServerContext) → find k sys.pool.pool ≡ some srv → IsFair srv
  pub none_invalid : sys.status.invalid_servers ≡ 0

-- What a result leaves of a server and the status where no failure reaches the threshold
abbrev Spared : StatusReporter → ServerContext × StatusReporter → Type 0
Spared status (srv', status') =
    (srv'.disabled ≡ false) × IsFair srv' × (status'.invalid_servers ≡ status.invalid_servers)

module _ (n : ℕ) (status : StatusReporter) where
  count_failure-Spared :
      (srv : ServerContext)
      → srv.disabled ≡ false
      → IsFair srv
      → srv.completed_count + 1 < n
      → Spared status (count_failure (pos n) srv status)
  unfolding add_done_checks
  count_failure-Spared srv e fair few =
      elim (Bool-cases (leb_ℤ (pos n) (pos (srv.failed_count + 1)))) [
        | inl reached ↦ absurd (omega (arith, (leb_iff _ _).0 reached))
        | inr below ↦ rw below (e, omega arith, refl)
      ]

  apply_to-Spared :
      (chk : CheckContext) (srv : ServerContext) (res : WorkerResult)
      → srv.disabled ≡ false
      → IsFair srv
      → srv.completed_count + 1 < n
      → Spared status (apply_to chk srv res (pos n) status)
  unfolding apply_to add_done_checks
  apply_to-Spared chk srv res e fair few = elim (Bool-cases res.passed) [
    | inl q ↦ rw q (e, omega arith, refl)
    | inr q ↦
        elim (Bool-cases
          (ltb_ℤ (pos 0) (chk.attempts_left -ℤ pos 1) && is_worth_retrying (some res.answer))) [
            | inl again ↦ rw (q, again) (e, fair, refl)
            | inr last ↦ rw (q, last) (count_failure-Spared _ e fair few)
          ]
  ]

  apply_results-Spared :
      (srv : ServerContext) (res : WorkerResult)
      → srv.disabled ≡ false
      → IsFair srv
      → srv.completed_count + 1 < n
      → Spared status (apply_results srv res (pos n) status)
  unfolding apply_results
  apply_results-Spared srv res e fair few =
      elim (Option-cases (get_elem? srv.checks res.check_id)) [
        | inl q ↦ rw q (e, fair, refl)
        | inr (chk, q) ↦ rw q (apply_to-Spared chk srv res e fair few)
      ]

module _ (setup : Setup) where
  send-NoneDropped :
      (job : Option Job) (check : Option TemplateEntry) (i : ℕ) (outcome : Result NetError Response)
      (sys : System)
      → NoneDropped sys
      → NoneDropped (send setup job check i outcome sys)
  send-NoneDropped none check i outcome sys h = h
  send-NoneDropped (some job) none i outcome sys h = h
  send-NoneDropped (some job) (some check) i outcome sys h =
      elim (Bool-cases (ltb (length sys.results) sys.capacity)) [
        | inl e ↦ rw e (record { fair = h.fair; none_invalid = h.none_invalid })
        | inr e ↦ rw e h
      ]

  happen-NoneDropped :
      (event : Event) (sys : System) → NoneDropped sys → NoneDropped (happen setup event sys)
  unfolding happen
  happen-NoneDropped (answered i outcome) sys h =
      send-NoneDropped (get_elem? sys.running i) (check_of setup (get_elem? sys.running i)) i
        outcome sys h
  happen-NoneDropped released sys h = elim (Bool-cases (ltb 0 sys.releasing)) [
    | inl e ↦ rw e (record { fair = h.fair; none_invalid = h.none_invalid })
    | inr e ↦ rw e h
  ]
  happen-NoneDropped refilled sys h = record { fair = h.fair; none_invalid = h.none_invalid }

  settle-NoneDropped :
      (srv_id : ℕ) (srv : ServerContext) (status : StatusReporter) (sys : System)
      → Spared sys.status (srv, status)
      → NoneDropped sys
      → NoneDropped (settle setup srv_id (srv, status) sys)
  unfolding unload
  settle-NoneDropped srv_id srv status sys (enabled, fair, same) h =
      elim (Bool-cases (finished srv)) [
        | inl e ↦ rw e (record {
          fair = λ k x q. h.fair k x (delete-some srv_id k x sys.pool.pool q).1;
          none_invalid = omega (
            arith,
            (report_finished_server_counts setup.strip_ansi srv status).1,
            same,
            h.none_invalid,
            ap {B = ℕ} (λ b. if b then 1 else 0) enabled,
          );
        })
        | inr e ↦ rw e (record {
          fair = λ k x q. elim (Bool-cases (srv_id == k)) [
            | inl own ↦ subst IsFair (put-own srv_id k srv x sys.pool.pool own q) fair
            | inr other ↦ h.fair k x (put-other srv_id k srv x sys.pool.pool other q)
          ];
          none_invalid = same ∙ h.none_invalid;
        })
      ]

  module _ (t n : ℕ) (few : t < n) (threshold : setup.srv_max_failures ≡ pos n) where
    deliver-NoneDropped :
        (o : Option ServerContext) (res : WorkerResult) (sys : System)
        → ((srv : ServerContext)
            → o ≡ some srv
            → (srv.disabled ≡ false) × IsFair srv × (srv.completed_count < t))
        → NoneDropped sys
        → NoneDropped (deliver setup o res sys)
    deliver-NoneDropped none res sys of_pool h = h
    deliver-NoneDropped (some srv) res sys of_pool h =
        let (enabled, fair, unfinished) = of_pool srv refl in
        rw threshold (
          settle-NoneDropped res.srv_id _ _
            (crash_if (not (ltb res.check_id (length srv.checks))) sys)
            (apply_results-Spared n sys.status srv res enabled fair (omega arith))
            (record { fair = h.fair; none_invalid = h.none_invalid }))

    collect_one-NoneDropped :
        (res : WorkerResult) (rest : List WorkerResult) (sys : System)
        → Inv t sys
        → NoneDropped sys
        → NoneDropped (collect_one setup res (record sys { results = rest }))
    unfolding collect_one get
    collect_one-NoneDropped res rest sys inv h =
        deliver-NoneDropped (find res.srv_id sys.pool.pool) res _
          (λ srv found.
            let a = inv.active res.srv_id srv found in
            (a.enabled, h.fair res.srv_id srv found, a.unfinished))
          (record { fair = h.fair; none_invalid = h.none_invalid })

    -- Each step of a run drops no server.
    pub NoneDropped-IsStepwise : IsStepwise setup t NoneDropped
    unfolding new_server_context
    NoneDropped-IsStepwise = record {
      by_event = λ event sys inv h. happen-NoneDropped event sys h;
      by_limiter = λ limiter sys h. record { fair = h.fair; none_invalid = h.none_invalid };
      by_status = λ s sys same h. record {
        fair = h.fair;
        none_invalid = same.invalid_servers ∙ h.none_invalid;
      };
      by_result = λ res rest sys e inv h. collect_one-NoneDropped res rest sys inv h;
      by_start = λ now srv_id c rest srv sys found e inv h. record {
        fair = λ k x q. elim (Bool-cases (srv_id == k)) [
          | inl own ↦
              subst IsFair (put-own srv_id k _ x sys.pool.pool own q) (h.fair srv_id srv found)
          | inr other ↦ h.fair k x (put-other srv_id k _ x sys.pool.pool other q)
        ];
        none_invalid = h.none_invalid;
      };
      by_load = λ ip sys e inv h. record {
        fair = λ k x q. elim (Bool-cases (sys.pool.next_slot == k)) [
          | inl own ↦
              subst IsFair (put-own sys.pool.next_slot k _ x sys.pool.pool own q) (omega arith)
          | inr other ↦ h.fair k x (put-other sys.pool.next_slot k _ x sys.pool.pool other q)
        ];
        none_invalid = h.none_invalid;
      };
    }
