-- ===== src/Dnsanitize/Once/Steps.antt =====
-- internal/dnsanitize/dnsanitize.go: each step of a run leaves every check in one place at most.
use dnsanity.Common.{
  ℕ, ◌+◌, ◌≤◌, ◌≡◌, refl, sym, ap, subst, ◌∙◌, true, ◌&&◌, inl, inr, List, [], ◌∷◌, ◌++◌, Option,
  none, some, arith, length, ltb, ◌==◌, ==_iff, Bool-cases, get_elem?, Result, not,
}
use dnsanity.Dns.Template.{TemplateEntry}
use dnsanity.Dns.Resolver.{Response, NetError}
use dnsanity.Dns.Server.{ServerContext, finished}
use dnsanity.Report.Status.{StatusReporter}
use dnsanity.Dnsanitize.Slots.{find}
use dnsanity.Dnsanitize.Slots.Replace.{put-own, put-other, delete-some}
use dnsanity.Dnsanitize.Pool.{get, unload}
use dnsanity.Dnsanitize.System.{
  Job, WorkerResult, System, Event, answered, released, refilled, Setup, worker_result, send,
  check_of, happen, crash_if,
}
use dnsanity.Dnsanitize.Collect.{settle, deliver, collect_one}
use dnsanity.Dnsanitize.Invariant.Counting.{one_if}
use dnsanity.Dnsanitize.Induction.{IsStepwise}
use dnsanity.Dnsanitize.Once.{
  times, results_on, places, Once, times-cons, results_on-cons, workers_on-snoc, results_on-snoc,
  workers_on-remove_at, Returned, apply_results-Returned, load-Once,
}

module _ (setup : Setup) where
  send-Once :
      (o : Option Job) (check : Option TemplateEntry) (i : ℕ) (outcome : Result NetError Response)
      (sys : System)
      → get_elem? sys.running i ≡ o
      → Once sys
      → Once (send setup o check i outcome sys)
  send-Once none check i outcome sys e h = h
  send-Once (some job) none i outcome sys e h = h
  send-Once (some job) (some check) i outcome sys e h =
      elim (Bool-cases (ltb (length sys.results) sys.capacity)) [
        | inl room ↦ rw room (record {
          once = λ k c srv found. omega (
            arith,
            h.once k c srv found,
            workers_on-remove_at k c i sys.running job e,
            results_on-snoc k c sys.results (worker_result setup check job outcome),
          );
        })
        | inr full ↦ rw full h
      ]

  happen-Once : (event : Event) (sys : System) → Once sys → Once (happen setup event sys)
  unfolding happen
  happen-Once (answered i outcome) sys h =
      send-Once (get_elem? sys.running i) (check_of setup (get_elem? sys.running i)) i outcome sys
        refl h
  happen-Once released sys h = elim (Bool-cases (ltb 0 sys.releasing)) [
    | inl e ↦ rw e (record { once = h.once })
    | inr e ↦ rw e h
  ]
  happen-Once refilled sys h = record { once = h.once }

  -- What is known of a system from which the result `res` was received
  abbrev Received : WorkerResult → System → Type 0
  Received res sys =
      (k i : ℕ) (srv : ServerContext)
      → find k sys.pool.pool ≡ some srv
      → places k i srv sys.running sys.results + one_if (res.srv_id == k && res.check_id == i) ≤ 1

  settle-Once :
      (res : WorkerResult) (srv srv' : ServerContext) (status : StatusReporter) (sys : System)
      → find res.srv_id sys.pool.pool ≡ some srv
      → Returned srv res srv'
      → Received res sys
      → Once (settle setup res.srv_id (srv', status) sys)
  unfolding unload
  settle-Once res srv srv' status sys found back h = elim (Bool-cases (finished srv')) [
    | inl e ↦ rw e (record {
      once = λ k i x q. omega (arith, h k i x (delete-some res.srv_id k x sys.pool.pool q).1);
    })
    | inr e ↦ rw e (record {
      once = λ k i x q. elim (Bool-cases (res.srv_id == k)) [
        | inl own ↦
            subst (λ y. places k i y sys.running sys.results ≤ 1)
              (put-own res.srv_id k srv' x sys.pool.pool own q) (kept k i own back)
        | inr other ↦ omega (arith, h k i x (put-other res.srv_id k srv' x sys.pool.pool other q))
      ];
    })
  ]
    where
      known :
          (k i : ℕ)
          → (res.srv_id == k) ≡ true
          → places k i srv sys.running sys.results + one_if (res.check_id == i) ≤ 1
      known k i own =
          let before =
            h k i srv
              (ap (λ j. find j sys.pool.pool) (sym ((==_iff res.srv_id k).0 own)) ∙ found) in
          ground (arith, own, before)

      kept :
          (k i : ℕ)
          → (res.srv_id == k) ≡ true
          → Returned srv res srv'
          → places k i srv' sys.running sys.results ≤ 1
      kept k i own (inl same) = omega (arith, known k i own, ap (times i) same)
      kept k i own (inr front) =
          omega
            (arith, known k i own, ap (times i) front, times-cons i res.check_id srv.pending_checks)

  deliver-Once :
      (o : Option ServerContext) (res : WorkerResult) (sys : System)
      → find res.srv_id sys.pool.pool ≡ o
      → Received res sys
      → Once (deliver setup o res sys)
  deliver-Once none res sys found h = record { once = λ k i srv e. omega (arith, h k i srv e) }
  deliver-Once (some srv) res sys found h =
      settle-Once res srv _ _ (crash_if (not (ltb res.check_id (length srv.checks))) sys) found
        (apply_results-Returned srv res setup.srv_max_failures sys.status) h

  collect_one-Once :
      (res : WorkerResult) (rest : List WorkerResult) (sys : System)
      → sys.results ≡ res ∷ rest
      → Once sys
      → Once (collect_one setup res (record sys { results = rest }))
  unfolding collect_one get
  collect_one-Once res rest sys e h =
      deliver-Once (find res.srv_id sys.pool.pool) res _ refl (λ k i srv found.
        omega (arith, h.once k i srv found, ap (results_on k i) e, results_on-cons k i res rest))

  -- Each step of a run keeps every check in one place at most.
  pub Once-IsStepwise : (t : ℕ) → IsStepwise setup t Once
  Once-IsStepwise t = record {
    by_event = λ event sys inv h. happen-Once event sys h;
    by_limiter = λ limiter sys h. record { once = h.once };
    by_status = λ s sys same h. record { once = h.once };
    by_result = λ res rest sys e inv h. collect_one-Once res rest sys e h;
    by_start = λ now srv_id c rest srv sys found e inv h. record {
      once = λ k i x q. elim (Bool-cases (srv_id == k)) [
        | inl own ↦
            let before =
              h.once k i srv
                (ap (λ j. find j sys.pool.pool) (sym ((==_iff srv_id k).0 own)) ∙ found) in
            subst
              (λ y.
                places k i y (sys.running ++ record { srv_id = srv_id; check_id = c } ∷ [])
                  sys.results
                ≤ 1)
              (put-own srv_id k _ x sys.pool.pool own q)
              (ground (
                arith,
                own,
                before,
                ap (times i) e,
                times-cons i c rest,
                workers_on-snoc k i sys.running (record { srv_id = srv_id; check_id = c }),
              ))
        | inr other ↦
            let before = h.once k i x (put-other srv_id k _ x sys.pool.pool other q) in
            ground (
              arith,
              other,
              before,
              workers_on-snoc k i sys.running (record { srv_id = srv_id; check_id = c }),
            )
      ];
    };
    by_load = λ ip sys e inv h. load-Once t ip sys inv h;
  }
