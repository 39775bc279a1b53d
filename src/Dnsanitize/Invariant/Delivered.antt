-- ===== src/Dnsanitize/Invariant/Delivered.antt =====
-- internal/dnsanitize/dnsanitize.go: the invariant where a result is applied, and where a finished server
-- is reported and dropped.
use dnsanity.Common.{
  ℕ, suc, ◌+◌, ◌*◌, ◌≡◌, ◌≢◌, sym, ap, subst, ◌∙◌, true, false, not, false≢true, inl, inr, Option,
  none, some, arith, length, ltb, ◌==◌, ==_iff, ==_refl, Bool-cases, if◌then◌else◌,
}
use dnsanity.Common.Int.{pos, ◌+ℤ◌}
use dnsanity.Dns.Server.{ServerContext, finished}
use dnsanity.Report.Status.{StatusReporter, report_finished_server}
use dnsanity.Report.Status.Counters.{report_finished_server_counts}
use dnsanity.Dnsanitize.Slots.{find, put, delete}
use dnsanity.Dnsanitize.Slots.Sums.{Unique-put, Unique-delete, total, total-put_old, total-delete}
use dnsanity.Dnsanitize.Pool.{unload, num_pending}
use dnsanity.Dnsanitize.System.{WorkerResult, System, Setup, crash_if}
use dnsanity.Dnsanitize.Collect.{apply_results, settle, deliver}
use dnsanity.Dnsanitize.Invariant.{IsActive, IsPipeline, Inv, open_checks}
use dnsanity.Dnsanitize.Invariant.Counting.{jobs_of, one_if}
use dnsanity.Dnsanitize.Invariant.Applied.{Applied, open_after, apply_results-Applied}
use dnsanity.Dnsanitize.Slots.Replace.{
  length-put, length-delete, put-fresh, put-own, put-other, delete-none, delete-some,
}
use dnsanity.Dnsanitize.Invariant.Received.{IsReceived, crash_if-IsReceived}

other-jobs : (n k key : ℕ) → key ≢ k → n + one_if (key == k) ≡ n
other-jobs n k key ne = ground arith

own-jobs : (n k : ℕ) → n + one_if (k == k) ≡ suc n
own-jobs n k = ground (arith, ==_refl k)

module _ (setup : Setup) (t : ℕ) (res : WorkerResult) (sys : System)
    (h : IsReceived t res sys) where
  -- Every other server keeps its jobs.
  others-IsActive :
      (k : ℕ) (srv : ServerContext)
      → res.srv_id ≢ k
      → find k sys.pool.pool ≡ some srv
      → IsActive t (jobs_of k sys.running sys.results) srv
  others-IsActive k srv ne found =
      subst (λ n. IsActive t n srv) (other-jobs _ k res.srv_id ne) (h.active k srv found)

  module _ (srv : ServerContext) (found : find res.srv_id sys.pool.pool ≡ some srv) where
    own-IsActive : IsActive t (suc (jobs_of res.srv_id sys.running sys.results)) srv
    own-IsActive =
        subst (λ n. IsActive t n srv) (own-jobs _ res.srv_id) (h.active res.srv_id srv found)

    module _ (srv' : ServerContext) (s' : StatusReporter)
        (a : Applied t (jobs_of res.srv_id sys.running sys.results) srv sys.status srv' s') where
      -- The work of the other servers and of the queue
      abbrev elsewhere : ℕ
      elsewhere = total (open_checks t) (delete res.srv_id sys.pool.pool) + num_pending sys.pool * t

      balance : s'.total_checks ≡ s'.done_checks +ℤ pos (open_after t srv' + elsewhere)
      balance = a.balanced elsewhere (
          h.accounted.checks_left
          ∙ ap (λ n. sys.status.done_checks +ℤ pos n)
              (omega (
                arith,
                total-delete (open_checks t) res.srv_id srv sys.pool.pool h.pool_ok.unique found,
              )))

      -- The server stays.
      kept-Inv :
          finished srv' ≡ false
          → Inv t (record sys {
            pool = record (sys.pool) { pool = put res.srv_id srv' sys.pool.pool };
            status = s';
          })
      kept-Inv going = record {
        pool_ok = record {
          unique = Unique-put res.srv_id srv' sys.pool.pool h.pool_ok.unique;
          fresh =
              λ k lt. put-fresh res.srv_id k srv srv' sys.pool.pool found (h.pool_ok.fresh k lt);
          in_size =
              omega (arith, length-put res.srv_id srv' srv sys.pool.pool found, h.pool_ok.in_size);
          in_queue = h.pool_ok.in_queue;
          checks = h.pool_ok.checks;
        };
        active = λ k x e. elim (Bool-cases (res.srv_id == k)) [
          | inl same ↦
              let k_eq : res.srv_id ≡ k = (==_iff res.srv_id k).0 same in
              let x_eq : srv' ≡ x = put-own res.srv_id k srv' x sys.pool.pool same e in
              subst (λ y. IsActive t (jobs_of k sys.running sys.results) y) x_eq
                (subst (λ j. IsActive t (jobs_of j sys.running sys.results) srv') k_eq
                  (a.still_active going))
          | inr differs ↦
              others-IsActive k x (λ q. false≢true (sym differs ∙ (==_iff res.srv_id k).1 q))
                (put-other res.srv_id k srv' x sys.pool.pool differs e)
        ];
        pipeline = same_pipeline;
        bucket = h.bucket;
        accounted = record {
          checks_left =
              balance
              ∙ ap (λ n. s'.done_checks +ℤ pos n)
                  (omega (
                    arith,
                    ap (λ b. if b then 0 else open_checks t srv') going,
                    total-put_old (open_checks t) res.srv_id srv' srv sys.pool.pool found,
                    total-delete (open_checks t) res.srv_id srv sys.pool.pool h.pool_ok.unique
                        found,
                  ));
          servers_left = omega (
            arith,
            a.same_servers,
            h.accounted.servers_left,
            length-put res.srv_id srv' srv sys.pool.pool found,
          );
        };
      }
        where
          same_pipeline : IsPipeline t (record sys {
            pool = record (sys.pool) { pool = put res.srv_id srv' sys.pool.pool };
            status = s';
          })
          same_pipeline = record {
            slots = h.pipeline.slots;
            room = h.pipeline.room;
            channel = h.pipeline.channel;
            running_in_range = h.pipeline.running_in_range;
            results_in_range = h.pipeline.results_in_range;
            fresh_jobs = h.pipeline.fresh_jobs;
            counted = h.pipeline.counted;
          }

      -- The server is reported and leaves the pool.
      dropped-Inv :
          finished srv' ≡ true
          → Inv t (record sys {
            pool = record (sys.pool) { pool = delete res.srv_id sys.pool.pool };
            status = report_finished_server setup.strip_ansi srv' s';
          })
      dropped-Inv done = record {
        pool_ok = record {
          unique = Unique-delete res.srv_id sys.pool.pool h.pool_ok.unique;
          fresh = λ k lt. delete-none res.srv_id k sys.pool.pool (h.pool_ok.fresh k lt);
          in_size = omega (arith, fewer, h.pool_ok.in_size);
          in_queue = h.pool_ok.in_queue;
          checks = h.pool_ok.checks;
        };
        active = λ k x e.
            let (ne, found') = delete-some res.srv_id k x sys.pool.pool e in
            others-IsActive k x ne found';
        pipeline = record {
          slots = h.pipeline.slots;
          room = h.pipeline.room;
          channel = h.pipeline.channel;
          running_in_range = h.pipeline.running_in_range;
          results_in_range = h.pipeline.results_in_range;
          fresh_jobs = h.pipeline.fresh_jobs;
          counted = h.pipeline.counted;
        };
        bucket = h.bucket;
        accounted = record {
          checks_left =
              counts.4
              ∙ balance
              ∙ ap (λ n. s'.done_checks +ℤ pos n)
                  (omega (arith, ap (λ b. if b then 0 else open_checks t srv') done))
              ∙ ap (λ d. d +ℤ pos elsewhere) (sym counts.5);
          servers_left = ground (arith, counts, a.same_servers, h.accounted.servers_left, fewer);
        };
      }
        where
          counts :
              let r = report_finished_server setup.strip_ansi srv' s' in
              (r.valid_servers ≡ s'.valid_servers + (if srv'.disabled then 0 else 1))
              × (r.invalid_servers ≡ s'.invalid_servers + (if srv'.disabled then 1 else 0))
              × (r.servers_with_failures
                  ≡ s'.servers_with_failures + (if ltb 0 srv'.failed_count then 1 else 0))
              × (r.total_servers ≡ s'.total_servers)
              × (r.total_checks ≡ s'.total_checks)
              × (r.done_checks ≡ s'.done_checks)
          counts = report_finished_server_counts setup.strip_ansi srv' s'

          fewer : suc (length (delete res.srv_id sys.pool.pool)) ≡ length sys.pool.pool
          fewer = length-delete res.srv_id srv sys.pool.pool h.pool_ok.unique found

    settled-Inv :
        Inv t
          (settle setup res.srv_id (apply_results srv res setup.srv_max_failures sys.status) sys)
    settled-Inv =
        let a =
          apply_results-Applied t (jobs_of res.srv_id sys.running sys.results) srv res
            setup.srv_max_failures sys.status own-IsActive h.in_range in
        let r = apply_results srv res setup.srv_max_failures sys.status in
        elim (Bool-cases (finished r.0)) [
          | inl done ↦ rw done (unfold unload in dropped-Inv r.0 r.1 a done)
          | inr going ↦ rw going (kept-Inv r.0 r.1 a going)
        ]

  -- No server is there: it was dropped before.
  missing-Inv : find res.srv_id sys.pool.pool ≡ none → Inv t sys
  missing-Inv missing = record {
    pool_ok = h.pool_ok;
    active = λ k srv e. others-IsActive k srv (λ q. absurd (no_server k srv q e)) e;
    pipeline = h.pipeline;
    bucket = h.bucket;
    accounted = h.accounted;
  }
    where
      no_server :
          (k : ℕ) (srv : ServerContext) → res.srv_id ≡ k → find k sys.pool.pool ≡ some srv → ⊥
      no_server k srv q e = cc (ap (λ j. find j sys.pool.pool) q)

module _ (setup : Setup) (t : ℕ) (res : WorkerResult) (sys : System)
    (h : IsReceived t res sys) where
  pub deliver-Inv :
      (o : Option ServerContext)
      → find res.srv_id sys.pool.pool ≡ o
      → Inv t (deliver setup o res sys)
  deliver-Inv none e = missing-Inv setup t res sys h e
  deliver-Inv (some srv) e =
      let b = not (ltb res.check_id (length srv.checks)) in
      settled-Inv setup t res (crash_if b sys) (crash_if-IsReceived t res b sys h) srv e
