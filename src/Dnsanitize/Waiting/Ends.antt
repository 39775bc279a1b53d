-- ===== src/Dnsanitize/Waiting/Ends.antt =====
-- internal/dnsanitize/dnsanitize.go, `scheduleChecks`: the room in the channel after the loop of
-- receives, and in the last turn.
use dnsanity.Common.{
  ℕ, zero, suc, ◌<◌, ◌≡◌, refl, sym, ap, ◌∙◌, Bool, true, false≢true, List, [], ◌∷◌, Option, none,
  some, arith, inl, inr, length, ==_iff, Bool-cases, List-cases, not, ltb,
}
use dnsanity.Dns.Server.{ServerContext, finished}
use dnsanity.Report.Status.{StatusReporter}
use dnsanity.Dnsanitize.Pool.{get, can_grow, is_drained}
use dnsanity.Dnsanitize.System.{
  WorkerResult, System, Event, Tally, Setup, Turn, happen_all, crash_if,
}
use dnsanity.Dnsanitize.Collect.{apply_results, settle, deliver, collect_one, drain, collect_loop}
use dnsanity.Dnsanitize.Dispatch.{schedule_passes}
use dnsanity.Dnsanitize.Scheduler.{notify, fresh_tally, finish_turn, take_turn, schedule_checks}
use dnsanity.Dnsanitize.Invariant.{Inv}
use dnsanity.Dnsanitize.Invariant.Events.{happen_all-Inv}
use dnsanity.Dnsanitize.Invariant.Collected.{
  collect_one-Inv, drain-nil, drain-cons, loop-nil, loop-cons,
}
use dnsanity.Dnsanitize.Invariant.Turns.{take_turn-Inv, finish_end, checks_end, checks_more}
use dnsanity.Dnsanitize.Waiting.{
  HasRoom, IsQuiet, IsQuiet-then, happen_all-IsQuiet, schedule_passes-IsQuiet, notify-IsQuiet,
}

-- With nothing in the channel, the slots bound the workers.
empty-HasRoom : (t : ℕ) (sys : System) → Inv t sys → sys.results ≡ [] → HasRoom sys
empty-HasRoom t sys h e = omega (arith, ap length e, h.pipeline.slots, h.pipeline.room)

module _ (setup : Setup) where
  settle-results :
      (srv_id : ℕ) (srv : ServerContext) (status : StatusReporter) (sys : System)
      → (settle setup srv_id (srv, status) sys).results ≡ sys.results
  settle-results srv_id srv status sys = elim (Bool-cases (finished srv)) [
    | inl e ↦ rw e refl
    | inr e ↦ rw e refl
  ]

  deliver-results :
      (o : Option ServerContext) (res : WorkerResult) (sys : System)
      → (deliver setup o res sys).results ≡ sys.results
  deliver-results none res sys = refl
  deliver-results (some srv) res sys =
      let r = apply_results srv res setup.srv_max_failures sys.status in
      settle-results res.srv_id r.0 r.1 (crash_if (not (ltb res.check_id (length srv.checks))) sys)

  collect_one-results :
      (res : WorkerResult) (sys : System) → (collect_one setup res sys).results ≡ sys.results
  unfolding collect_one
  collect_one-results res sys = deliver-results (get sys.pool res.srv_id) res _

  module _ (t : ℕ) where
    drain-HasRoom :
        (k : ℕ) (sys : System) → k ≡ length sys.results → Inv t sys → HasRoom (drain setup k sys)
    drain-HasRoom zero sys e h =
        unfold drain in
        empty-HasRoom t sys h (elim (List-cases sys.results) [
          | inl nil ↦ nil
          | inr (res, rest, cons) ↦ absurd (omega (arith, ap length cons))
        ])
    drain-HasRoom (suc k) sys e h = elim (List-cases sys.results) [
      | inl nil ↦ rw (drain-nil setup t k sys nil) (empty-HasRoom t sys h nil)
      | inr (res, rest, cons) ↦
          let sys' = collect_one setup res (record sys { results = rest }) in
          rw (drain-cons setup t k sys res rest cons) (
            drain-HasRoom k sys'
              (omega (
                arith,
                ap length cons,
                ap length (collect_one-results res (record sys { results = rest })),
              ))
              (collect_one-Inv setup t res rest sys cons h))
    ]

    collect_loop-HasRoom :
        (before : List (List Event)) (sys : System)
        → Inv t sys
        → HasRoom (collect_loop setup before sys)
    collect_loop-HasRoom [] sys h =
        unfold collect_loop in drain-HasRoom (length sys.results) sys refl h
    collect_loop-HasRoom (es ∷ more) sys h =
        let sys' = happen_all setup es sys in
        let h' : Inv t sys' = happen_all-Inv setup t es sys h in
        elim (List-cases sys'.results) [
          | inl e ↦ rw (loop-nil setup t es more sys e) (empty-HasRoom t sys' h' e)
          | inr (res, rest, e) ↦ rw (loop-cons setup t es more sys res rest e) (
              collect_loop-HasRoom more (collect_one setup res (record sys' { results = rest }))
                (collect_one-Inv setup t res rest sys' e h'))
        ]

  finish_turn-ended :
      (turn : Turn) (b : Bool) (s : System × Tally)
      → (finish_turn setup turn b s).1 ≡ true
      → is_drained (notify setup turn.now s).pool ≡ true
  unfolding finish_turn
  finish_turn-ended turn b s e = ground arith

  finish_turn-HasRoom :
      (turn : Turn) (b : Bool) (s : System × Tally) (sys : System)
      → HasRoom sys
      → IsQuiet sys s.0
      → (finish_turn setup turn b s).1 ≡ true
      → HasRoom (finish_turn setup turn b s).0
  unfolding is_drained
  finish_turn-HasRoom turn b s sys h quiet e =
      let drained = finish_turn-ended turn b s e in
      let all : IsQuiet sys (notify setup turn.now s) =
        IsQuiet-then quiet (notify-IsQuiet setup turn.now s) in
      let none_left : length (notify setup turn.now s).pool.pool ≡ 0 =
        ground (arith, drained, ==_iff (length (notify setup turn.now s).pool.pool) 0) in
      rw (finish_end setup turn b s drained) (all.room (sym all.same_size ∙ none_left) h)

  module _ (t : ℕ) (pos_t : 0 < t) where
    take_turn-HasRoom :
        (turn : Turn) (sys : System)
        → Inv t sys
        → (take_turn setup turn sys).1 ≡ true
        → HasRoom (take_turn setup turn sys).0
    unfolding take_turn
    take_turn-HasRoom turn sys h e =
        let collected = collect_loop setup turn.before_receives sys in
        let ready = happen_all setup turn.before_scheduling collected in
        let s = schedule_passes setup turn (can_grow ready.pool) (ready, fresh_tally setup ready) in
        finish_turn-HasRoom turn (can_grow ready.pool) s collected
          (collect_loop-HasRoom t turn.before_receives sys h)
          (IsQuiet-then (happen_all-IsQuiet setup turn.before_scheduling collected) (
            schedule_passes-IsQuiet setup turn (can_grow ready.pool)
              (ready, fresh_tally setup ready)))
          e

    -- From a system where the invariant holds for a template of at least one check: when the loop of
    -- `scheduleChecks` has ended, the channel has room for the results of all workers that still run,
    -- so that none blocks and the wait for them is not a deadlock.
    pub schedule_checks-HasRoom :
        (turns : List Turn) (sys : System)
        → Inv t sys
        → (schedule_checks setup turns sys).1 ≡ true
        → HasRoom (schedule_checks setup turns sys).0
    schedule_checks-HasRoom [] sys h e = absurd (unfold schedule_checks in false≢true e)
    schedule_checks-HasRoom (turn ∷ turns) sys h e =
        elim (Bool-cases ((take_turn setup turn sys).1)) [
          | inl done ↦ rw (checks_end setup turn turns sys done) (take_turn-HasRoom turn sys h done)
          | inr more ↦ rw (checks_more setup turn turns sys more) (
              schedule_checks-HasRoom turns (take_turn setup turn sys).0
                (take_turn-Inv setup t pos_t turn sys h)
                (sym (ap (λ r. r.1) (checks_more setup turn turns sys more)) ∙ e))
        ]
