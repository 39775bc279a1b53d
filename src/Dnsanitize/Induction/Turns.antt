-- ===== src/Dnsanitize/Induction/Turns.antt =====
-- internal/dnsanitize/dnsanitize.go: induction over whole turns of `scheduleChecks`.
use dnsanity.Common.{
  ℕ, ◌<◌, Bool, true, false, ◌&&◌, List, [], ◌∷◌, inl, inr, ltb, ◌==◌, Bool-cases, min,
}
use dnsanity.Common.Int.{ℤ, pos, negsuc}
use dnsanity.Dnsanitize.Pool.{ServerPool, len, load_n, can_grow, is_drained}
use dnsanity.Dnsanitize.RateLimiter.{remaining}
use dnsanity.Dnsanitize.System.{System, Tally, Setup, Turn, happen_all}
use dnsanity.Dnsanitize.Collect.{collect_loop}
use dnsanity.Dnsanitize.Dispatch.{schedule_passes}
use dnsanity.Dnsanitize.Scheduler.{
  notify, grown, load_up_to, grow, idle_wait, fresh_tally, finish_turn, take_turn, schedule_checks,
}
use dnsanity.Dnsanitize.Invariant.{Inv}
use dnsanity.Dnsanitize.Invariant.Turns.{
  update_pool_size-same, told-same, growth_told, finish_end, finish_more, checks_end, checks_more,
}
use dnsanity.Dnsanitize.Induction.{
  IsStepwise, Both, by_status', by_events, by_receives, by_passes, by_load_loop,
}

module _ (setup : Setup) (t : ℕ) (pos_t : 0 < t) (P : System → Type 0)
    (steps : IsStepwise setup t P) where
  abbrev Carried : System → Type 0
  Carried = Both setup t pos_t P steps

  by_notify :
      (now : ℕ) (sys : System) (tally : Tally)
      → Carried sys
      → Carried (notify setup now (sys, tally))
  unfolding notify
  by_notify now sys tally b = elim (Bool-cases (ltb 0 tally.num_scheduled)) [
    | inl e ↦ rw e (
        by_status' setup t pos_t P steps _ sys
          (told-same tally.busy_jobs now tally.num_idle tally.num_busy sys.status) b)
    | inr e ↦ rw e b
  ]

  by_grown :
      (pool : ServerPool) (growth : ℕ) (sys : System)
      → Carried (record sys { pool = pool })
      → Carried (grown setup (pool, growth) sys).0
  by_grown pool growth sys b = elim (Bool-cases (ltb 0 growth)) [
    | inl e ↦ rw e (
        by_status' setup t pos_t P steps _ (record sys { pool = pool })
          (growth_told setup t pos_t (len pool) _ sys.status) b)
    | inr e ↦ rw e b
  ]

  by_load_up_to : (z : ℤ) (sys : System) → Carried sys → Carried (load_up_to setup z sys).0
  unfolding load_n
  by_load_up_to (pos n) sys b =
      let to_load = min (remaining sys.limiter) n in
      elim (Bool-cases (ltb 0 to_load)) [
        | inl e ↦ rw e (
            by_grown (load_n to_load sys.pool).0 (load_n to_load sys.pool).1 sys
              (by_load_loop setup t pos_t P steps to_load 0 sys b))
        | inr e ↦ rw e b
      ]
  by_load_up_to (negsuc n) sys b = b

  by_grow : (c : Bool) (z : ℤ) (sys : System) → Carried sys → Carried (grow setup c z sys).0
  unfolding grow
  by_grow true z sys b = by_load_up_to z sys b
  by_grow false z sys b = b

  by_wait : (n growth : ℕ) (sys : System) → Carried sys → Carried (idle_wait setup n (sys, growth))
  by_wait n growth sys b = elim (Bool-cases (n == 0 && growth == 0)) [
    | inl e ↦
        rw e (
          by_status' setup t pos_t P steps _ sys (update_pool_size-same (len sys.pool) sys.status)
            b)
    | inr e ↦ rw e b
  ]

  by_finish :
      (turn : Turn) (c : Bool) (s : System × Tally)
      → Carried s.0
      → Carried (finish_turn setup turn c s).0
  by_finish turn c (sys, tally) b =
      let told = notify setup turn.now (sys, tally) in
      let b' : Carried told = by_notify turn.now sys tally b in
      elim (Bool-cases (is_drained told.pool)) [
        | inl e ↦ rw (finish_end setup turn c (sys, tally) e) b'
        | inr e ↦ rw (finish_more setup turn c (sys, tally) e) (
            by_wait tally.num_scheduled _ _ (
              by_grow c tally.free_jobs (happen_all setup turn.before_growth told)
                (by_events setup t pos_t P steps turn.before_growth told b')))
      ]

  by_turn : (turn : Turn) (sys : System) → Carried sys → Carried (take_turn setup turn sys).0
  unfolding take_turn
  by_turn turn sys b =
      let collected = collect_loop setup turn.before_receives sys in
      let ready = happen_all setup turn.before_scheduling collected in
      by_finish turn (can_grow ready.pool)
        (schedule_passes setup turn (can_grow ready.pool) (ready, fresh_tally setup ready))
        (by_passes setup t pos_t P steps turn (can_grow ready.pool) (ready, fresh_tally setup ready)
          (by_events setup t pos_t P steps turn.before_scheduling collected
            (by_receives setup t pos_t P steps turn.before_receives sys b)))

  -- A predicate that each smallest step keeps is kept by any turns.
  pub schedule_checks_induction :
      (turns : List Turn) (sys : System)
      → Inv t sys
      → P sys
      → Inv t (schedule_checks setup turns sys).0 × P (schedule_checks setup turns sys).0
  schedule_checks_induction [] sys h p = unfold schedule_checks in (h, p)
  schedule_checks_induction (turn ∷ turns) sys h p =
      elim (Bool-cases ((take_turn setup turn sys).1)) [
        | inl e ↦ rw (checks_end setup turn turns sys e) (by_turn turn sys (h, p))
        | inr e ↦
            let b : Carried (take_turn setup turn sys).0 = by_turn turn sys (h, p) in
            rw (checks_more setup turn turns sys e)
              (schedule_checks_induction turns (take_turn setup turn sys).0 b.0 b.1)
      ]
