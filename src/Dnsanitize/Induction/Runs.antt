-- ===== src/Dnsanitize/Induction/Runs.antt =====
-- internal/dnsanitize/dnsanitize.go: induction over whole runs of `DNSanitize`.
use dnsanity.Common.{
  ℕ, ◌<◌, ◌≡◌, refl, subst, Bool, List, Option, none, some, some-injective, length,
}
use dnsanity.Common.Int.{pos}
use dnsanity.Report.Metrics.{second}
use dnsanity.Report.Status.{IoFiles}
use dnsanity.Dnsanitize.RateLimiter.{RateLimiter, Floats, new_rate_limiter, stop_refiller}
use dnsanity.Dnsanitize.RateLimiter.Laws.{new_rate_limiter-IsBucket}
use dnsanity.Dnsanitize.System.{System, Setup, Turn}
use dnsanity.Dnsanitize.Scheduler.{schedule_checks, Settings, initial, run_with, dnsanitize}
use dnsanity.Dnsanitize.Invariant.{Inv}
use dnsanity.Dnsanitize.Conservation.{IsSetup, fresh_status, initial-Inv}
use dnsanity.Dnsanitize.Induction.{IsStepwise}
use dnsanity.Dnsanitize.Induction.Turns.{schedule_checks_induction}

module _ (fl : Floats) (setup : Setup) (s : Settings) (turns : List Turn) (io : IoFiles) (now : ℕ)
    (P : System → Type 0) (steps : IsStepwise setup (length setup.template) P)
    (first : (limiter : RateLimiter)
      → P (initial setup s limiter (fresh_status io now setup s))) where
  run_with_induction :
      (o : Option RateLimiter) {r : System × Bool}
      → 0 < length setup.template
      → ((limiter : RateLimiter)
          → o ≡ some limiter
          → Inv (length setup.template) (initial setup s limiter (fresh_status io now setup s)))
      → run_with setup s turns (fresh_status io now setup s) o ≡ some r
      → P r.0
  run_with_induction none pos_t start e = absurd (cc)
  run_with_induction (some limiter) pos_t start e =
      let sys = initial setup s limiter (fresh_status io now setup s) in
      let r = schedule_checks setup turns sys in
      let p : P r.0 =
        (schedule_checks_induction setup (length setup.template) pos_t P steps turns sys
          (start limiter refl) (first limiter)).1 in
      subst (λ (q : System × Bool). P q.0) (some-injective e)
        (steps.by_limiter (stop_refiller r.0.limiter) r.0 p)

  -- A predicate that holds at the start and that each smallest step keeps holds after any turns of a run.
  pub dnsanitize_induction :
      {sys : System} {done : Bool}
      → IsSetup fl setup s
      → dnsanitize fl setup s turns (fresh_status io now setup s) ≡ some (sys, done)
      → P sys
  unfolding dnsanitize
  dnsanitize_induction ok e =
      run_with_induction (new_rate_limiter fl s.glob_rate_limit (pos second)) ok.some_check
        (λ limiter q.
          initial-Inv io now setup s limiter
            ((new_rate_limiter-IsBucket fl s.glob_rate_limit (pos second) ok.small_bucket q).0))
        e
