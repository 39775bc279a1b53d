-- ===== src/Dnsanitize/Once/Runs.antt =====
-- internal/dnsanitize/dnsanitize.go, `DNSanitize`, and serverpool.go, `LoadN`: where the checks of the servers
-- are.
use dnsanity.Common.{ℕ, ◌≡◌, Bool, List, some, length}
use dnsanity.Dnsanitize.Slots.{find}
use dnsanity.Dnsanitize.Pool.{new_server_pool}
use dnsanity.Dnsanitize.RateLimiter.{Floats}
use dnsanity.Dnsanitize.System.{System, Setup, Turn}
use dnsanity.Dnsanitize.Scheduler.{Settings, dnsanitize}
use dnsanity.Dnsanitize.Invariant.{Inv}
use dnsanity.Dnsanitize.Conservation.{IsSetup, fresh_status, dnsanitize-Inv}
use dnsanity.Dnsanitize.Induction.Runs.{dnsanitize_induction}
use dnsanity.Dnsanitize.Once.{Once}
use dnsanity.Dnsanitize.Once.Steps.{Once-IsStepwise}
use dnsanity.Dnsanitize.Once.Counts.{AllLocated, Once-AllLocated}
use dnsanity.Report.Status.{IoFiles}

-- With a bucket that fits 63 bits and a template of at least one check, the invariant holds after any turns of
-- a run of `DNSanitize`, however the network answers and the goroutines interleave: the workers fit the slots
-- of `JobLimiter`, `inFlight` counts the jobs of each server, the tokens stay within the bucket, and the
-- counters of the status add up with the work that is left. Each check of a server in the pool is pending, at
-- a worker or in the channel of results, in one of these places and once; or in none of them, and so many are
-- the checks that the server counts as completed.
pub dnsanitize-AllLocated :
    (fl : Floats) (setup : Setup) (s : Settings) (turns : List Turn) (io : IoFiles) (now : ℕ)
    {sys : System} {done : Bool}
    → IsSetup fl setup s
    → dnsanitize fl setup s turns (fresh_status io now setup s) ≡ some (sys, done)
    → Inv (length setup.template) sys × AllLocated (length setup.template) sys
dnsanitize-AllLocated fl setup s turns io now ok e =
    let inv = dnsanitize-Inv fl setup s turns io now ok e in
    (
      inv,
      Once-AllLocated (length setup.template) _ inv (
          dnsanitize_induction fl setup s turns io now Once
            (Once-IsStepwise setup (length setup.template))
            (λ limiter. record { once = λ k i srv q. absurd (unfold new_server_pool find in cc) })
            ok e),
    )
