-- ===== src/Dnsanitize/Trusted/Runs.antt =====
-- internal/dnsanitize/dnsanitize.go, `DNSanitize`: whole runs with a threshold above the number of checks.
use dnsanity.Common.{ℕ, ◌<◌, ◌≡◌, refl, ap, ◌∙◌, Bool, true, false, List, some, arith, length}
use dnsanity.Common.Int.{pos}
use dnsanity.Dns.Server.{ServerContext}
use dnsanity.Report.Status.{IoFiles, new_status_reporter}
use dnsanity.Dnsanitize.Slots.{find}
use dnsanity.Dnsanitize.Pool.{new_server_pool}
use dnsanity.Dnsanitize.RateLimiter.{Floats}
use dnsanity.Dnsanitize.System.{System, Setup, Turn}
use dnsanity.Dnsanitize.Scheduler.{Settings, dnsanitize}
use dnsanity.Dnsanitize.Conservation.{IsSetup, fresh_status, dnsanitize-Inv, dnsanitize-finished}
use dnsanity.Dnsanitize.Induction.Runs.{dnsanitize_induction}
use dnsanity.Dnsanitize.Trusted.{NoneDropped, NoneDropped-IsStepwise}

dnsanitize-NoneDropped :
    (fl : Floats) (setup : Setup) (s : Settings) (turns : List Turn) (io : IoFiles) (now n : ℕ)
    {sys : System} {done : Bool}
    → IsSetup fl setup s
    → setup.srv_max_failures ≡ pos n
    → length setup.template < n
    → dnsanitize fl setup s turns (fresh_status io now setup s) ≡ some (sys, done)
    → NoneDropped sys
dnsanitize-NoneDropped fl setup s turns io now n ok threshold few e =
    dnsanitize_induction fl setup s turns io now NoneDropped
      (NoneDropped-IsStepwise setup (length setup.template) n few threshold)
      (λ limiter. record {
        fair = λ k srv q. absurd (unfold new_server_pool find in cc);
        none_invalid = unfold new_status_reporter in refl;
      })
      ok e

-- With a bucket that fits 63 bits, a template of at least one check and a threshold `srv_max_failures`
-- above the number of checks, a run of `DNSanitize` never drops a server, however the network answers and
-- the goroutines interleave: after any turns no server is invalid and none of the pool is disabled, and
-- where the loop has ended all servers of the list are valid.
pub dnsanitize-drops_none :
    (fl : Floats) (setup : Setup) (s : Settings) (turns : List Turn) (io : IoFiles) (now n : ℕ)
    {sys : System} {done : Bool}
    → IsSetup fl setup s
    → setup.srv_max_failures ≡ pos n
    → length setup.template < n
    → dnsanitize fl setup s turns (fresh_status io now setup s) ≡ some (sys, done)
    → (sys.status.invalid_servers ≡ 0)
      × ((k : ℕ) (srv : ServerContext) → find k sys.pool.pool ≡ some srv → srv.disabled ≡ false)
      × (done ≡ true → sys.status.valid_servers ≡ length s.server_ips)
dnsanitize-drops_none fl setup s turns io now n {sys} {done} ok threshold few e =
    let h = dnsanitize-NoneDropped fl setup s turns io now n ok threshold few e in
    let inv = dnsanitize-Inv fl setup s turns io now ok e in
    (
      h.none_invalid,
      λ k srv found. (inv.active k srv found).enabled,
      λ q. omega (
        arith,
        h.none_invalid,
        (dnsanitize-finished fl setup s turns io now ok (e ∙ ap (λ b. some (sys, b)) q)).1,
      ),
    )
