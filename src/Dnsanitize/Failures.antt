-- ===== src/Dnsanitize/Failures.antt =====
-- internal/dnsanitize/dnsanitize.go, `applyResults`: the threshold at which a server is dropped.
use dnsanity.Common.{◌≡◌, false, ◌&&◌, arith, ltb, Option-cases, inl, inr, get_elem?}
use dnsanity.Common.Int.{ℤ, pos, leb_ℤ}
use dnsanity.Dns.Server.{CheckContext, ServerContext}
use dnsanity.Report.Status.{StatusReporter}
use dnsanity.Dnsanitize.System.{WorkerResult}
use dnsanity.Dnsanitize.Collect.{apply_to, apply_results}

apply_to-disabled :
    (chk : CheckContext) (srv : ServerContext) (res : WorkerResult) (n : ℤ)
    (status : StatusReporter)
    → srv.disabled ≡ false
    → let srv' = (apply_to chk srv res n status).0 in
      srv'.disabled ≡ (ltb srv.failed_count srv'.failed_count && leb_ℤ n (pos srv'.failed_count))
unfolding apply_to
apply_to-disabled chk srv res n status e = ground arith

-- A result disables an enabled server exactly where it adds a failure and the failures then are at
-- least `srv_max_failures`.
pub apply_results-disabled :
    (srv : ServerContext) (res : WorkerResult) (n : ℤ) (status : StatusReporter)
    → srv.disabled ≡ false
    → let srv' = (apply_results srv res n status).0 in
      srv'.disabled ≡ (ltb srv.failed_count srv'.failed_count && leb_ℤ n (pos srv'.failed_count))
unfolding apply_results
apply_results-disabled srv res n status e =
    elim (Option-cases (get_elem? srv.checks res.check_id)) [
      | inl q ↦ rw q (ground arith)
      | inr (chk, q) ↦ rw q (apply_to-disabled chk srv res n status e)
    ]
