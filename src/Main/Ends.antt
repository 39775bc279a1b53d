-- ===== src/Main/Ends.antt =====
-- main.go: what an exit with code 0 says of the two runs.
use dnsanity.Common.{
  ℕ, ◌+◌, ◌<◌, ◌^◌, ◌≡◌, ◌≢◌, refl, Bool, true, false, List, Option, none, some, length, ltb,
  Result, ok, fail, arith, if◌then◌else◌, Bool-cases, inl, inr,
}
use dnsanity.Common.Int.{ℤ, pos, negsuc}
use dnsanity.Text.{Bytes}
use dnsanity.Report.Status.{IoFiles, StatusReporter, is_finished}
use dnsanity.Dnsanitize.System.{System, Setup, Turn}
use dnsanity.Dnsanitize.Conservation.{dnsanitize-finished}
use dnsanity.Dnsanitize.Trusted.Runs.{dnsanitize-drops_none}
use dnsanity.Config.Options.{Options}
use dnsanity.Config.Init.{Env, Config, InitError, init}
use dnsanity.Main.{
  World, Reached, refused, panicked, unfinished, exited, settings_for, alive, start_run, validation,
  sanitization, after_sanitization, after_validation, after_init, main,
}
use dnsanity.Main.Starts.{IsExact, IsReady, init-IsReady, run-IsSetup}

refused-no_exit : (e : InitError) (n : ℕ) → refused e ≢ exited n
refused-no_exit e n q = cc

panicked-no_exit : (n : ℕ) → panicked ≢ exited n
panicked-no_exit n q = cc

unfinished-no_exit : (n : ℕ) → unfinished ≢ exited n
unfinished-no_exit n q = cc

exited_3-no_exit : exited 3 ≢ exited 0
exited_3-no_exit q = cc

-- What an exit with code 0 means for the two runs of a configuration
pub record Succeeded {F : Type 0} (w : World F) (conf : Config F) (turns_1 turns_2 : List Turn)
    (report : Option StatusReporter) : Type 0 where
  pub trusted : System
  pub trusted_run : validation w conf turns_1 ≡ some (trusted, true)
  pub no_failure : trusted.status.servers_with_failures ≡ 0
  pub all_valid : trusted.status.valid_servers ≡ length conf.trusted_list
  pub final : System
  pub final_run : sanitization w conf turns_2 ≡ some (final, true)
  pub reported : report ≡ some final.status
  pub all_counted :
      final.status.valid_servers + final.status.invalid_servers ≡ length conf.untrusted_list
  pub all_done : final.status.total_checks ≡ final.status.done_checks

unless-some :
    (b : Bool) (x : System × Bool) {r : System × Bool}
    → (if b then none else some x) ≡ some r
    → some x ≡ some r
unless-some true x e = absurd (cc)
unless-some false x e = e

alive-some : (reached : Reached) {r : System × Bool} → alive reached ≡ some r → reached ≡ some r
alive-some none e = cc
alive-some (some (sys, done)) e = unless-some sys.crashed (sys, done) e

module _ {F : Type 0} (w : World F) (g : ℕ) (exact : IsExact w.floats) (small : g < 2 ^ 53) where
  -- A run that has ended, of a reached system
  start_run-finished :
      (setup : Setup) (opts : Options F) (threads : ℤ) (ips : List Bytes) (attempts : ℤ)
      (io : IoFiles) (now : ℕ) (turns : List Turn) {sys : System}
      → opts.glob_rate_limit ≡ pos g
      → 0 < length setup.template
      → start_run w setup opts threads ips attempts io now turns ≡ some (sys, true)
      → (sys.status.total_checks ≡ sys.status.done_checks)
        × (sys.status.valid_servers + sys.status.invalid_servers ≡ length ips)
        × (is_finished sys.status ≡ true)
  unfolding start_run
  start_run-finished setup opts (negsuc m) ips attempts io now turns rate some_check e = absurd (cc)
  start_run-finished setup opts (pos m) ips attempts io now turns rate some_check e =
      let s = settings_for opts m ips attempts in
      dnsanitize-finished w.floats setup s turns io now
        (run-IsSetup w g exact small setup opts m ips attempts rate some_check) (alive-some _ e)

  start_run-drops_none :
      (setup : Setup) (opts : Options F) (threads : ℤ) (ips : List Bytes) (attempts : ℤ)
      (io : IoFiles) (now n : ℕ) (turns : List Turn) {sys : System}
      → opts.glob_rate_limit ≡ pos g
      → 0 < length setup.template
      → setup.srv_max_failures ≡ pos n
      → length setup.template < n
      → start_run w setup opts threads ips attempts io now turns ≡ some (sys, true)
      → (sys.status.invalid_servers ≡ 0) × (sys.status.valid_servers ≡ length ips)
  unfolding start_run
  start_run-drops_none setup opts (negsuc m) ips attempts io now n turns rate some_check threshold
        few e =
      absurd (cc)
  start_run-drops_none setup opts (pos m) ips attempts io now n turns rate some_check threshold few
        e =
      let s = settings_for opts m ips attempts in
      let (none_invalid, enabled, all_valid) =
        dnsanitize-drops_none w.floats setup s turns io now n
          (run-IsSetup w g exact small setup opts m ips attempts rate some_check) threshold few
          (alive-some _ e) in
      (none_invalid, all_valid refl)

  module _ (conf : Config F) (ready : IsReady g conf) (turns_1 turns_2 : List Turn) where
    sanitization-finished :
        {sys : System}
        → sanitization w conf turns_2 ≡ some (sys, true)
        → (sys.status.total_checks ≡ sys.status.done_checks)
          × (sys.status.valid_servers + sys.status.invalid_servers ≡ length conf.untrusted_list)
          × (is_finished sys.status ≡ true)
    unfolding sanitization
    sanitization-finished run_2 =
        start_run-finished _ conf.opts conf.opts.threads conf.untrusted_list conf.opts.attempts _
          w.start_2 turns_2 ready.rate ready.some_check run_2

    validation-drops_none :
        {sys : System}
        → validation w conf turns_1 ≡ some (sys, true)
        → (sys.status.invalid_servers ≡ 0) × (sys.status.valid_servers ≡ length conf.trusted_list)
    unfolding validation
    validation-drops_none run_1 =
        start_run-drops_none _ conf.opts conf.opts.threads conf.trusted_list
          conf.opts.trusted_attempts _ w.start_1 (length conf.template + 1) turns_1 ready.rate
          ready.some_check refl (omega arith) run_1

    after_sanitization-Succeeded :
        (trusted : System) (reached : Reached)
        → validation w conf turns_1 ≡ some (trusted, true)
        → trusted.status.servers_with_failures ≡ 0
        → sanitization w conf turns_2 ≡ reached
        → (after_sanitization w reached).ending ≡ exited 0
        → Succeeded w conf turns_1 turns_2 (after_sanitization w reached).report
    unfolding after_sanitization
    after_sanitization-Succeeded trusted none run_1 passed run_2 e = absurd (panicked-no_exit 0 e)
    after_sanitization-Succeeded trusted (some (sys, false)) run_1 passed run_2 e =
        absurd (unfinished-no_exit 0 e)
    after_sanitization-Succeeded trusted (some (sys, true)) run_1 passed run_2 e =
        let (checks, servers, finished) = sanitization-finished run_2 in
        let (none_invalid, all_valid) = validation-drops_none run_1 in
        record {
          trusted = trusted;
          trusted_run = run_1;
          no_failure = passed;
          all_valid = all_valid;
          final = sys;
          final_run = run_2;
          reported = refl;
          all_counted = servers;
          all_done = checks;
        }

    after_validation-Succeeded :
        (reached : Reached)
        → validation w conf turns_1 ≡ reached
        → (after_validation w conf turns_2 reached).ending ≡ exited 0
        → Succeeded w conf turns_1 turns_2 (after_validation w conf turns_2 reached).report
    unfolding after_validation
    after_validation-Succeeded none run_1 e = absurd (panicked-no_exit 0 e)
    after_validation-Succeeded (some (sys, false)) run_1 e = absurd (unfinished-no_exit 0 e)
    after_validation-Succeeded (some (sys, true)) run_1 e =
        elim (Bool-cases (ltb 0 sys.status.servers_with_failures)) [
          | inl failed ↦ absurd (exited_3-no_exit (rw failed at e))
          | inr passed ↦ rw passed (
              after_sanitization-Succeeded sys (sanitization w conf turns_2) run_1
                (ground (arith, passed)) refl (rw passed at e))
        ]

  after_init-Succeeded :
      (env : Env F) (opts : Options F) (turns_1 turns_2 : List Turn)
      (r : Result InitError (Config F))
      → opts.glob_rate_limit ≡ pos g
      → (init env opts).result ≡ r
      → (after_init w turns_1 turns_2 r).ending ≡ exited 0
      → (conf : Config F) × ((init env opts).result ≡ ok conf)
        × Succeeded w conf turns_1 turns_2 (after_init w turns_1 turns_2 r).report
  unfolding after_init
  after_init-Succeeded env opts turns_1 turns_2 (fail e) rate q ended =
      absurd (refused-no_exit e 0 ended)
  after_init-Succeeded env opts turns_1 turns_2 (ok conf) rate q ended = (
    conf,
    q,
    after_validation-Succeeded conf (init-IsReady env opts g conf rate small q) turns_1 turns_2
        (validation w conf turns_1) refl ended,
  )

  -- Where `float64` is exact below 2^53 and the global rate is a natural number below 2^53, an exit of
  -- `main` with code 0 means: `Init` has accepted the options; the run of the validation has ended with
  -- every trusted server valid and none with a failure; the run on the list has ended with each of its
  -- servers valid or invalid and the done checks equal to the total; and its status is the one reported.
  pub main-Succeeded :
      (env : Env F) (opts : Options F) (turns_1 turns_2 : List Turn)
      → opts.glob_rate_limit ≡ pos g
      → (main w env opts turns_1 turns_2).ending ≡ exited 0
      → (conf : Config F) × ((init env opts).result ≡ ok conf)
        × Succeeded w conf turns_1 turns_2 (main w env opts turns_1 turns_2).report
  unfolding main
  main-Succeeded env opts turns_1 turns_2 rate ended =
      after_init-Succeeded env opts turns_1 turns_2 (init env opts).result rate refl ended
