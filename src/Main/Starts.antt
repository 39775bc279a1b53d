-- ===== src/Main/Starts.antt =====
-- main.go: that the two runs start.
use dnsanity.Common.{
  ℕ, ◌<◌, ◌^◌, ◌≡◌, ◌≢◌, refl, ap, ◌∙◌, Bool, true, false, List, Option, none, some, length, ltb,
  Result, ok, fail, arith, Bool-cases, inl, inr,
}
use dnsanity.Common.Int.{ℤ, pos, negsuc, ltb_ℤ}
use dnsanity.Text.{Bytes}
use dnsanity.Dns.Template.{Template}
use dnsanity.Dns.Glob.{is_empty}
use dnsanity.Dns.Template.Load.Nonempty.{new_template-length, new_template_from_file-length}
use dnsanity.Report.Metrics.{second}
use dnsanity.Report.Status.{IoFiles, StatusReporter}
use dnsanity.Dnsanitize.RateLimiter.{RateLimiter, Floats, new_rate_limiter}
use dnsanity.Dnsanitize.System.{System, Setup, Turn}
use dnsanity.Dnsanitize.Scheduler.{Settings, run_with, dnsanitize}
use dnsanity.Dnsanitize.Conservation.{IsSetup, fresh_status}
use dnsanity.Dnsanitize.Crashes.{dnsanitize-NoCrash}
use dnsanity.Config.Options.{Options, default_template}
use dnsanity.Config.Init.{Env, Config, InitError, read_template, init}
use dnsanity.Config.Init.Laws.{init_iff, check_limits-IsLimited}
use dnsanity.Main.{
  World, Reached, refused, panicked, unfinished, exited, settings_for, alive, start_run, validation,
  sanitization, after_sanitization, after_validation, after_init, main,
}

-- `float64` is exact below 2^53, so that a rate of `g` with a burst of one second makes `g` tokens, and
-- the quotient of a number by itself is 1.
pub record IsExact (fl : Floats) : Type 0 where
  pub tokens : (g : ℕ) → g < 2 ^ 53 → fl.tokens_of (pos g) (pos second) ≡ g
  pub interval : (g : ℕ) → 0 < g → g < 2 ^ 53 → fl.interval_of g (pos g) ≡ pos second

limiter-made :
    (fl : Floats) (g : ℕ)
    → IsExact fl
    → 0 < g
    → g < 2 ^ 53
    → (tb : RateLimiter) × (new_rate_limiter fl (pos g) (pos second) ≡ some tb)
unfolding new_rate_limiter
limiter-made fl g exact some_g small = (
  record {
    tokens = g;
    max_tokens = g;
    refill_amount = g;
    refill_interval = pos second;
    stopped = false;
  },
  rw (low, exact.tokens g small, one, exact.interval g some_g small) refl,
)
  where
    low : ltb_ℤ (pos g) (pos 1) ≡ false
    low = ground arith

    one : ltb g 1 ≡ false
    one = ground arith

read_template-length :
    {F : Type 0} (env : Env F) (opts : Options F) {t : Template}
    → read_template env opts ≡ ok t
    → 0 < length t
unfolding read_template
read_template-length env opts e = elim (Bool-cases (is_empty opts.template)) [
  | inl q ↦ new_template-length default_template (rw q at e)
  | inr q ↦
      new_template_from_file-length opts.template (env.template_file opts.template) (rw q at e)
]

exited-no_panic : (n : ℕ) → exited n ≢ panicked
exited-no_panic n q = cc

unfinished-no_panic : unfinished ≢ panicked
unfinished-no_panic q = cc

refused-no_panic : (e : InitError) → refused e ≢ panicked
refused-no_panic e q = cc

-- A configuration with which both runs start
pub record IsReady {F : Type 0} (g : ℕ) (conf : Config F) : Type 0 where
  pub rate : conf.opts.glob_rate_limit ≡ pos g
  pub some_rate : 0 < g
  pub some_threads : (n : ℕ) × (conf.opts.threads ≡ pos n)
  pub some_check : 0 < length conf.template

at_least_1 : (z : ℤ) → ltb_ℤ z (pos 1) ≡ false → (n : ℕ) × (z ≡ pos n) × (0 < n)
at_least_1 (pos n) e = (n, refl, ground arith)
at_least_1 (negsuc n) e = absurd (ground arith)

pub init-IsReady :
    {F : Type 0} (env : Env F) (opts : Options F) (g : ℕ) (conf : Config F)
    → opts.glob_rate_limit ≡ pos g
    → g < 2 ^ 53
    → (init env opts).result ≡ ok conf
    → IsReady g conf
init-IsReady env opts g conf rate small e =
    let (h, opened, limited) = (init_iff env opts conf).0 e in
    let (bounds, same) = check_limits-IsLimited opts conf.opts g rate (omega arith) limited in
    let rate' : conf.opts.glob_rate_limit ≡ pos g = ap (λ o. o.glob_rate_limit) same ∙ rate in
    let (n, threads, some_n) = at_least_1 conf.opts.threads bounds.some_threads in
    record {
      rate = rate';
      some_rate = ground (arith, ap (λ z. ltb_ℤ z (pos 1)) rate', bounds.some_rate);
      some_threads = (n, threads);
      some_check = read_template-length env opts h.template_read;
    }

some-alive :
    (reached : Reached) (r : System × Bool)
    → reached ≡ some r
    → r.0.crashed ≡ false
    → alive reached ≡ some r
some-alive reached (sys, done) e h = rw (e, h) refl

module _ {F : Type 0} (w : World F) (g : ℕ) (exact : IsExact w.floats) (small : g < 2 ^ 53) where
  -- The settings of such a run fit.
  pub run-IsSetup :
      (setup : Setup) (opts : Options F) (n : ℕ) (ips : List Bytes) (attempts : ℤ)
      → opts.glob_rate_limit ≡ pos g
      → 0 < length setup.template
      → IsSetup w.floats setup (settings_for opts n ips attempts)
  run-IsSetup setup opts n ips attempts rate some_check = record {
    small_bucket =
        omega (arith, ap (λ z. w.floats.tokens_of z (pos second)) rate, exact.tokens g small);
    some_check = some_check;
  }

  run_with-runs :
      (setup : Setup) (s : Settings) (turns : List Turn) (status : StatusReporter)
      (o : Option RateLimiter) {tb : RateLimiter}
      → o ≡ some tb
      → (r : System × Bool) × (run_with setup s turns status o ≡ some r)
  run_with-runs setup s turns status none e = absurd (cc)
  run_with-runs setup s turns status (some limiter) e = (_, refl)

  -- A run with a rate of `g` starts.
  start_run-starts :
      (setup : Setup) (opts : Options F) (threads : ℤ) (n : ℕ) (ips : List Bytes) (attempts : ℤ)
      (io : IoFiles) (now : ℕ) (turns : List Turn)
      → opts.glob_rate_limit ≡ pos g
      → 0 < g
      → 0 < length setup.template
      → threads ≡ pos n
      → (r : System × Bool) × (start_run w setup opts threads ips attempts io now turns ≡ some r)
  unfolding start_run dnsanitize
  start_run-starts setup opts (negsuc m) n ips attempts io now turns rate some_g some_check e =
      absurd (cc)
  start_run-starts setup opts (pos m) n ips attempts io now turns rate some_g some_check e =
      let s = settings_for opts m ips attempts in
      let (tb, made) = limiter-made w.floats g exact some_g small in
      let (r, run) =
        run_with-runs setup s turns (fresh_status io now setup s)
          (new_rate_limiter w.floats opts.glob_rate_limit (pos second))
          (ap (λ z. new_rate_limiter w.floats z (pos second)) rate ∙ made) in
      (
        r,
        some-alive _ r run (
            dnsanitize-NoCrash w.floats setup s turns io now
              (run-IsSetup setup opts m ips attempts rate some_check) run),
      )

  module _ (conf : Config F) (ready : IsReady g conf) where
    validation-starts :
        (turns : List Turn) → (r : System × Bool) × (validation w conf turns ≡ some r)
    unfolding validation
    validation-starts turns =
        let (n, threads) = ready.some_threads in
        start_run-starts _ conf.opts conf.opts.threads n conf.trusted_list
          conf.opts.trusted_attempts _ w.start_1 turns ready.rate ready.some_rate ready.some_check
          threads

    sanitization-starts :
        (turns : List Turn) → (r : System × Bool) × (sanitization w conf turns ≡ some r)
    unfolding sanitization
    sanitization-starts turns =
        let (n, threads) = ready.some_threads in
        start_run-starts _ conf.opts conf.opts.threads n conf.untrusted_list conf.opts.attempts _
          w.start_2 turns ready.rate ready.some_rate ready.some_check threads

    after_sanitization-no_panic :
        (reached : Reached) {r : System × Bool}
        → reached ≡ some r
        → (after_sanitization w reached).ending ≢ panicked
    unfolding after_sanitization
    after_sanitization-no_panic none e q = absurd (cc)
    after_sanitization-no_panic (some (sys, false)) e q = unfinished-no_panic q
    after_sanitization-no_panic (some (sys, true)) e q = exited-no_panic 0 q

    after_validation-no_panic :
        (turns : List Turn) (reached : Reached) {r : System × Bool}
        → reached ≡ some r
        → (after_validation w conf turns reached).ending ≢ panicked
    unfolding after_validation
    after_validation-no_panic turns none e q = absurd (cc)
    after_validation-no_panic turns (some (sys, false)) e q = unfinished-no_panic q
    after_validation-no_panic turns (some (sys, true)) e q =
        elim (Bool-cases (ltb 0 sys.status.servers_with_failures)) [
          | inl failed ↦ exited-no_panic 3 (rw failed at q)
          | inr passed ↦
              after_sanitization-no_panic (sanitization w conf turns) (sanitization-starts turns).1
                (rw passed at q)
        ]

  after_init-no_panic :
      (env : Env F) (opts : Options F) (turns_1 turns_2 : List Turn)
      (r : Result InitError (Config F))
      → opts.glob_rate_limit ≡ pos g
      → (init env opts).result ≡ r
      → (after_init w turns_1 turns_2 r).ending ≢ panicked
  unfolding after_init
  after_init-no_panic env opts turns_1 turns_2 (fail e) rate q = refused-no_panic e
  after_init-no_panic env opts turns_1 turns_2 (ok conf) rate q =
      let ready = init-IsReady env opts g conf rate small q in
      after_validation-no_panic conf ready turns_2 (validation w conf turns_1)
        (validation-starts conf ready turns_1).1

  -- Where `float64` is exact below 2^53 and the global rate is a natural number below 2^53, `main` does not
  -- panic at making the channels and the rate limiter of a run, nor at an index of its scheduler into the
  -- pending checks of a server, the template or the checks of a server, whatever the other options, the
  -- files, the network, the order of the turns and the interleaving of the goroutines are.
  pub main-no_panic :
      (env : Env F) (opts : Options F) (turns_1 turns_2 : List Turn)
      → opts.glob_rate_limit ≡ pos g
      → (main w env opts turns_1 turns_2).ending ≢ panicked
  unfolding main
  main-no_panic env opts turns_1 turns_2 rate =
      after_init-no_panic env opts turns_1 turns_2 (init env opts).result rate refl
