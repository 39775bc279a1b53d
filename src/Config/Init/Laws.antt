-- ===== src/Config/Init/Laws.antt =====
-- internal/config/config.go, `Init`: the options that it accepts, and what it leaves behind.
use dnsanity.Common.{
  ℕ, ◌*◌, ◌<◌, ◌^◌, ◌≡◌, refl, sym, ap, ◌∙◌, ◌↔◌, Bool, true, false, List, some, Result, ok, fail,
  arith, Bool-cases, Option-cases, inl, inr, ok-injective, some-injective, bind_parts,
}
use dnsanity.Common.Int.{ℤ, pos, ltb_ℤ, eqb_ℤ}
use dnsanity.Text.{Bytes}
use dnsanity.Dns.Template.{Template}
use dnsanity.Config.ServerList.{parse_server_list}
use dnsanity.Config.Options.{Options, auto}
use dnsanity.Config.Init.{
  Env, InitError, bad_output, threads, max_poolsize, Output, stdout, created, Config, wrap_error,
  refuse_if, times_20, default_to, open_file, path_of, read_template, list_missing, check_inputs,
  check_limits, start_with, init,
}

-- The first checks that `Init` makes, and what they yield
pub record Accepted {F : Type 0} (env : Env F) (opts : Options F) (template : Template)
    (trusted untrusted : List Bytes) : Type 0 where
  pub template_read : read_template env opts ≡ ok template
  pub trusted_read :
      parse_server_list env.is_ip opts.trusted_dns (env.first_lookup opts.trusted_dns) ≡ ok trusted
  pub untrusted_read :
      parse_server_list env.is_ip opts.untrusted_dns (env.second_lookup opts.untrusted_dns)
      ≡ ok untrusted
  pub list_there : list_missing env opts ≡ false
  pub timeouts : (ltb_ℤ opts.trusted_timeout (pos 1) ≡ false) × (ltb_ℤ opts.timeout (pos 1) ≡ false)
  pub rates :
      (env.is_negative opts.trusted_rate_limit ≡ false) × (env.is_negative opts.rate_limit ≡ false)
  pub tries : (ltb_ℤ opts.trusted_attempts (pos 1) ≡ false) × (ltb_ℤ opts.attempts (pos 1) ≡ false)
  pub mismatches : ltb_ℤ opts.max_mismatches (pos 0) ≡ false

wrap-ok :
    {E A : Type 0} (f : E → InitError) (r : Result E A) {a : A} → wrap_error f r ≡ ok a → r ≡ ok a
wrap-ok f (ok a) q = ap ok (ok-injective q)
wrap-ok f (fail e) q = cc

refuse-ok : (b : Bool) (e : InitError) {u : Unit {0}} → refuse_if b e ≡ ok u → b ≡ false
refuse-ok true e q = cc
refuse-ok false e q = refl

module _ {F : Type 0} (env : Env F) (opts : Options F) where
  check_inputs-Accepted :
      {template : Template} {trusted untrusted : List Bytes}
      → check_inputs env opts ≡ ok (template, trusted, untrusted)
      → Accepted env opts template trusted untrusted
  unfolding check_inputs
  check_inputs-Accepted {template} {trusted} {untrusted} q0 =
      let (t, e1, q1) = bind_parts _ _ q0 in
      let (tr, e2, q2) = bind_parts _ _ q1 in
      let (u3, e3, q3) = bind_parts _ _ q2 in
      let (u4, e4, q4) = bind_parts _ _ q3 in
      let (u5, e5, q5) = bind_parts _ _ q4 in
      let (u6, e6, q6) = bind_parts _ _ q5 in
      let (un, e7, q7) = bind_parts _ _ q6 in
      let (u8, e8, q8) = bind_parts _ _ q7 in
      let (u9, e9, q9) = bind_parts _ _ q8 in
      let (u10, e10, q10) = bind_parts _ _ q9 in
      let (u11, e11, q11) = bind_parts _ _ q10 in
      let same : (t, tr, un) ≡ (template, trusted, untrusted) = ok-injective q11 in
      record {
        template_read = wrap-ok _ _ e1 ∙ ap (λ r. ok r.0) same;
        trusted_read = wrap-ok _ _ e2 ∙ ap (λ r. ok r.1) same;
        untrusted_read = wrap-ok _ _ e7 ∙ ap (λ r. ok r.2) same;
        list_there = refuse-ok _ _ e6;
        timeouts = (refuse-ok _ _ e3, refuse-ok _ _ e8);
        rates = (refuse-ok _ _ e4, refuse-ok _ _ e9);
        tries = (refuse-ok _ _ e5, refuse-ok _ _ e10);
        mismatches = refuse-ok _ _ e11;
      }

  Accepted-check_inputs :
      {template : Template} {trusted untrusted : List Bytes}
      → Accepted env opts template trusted untrusted
      → check_inputs env opts ≡ ok (template, trusted, untrusted)
  unfolding check_inputs
  Accepted-check_inputs h =
      rw
        (
          h.template_read, h.trusted_read, h.timeouts.0, h.rates.0, h.tries.0, h.list_there,
          h.untrusted_read, h.timeouts.1, h.rates.1, h.tries.1, h.mismatches,
        )
        refl

  start-ok :
      {conf : Config F} (r : Result InitError (Template × List Bytes × List Bytes))
      → (start_with env opts r).result ≡ ok conf
      → (r ≡ ok (conf.template, conf.trusted_list, conf.untrusted_list))
        × (open_file env.can_open opts.output_file_path ≡ some conf.output)
        × (check_limits opts ≡ ok conf.opts)
  start-ok (fail e) q = absurd (no_error q)
    where
      no_error : {conf : Config F} → ◌≡◌ {A = Result InitError (Config F)} (fail e) (ok conf) → ⊥
      no_error q = cc
  start-ok {conf} (ok (template, trusted, untrusted)) q =
      elim (Option-cases (open_file env.can_open opts.output_file_path)) [
        | inl e ↦ absurd (no_error (rw e at q))
        | inr (output, e) ↦
            let (opts', limited, last) = bind_parts (check_limits opts) _ (rw e at q) in
            let same : record {
              opts = opts';
              trusted_list = trusted;
              untrusted_list = untrusted;
              template = template;
              output = output;
            }
                ≡ conf =
              ok-injective last in
            (
              ap (λ (c : Config F). ok (c.template, c.trusted_list, c.untrusted_list)) same,
              e ∙ ap (λ (c : Config F). some c.output) same,
              limited ∙ ap (λ (c : Config F). ok c.opts) same,
            )
      ]
    where
      no_error : ◌≡◌ {A = Result InitError (Config F)} (fail bad_output) (ok conf) → ⊥
      no_error q = cc

  -- `Init` returns a configuration exactly where the template and both lists are read, a list is there,
  -- the timeouts and attempts are at least 1, the rates and mismatches are not negative, the output opens
  -- and the global limits are accepted; the configuration holds what was read.
  pub init_iff :
      (conf : Config F)
      → ((init env opts).result ≡ ok conf) ↔ (
          Accepted env opts conf.template conf.trusted_list conf.untrusted_list
          × (open_file env.can_open opts.output_file_path ≡ some conf.output)
          × (check_limits opts ≡ ok conf.opts))
  unfolding init
  init_iff conf = (to, from)
    where
      to :
          (start_with env opts (check_inputs env opts)).result ≡ ok conf
          → Accepted env opts conf.template conf.trusted_list conf.untrusted_list
            × (open_file env.can_open opts.output_file_path ≡ some conf.output)
            × (check_limits opts ≡ ok conf.opts)
      to q =
          let (inputs, opened, limited) = start-ok (check_inputs env opts) q in
          (check_inputs-Accepted inputs, opened, limited)

      from :
          Accepted env opts conf.template conf.trusted_list conf.untrusted_list
            × (open_file env.can_open opts.output_file_path ≡ some conf.output)
            × (check_limits opts ≡ ok conf.opts)
          → (start_with env opts (check_inputs env opts)).result ≡ ok conf
      from (h, opened, limited) = rw (Accepted-check_inputs h, opened, limited) refl

  path_of-created : (o : Output) (path : Bytes) → path_of o ≡ some path → o ≡ created path
  path_of-created stdout path e = absurd (cc)
  path_of-created (created given) path e = ap created (some-injective e)

  start-touched :
      (r : Result InitError (Template × List Bytes × List Bytes)) (path : Bytes)
      → ((start_with env opts r).touched ≡ some path) ↔ (
          ((inputs : Template × List Bytes × List Bytes) × (r ≡ ok inputs))
          × (open_file env.can_open opts.output_file_path ≡ some (created path)))
  start-touched (fail e) path = (λ q. absurd (cc), λ ((inputs, q), opened). absurd (cc))
  start-touched (ok (template, trusted, untrusted)) path =
      elim (Option-cases (open_file env.can_open opts.output_file_path)) [
        | inl e ↦ rw e (λ q. absurd (cc), λ (inputs, opened). absurd (cc))
        | inr (output, e) ↦ rw e (
          λ q. ((_, refl), ap some (path_of-created output path q)),
          λ (inputs, opened). ap path_of (some-injective opened),
        )
      ]

  -- `Init` creates or truncates the file of a path exactly where the template, the lists and the options of
  -- the servers are accepted and the output option names that file, which opens; the global limits have no
  -- part in it.
  pub init-touched :
      (path : Bytes)
      → ((init env opts).touched ≡ some path) ↔ (
          ((template : Template) × (trusted : List Bytes) × (untrusted : List Bytes) × Accepted env
              opts template trusted untrusted)
          × (open_file env.can_open opts.output_file_path ≡ some (created path)))
  unfolding init
  init-touched path =
      let (to, from) = start-touched (check_inputs env opts) path in
      (
        λ q.
            let ((inputs, same), opened) = to q in
            ((inputs.0, inputs.1, inputs.2, check_inputs-Accepted same), opened),
        λ ((template, trusted, untrusted, h), opened). from ((_, Accepted-check_inputs h), opened),
      )

-- Options that bound the run: each limit is at least 1.
pub record IsLimited {F : Type 0} (opts : Options F) : Type 0 where
  pub some_rate : ltb_ℤ opts.glob_rate_limit (pos 1) ≡ false
  pub some_threads : ltb_ℤ opts.threads (pos 1) ≡ false
  pub some_pool : ltb_ℤ opts.max_pool_size (pos 1) ≡ false

default_to-limit :
    (given : ℤ) (g : ℕ) (e : InitError) {n : ℤ}
    → g * 20 < 2 ^ 63
    → ltb_ℤ (pos g) (pos 1) ≡ false
    → default_to given (pos g) e ≡ ok n
    → ltb_ℤ n (pos 1) ≡ false
unfolding times_20
default_to-limit given g e {n} small some_g q = elim (Bool-cases (eqb_ℤ given auto)) [
  | inl a ↦ ground (arith, rw a at q)
  | inr a ↦ ground (arith, rw a at q)
]

-- Where the global rate times 20 fits 63 bits, the options accepted have a rate, a number of threads and
-- a size of the pool of at least 1, and the other options are those given.
pub check_limits-IsLimited :
    {F : Type 0} (opts opts' : Options F) (g : ℕ)
    → opts.glob_rate_limit ≡ pos g
    → g * 20 < 2 ^ 63
    → check_limits opts ≡ ok opts'
    → IsLimited opts'
      × (opts' ≡ record opts { threads = opts'.threads; max_pool_size = opts'.max_pool_size })
unfolding check_limits
check_limits-IsLimited opts opts' g rate small q0 =
    let (u, e1, q1) = bind_parts _ _ q0 in
    let (t, e2, q2) = bind_parts _ _ q1 in
    let (m, e3, q3) = bind_parts _ _ q2 in
    let same = ok-injective q3 in
    let some_g = refuse-ok _ _ e1 in
    (
      record {
        some_rate = sym (ap (λ o. ltb_ℤ o.glob_rate_limit (pos 1)) same) ∙ some_g;
        some_threads =
            sym (ap (λ o. ltb_ℤ o.threads (pos 1)) same)
            ∙ default_to-limit opts.threads g _ small
                (sym (ap (λ z. ltb_ℤ z (pos 1)) rate) ∙ some_g)
                (sym (ap (λ z. default_to opts.threads z threads) rate) ∙ e2);
        some_pool =
            sym (ap (λ o. ltb_ℤ o.max_pool_size (pos 1)) same)
            ∙ default_to-limit opts.max_pool_size g _ small
                (sym (ap (λ z. ltb_ℤ z (pos 1)) rate) ∙ some_g)
                (sym (ap (λ z. default_to opts.max_pool_size z max_poolsize) rate) ∙ e3);
      },
      sym same
          ∙ ap (λ o. record opts { threads = o.threads; max_pool_size = o.max_pool_size }) same,
    )
