-- ===== src/Config/Init.antt =====
-- internal/config/config.go: `Init` and `OpenFile`.
pub mod Laws
use dnsanity.Common.{
  ℕ, ◌*◌, ◌-◌, ◌^◌, ◌%◌, Bool, true, false, not, ◌&&◌, ◌||◌, List, [], ◌∷◌, Option, none, some, ltb,
  ◌==◌, if◌then◌else◌, Result, ok, fail, ◌>>=◌,
}
use dnsanity.Common.Int.{ℤ, pos, negsuc, ltb_ℤ, eqb_ℤ}
use dnsanity.Text.{Bytes, codes, str_eq}
use dnsanity.Text.Lines.{Input}
use dnsanity.Dns.Glob.{is_empty}
use dnsanity.Dns.Template.{Template}
use dnsanity.Dns.Template.Load.{TemplateError, new_template, new_template_from_file}
use dnsanity.Config.ServerList.{ListError, Lookup, parse_server_list}
use dnsanity.Config.Options.{Options, auto, default_template}

-- What `Init` finds outside the program: files, terminals, and the test `< 0` on a `float64`. The file of
-- the trusted list is read first and that of the other list later, when a standard input named for both is
-- used up.
pub record Env (F : Type 0) : Type 0 where
  pub is_ip : Bytes → Bool
  pub template_file : Bytes → Option Input
  pub first_lookup : Bytes → Lookup
  pub second_lookup : Bytes → Lookup
  pub stdin_is_tty : Bool
  pub can_open : Bytes → Bool
  pub is_negative : F → Bool

-- The ways in which `Init` ends the program, by the option at fault; `template_shown` is the exit with
-- `-verbose` and no list.
pub data InitError : Type 0 where
  bad_template : TemplateError → InitError
  bad_trusted_list bad_list : ListError → InitError
  trusted_timeout trusted_ratelimit trusted_max_attempts : InitError
  template_shown list_required : InitError
  timeout ratelimit max_attempts max_mismatches : InitError
  bad_output global_ratelimit threads max_poolsize : InitError

-- `OutputFile`: the standard output, or a file that was created or truncated
pub data Output : Type 0 where
  stdout : Output
  created : Bytes → Output

-- `Config`
pub record Config (F : Type 0) : Type 0 where
  pub opts : Options F
  pub trusted_list : List Bytes
  pub untrusted_list : List Bytes
  pub template : Template
  pub output : Output

-- The file of an output, if it is one; the standard output is neither created nor truncated.
abbrev pub path_of : Output → Option Bytes
path_of stdout = none
path_of (created path) = some path

-- A result with its error put in the words of `exitUsage`
abbrev pub wrap_error : {E A : Type 0} → (E → InitError) → Result E A → Result InitError A
wrap_error f (ok a) = ok a
wrap_error f (fail e) = fail (f e)

-- `if … { exitUsage(…) }`
abbrev pub refuse_if : Bool → InitError → Result InitError (Unit {0})
refuse_if true e = fail e
refuse_if false e = ok tt

-- The product of `-global-ratelimit` and 20, as an `int` of 64 bits; it is at least 1 where it is used.
unfoldable pub times_20 : ℤ → ℤ
times_20 (pos g) =
    let n = (g * 20) % 2 ^ 64 in if ltb n (2 ^ 63) then pos n else negsuc (2 ^ 64 - n - 1)
times_20 (negsuc g) = negsuc g

abbrev pub default_to : ℤ → ℤ → InitError → Result InitError ℤ
default_to given g e =
    if eqb_ℤ given auto then ok (times_20 g) else if ltb_ℤ given (pos 1) then fail e else ok given

-- `OpenFile`
unfoldable pub open_file : (Bytes → Bool) → Bytes → Option Output
open_file can_open path =
    if is_empty path || (str_eq path (codes "-") || str_eq path (codes "/dev/stdout"))
    then some stdout
    else if can_open path
    then some (created path)
    else none

-- The path of the file that was created or truncated, if any, and the end of `Init`
pub record Started (F : Type 0) : Type 0 where
  pub touched : Option Bytes
  pub result : Result InitError (Config F)

module _ {F : Type 0} where
  unfoldable pub read_template : Env F → Options F → Result TemplateError Template
  unfolding new_template new_template_from_file default_template
  read_template env opts =
      if is_empty opts.template
      then new_template default_template
      else new_template_from_file opts.template (env.template_file opts.template)

  -- The test of a terminal as standard input
  abbrev pub list_missing : Env F → Options F → Bool
  list_missing env opts = str_eq opts.untrusted_dns (codes "/dev/stdin") && env.stdin_is_tty

  -- The part of `Init` before the output file is opened
  unfoldable pub check_inputs :
      Env F → Options F → Result InitError (Template × List Bytes × List Bytes)
  unfolding read_template parse_server_list
  check_inputs env opts = do
    template ← wrap_error bad_template (read_template env opts)
    trusted ←
        wrap_error bad_trusted_list
          (parse_server_list env.is_ip opts.trusted_dns (env.first_lookup opts.trusted_dns))
    _ ← refuse_if (ltb_ℤ opts.trusted_timeout (pos 1)) trusted_timeout
    _ ← refuse_if (env.is_negative opts.trusted_rate_limit) trusted_ratelimit
    _ ← refuse_if (ltb_ℤ opts.trusted_attempts (pos 1)) trusted_max_attempts
    _ ← refuse_if (list_missing env opts) (if opts.verbose then template_shown else list_required)
    untrusted ←
        wrap_error bad_list
          (parse_server_list env.is_ip opts.untrusted_dns (env.second_lookup opts.untrusted_dns))
    _ ← refuse_if (ltb_ℤ opts.timeout (pos 1)) timeout
    _ ← refuse_if (env.is_negative opts.rate_limit) ratelimit
    _ ← refuse_if (ltb_ℤ opts.attempts (pos 1)) max_attempts
    _ ← refuse_if (ltb_ℤ opts.max_mismatches (pos 0)) max_mismatches
    ok (template, trusted, untrusted)

  -- The part behind it
  unfoldable pub check_limits : Options F → Result InitError (Options F)
  unfolding times_20
  check_limits opts = do
    _ ← refuse_if (ltb_ℤ opts.glob_rate_limit (pos 1)) global_ratelimit
    t ← default_to opts.threads opts.glob_rate_limit threads
    m ← default_to opts.max_pool_size opts.glob_rate_limit max_poolsize
    ok (record opts { threads = t; max_pool_size = m })

  abbrev pub with_output :
      Options F → Template × List Bytes × List Bytes → Option Output → Started F
  with_output opts inputs none = record { touched = none; result = fail bad_output }
  with_output opts (template, trusted, untrusted) (some output) = record {
    touched = path_of output;
    result = check_limits opts >>= λ opts'. ok (record {
      opts = opts';
      trusted_list = trusted;
      untrusted_list = untrusted;
      template = template;
      output = output;
    });
  }

  abbrev pub start_with :
      Env F → Options F → Result InitError (Template × List Bytes × List Bytes) → Started F
  start_with env opts (fail e) = record { touched = none; result = fail e }
  start_with env opts (ok inputs) =
      with_output opts inputs (open_file env.can_open opts.output_file_path)

  -- `Init`, on the options that `ParseOptions` returned
  unfoldable pub init : Env F → Options F → Started F
  unfolding check_inputs check_limits open_file
  init env opts = start_with env opts (check_inputs env opts)
