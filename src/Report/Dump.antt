-- ===== src/Report/Dump.antt =====
-- `ServerContext.PrettyDump` of internal/dns/servercontext.go and `Template.PrettyDump` of
-- internal/dns/template.go.
use dnsanity.Common.{ℕ, zero, suc, ◌+◌, ◌/◌, ◌%◌, List, [], ◌∷◌, ◌++◌, ◌==◌, if◌then◌else◌}
use dnsanity.Common.Int.{ℤ, pos, negsuc, ◌-ℤ◌, ltb_ℤ}
use dnsanity.Text.{Bytes, codes, str_eq}
use dnsanity.Dns.Answer.{answer_to_string}
use dnsanity.Dns.Template.{Template, entry_to_string}
use dnsanity.Dns.Server.{CheckContext, ServerContext, skipped}

-- A number in decimal: the digits of `n` in front of `out`, with more fuel than digits
digits : ℕ → ℕ → Bytes → Bytes
digits zero n out = out
digits (suc f) n out =
    let out' = (b'0' + n % 10) ∷ out in
    let more = digits f (n / 10) out' in if n / 10 == 0 then out' else more

-- `%d`
unfoldable pub decimal : ℕ → Bytes
unfolding digits
decimal n = digits (n + 1) n []

unfoldable pub decimal_ℤ : ℤ → Bytes
unfolding decimal
decimal_ℤ (pos n) = decimal n
decimal_ℤ (negsuc n) = b'-' ∷ decimal (suc n)

-- An ANSI sequence, `\033[` and its rest
abbrev pub esc : Bytes → Bytes
esc s = 27 ∷ b'[' ∷ s

abbrev newline : Bytes
newline = 10 ∷ []

-- `suffix`
ordinal : ℤ → Bytes
ordinal (pos n) = if n == 2 then codes "nd" else if n == 3 then codes "rd" else codes "th"
ordinal (negsuc n) = codes "th"

pub attempts_repr : ℤ → Bytes
unfolding ordinal decimal_ℤ
attempts_repr tries =
    if ltb_ℤ (pos 1) tries
    then codes " "
      ++ esc (codes "33m(on ")
      ++ decimal_ℤ tries
      ++ ordinal tries
      ++ codes " attempt)"
      ++ esc (codes "m")
    else []

pub check_prefix : CheckContext → Bytes
check_prefix test =
    if test.passed
    then esc (codes "1;32m+") ++ esc (codes "0;32m")
    else if str_eq test.answer.status skipped
    then esc (codes "1;90m!") ++ esc (codes "0;90m")
    else esc (codes "1;31m-") ++ esc (codes "0;31m")

pub dump_checks : List CheckContext → Bytes
unfolding check_prefix attempts_repr ◌-ℤ◌ answer_to_string
dump_checks [] = []
dump_checks (test ∷ tests) =
    (codes "    "
      ++ check_prefix test
      ++ codes " "
      ++ answer_to_string test.answer
      ++ esc (codes "m")
      ++ attempts_repr (test.max_attempts -ℤ test.attempts_left)
      ++ newline)
    ++ dump_checks tests

-- `ServerContext.PrettyDump`
unfoldable pub dump_server : ServerContext → Bytes
unfolding dump_checks
dump_server srv =
    (if srv.failed_count == 0
      then esc (codes "1;32m[+] SERVER ")
        ++ srv.ip_address
        ++ codes " (valid)"
        ++ esc (codes "m")
        ++ newline
      else esc (codes "1;31m[-] SERVER ")
        ++ srv.ip_address
        ++ codes " (invalid)"
        ++ esc (codes "m")
        ++ newline)
    ++ dump_checks srv.checks

pub dump_entries : Template → Bytes
unfolding entry_to_string
dump_entries [] = []
dump_entries (entry ∷ t) =
    (codes "    " ++ esc (codes "34m* ") ++ entry_to_string entry ++ esc (codes "m") ++ newline)
    ++ dump_entries t

-- `Template.PrettyDump`
unfoldable pub dump_template : Template → Bytes
unfolding dump_entries
dump_template t =
    (esc (codes "1;34m[*] DNSANITY TEMPLATE:") ++ esc (codes "m") ++ newline) ++ dump_entries t
