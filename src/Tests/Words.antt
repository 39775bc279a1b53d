-- ===== src/Tests/Words.antt =====
-- Answers, template lines, patterns and responses.
use dnsanity.Common.{ℕ, List, ◌≡◌, ◌↔◌, refl, true, false, [], ◌∷◌, some, arith, ok, inl, inr}
use dnsanity.Text.{Bytes, codes, to_lower, is_space}
use dnsanity.Dns.Answer.{
  DnsAnswer, DnsAnswerData, noerror, timeout, is_status, to_string, new_dns_answer_data,
}
use dnsanity.Dns.Answer.RoundTrip.{IsPlain, new_dns_answer_data-to_string}
use dnsanity.Dns.Answer.Parsed.{new_dns_answer_data-IsPlain, new_dns_answer_data_stable}
use dnsanity.Dns.Glob.{glob_match}
use dnsanity.Dns.Glob.Spec.{Matches}
use dnsanity.Dns.Glob.Correct.{glob_match_iff}
use dnsanity.Dns.Template.{TemplateEntry, new_template_entry, entry_to_string, entry_matches}
use dnsanity.Dns.Records.{match_records, match_globs}
use dnsanity.Dns.Records.Assigned.{IsMatching}
use dnsanity.Dns.Records.Refused.{match_globs_iff}
use dnsanity.Dns.Records.Total.{Answered}
use dnsanity.Dns.Template.Total.{entry_matches-Answered}
use dnsanity.Dns.Template.RoundTrip.{IsPrintable, new_template_entry-entry_to_string}
use dnsanity.Dns.Resolver.{address, target, other, Response}

abbrev two_records : DnsAnswerData
two_records = record { status = noerror; a = codes "1.1.1.1" ∷ []; cname = codes "x.io." ∷ [] }

two_records-IsPlain : IsPlain two_records
unfolding is_space
two_records-IsPlain = record {
  a_words = ((refl, (refl, (refl, (refl, (refl, (refl, (refl, tt))))))), tt);
  cname_words = ((refl, (refl, (refl, (refl, (refl, tt))))), tt);
  lowered = (refl, tt);
  status_fits = inr (refl, omega arith);
}

abbrev spaced_line : Bytes
spaced_line = codes " A=1.1.1.1  CNAME=X.io. "

parses_line : new_dns_answer_data spaced_line ≡ ok two_records
unfolding new_dns_answer_data
parses_line = refl

new_dns_answer_data-to_string_example : new_dns_answer_data (to_string two_records) ≡ ok two_records
new_dns_answer_data-to_string_example =
    new_dns_answer_data-to_string two_records two_records-IsPlain

new_dns_answer_data-IsPlain_example : IsPlain two_records
new_dns_answer_data-IsPlain_example =
    new_dns_answer_data-IsPlain spaced_line two_records parses_line

new_dns_answer_data_stable_example : new_dns_answer_data (to_string two_records) ≡ ok two_records
new_dns_answer_data_stable_example = new_dns_answer_data_stable spaced_line two_records parses_line

abbrev late : DnsAnswerData
late = record { status = timeout; a = []; cname = [] }

abbrev any_address : DnsAnswerData
any_address = record { status = noerror; a = codes "*" ∷ []; cname = [] }

late-IsPlain : IsPlain late
unfolding is_status
late-IsPlain = record {
  a_words = tt;
  cname_words = tt;
  lowered = tt;
  status_fits = inl (refl, refl, refl);
}

any_address-IsPlain : IsPlain any_address
unfolding is_space
any_address-IsPlain = record {
  a_words = ((refl, tt), tt);
  cname_words = tt;
  lowered = tt;
  status_fits = inr (refl, omega arith);
}

abbrev pub a_entry : TemplateEntry
a_entry = record { domain = codes "a.co"; valid_answers = late ∷ any_address ∷ [] }

pub a_entry-IsPrintable : IsPrintable a_entry
unfolding to_string is_space
a_entry-IsPrintable = record {
  domain_word = (λ e. cc, (refl, (refl, (refl, (refl, tt)))));
  some_answer = λ e. cc;
  alternatives = (
    (
      late-IsPlain,
      (
        omega arith,
        (
          omega arith,
          (omega arith, (omega arith, (omega arith, (omega arith, (omega arith, tt))))),
        ),
      ),
    ),
    ((any_address-IsPlain, (omega arith, (omega arith, (omega arith, tt)))), tt),
  );
}

new_template_entry-entry_to_string_example :
    new_template_entry (entry_to_string a_entry) ≡ ok a_entry
new_template_entry-entry_to_string_example =
    new_template_entry-entry_to_string a_entry a_entry-IsPrintable

glob_match_iff_example :
    (glob_match (codes "*.CO") (codes "a.b.co") ≡ true)
    ↔ Matches (to_lower (codes "*.CO")) (to_lower (codes "a.b.co"))
glob_match_iff_example = glob_match_iff (codes "*.CO") (codes "a.b.co")

matches_star : glob_match (codes "1.*.3.*") (codes "1.2.3.4") ≡ true
unfolding glob_match
matches_star = refl

matches_twice : glob_match (codes "a*a") (codes "a") ≡ false
unfolding glob_match
matches_twice = refl

abbrev three_records : Response
three_records = record {
  rcode = 0;
  answers = target (codes "x.io.") ∷ other ∷ address (codes "1.1.1.1") ∷ [];
  truncated = false;
}

-- A template with `*` accepts the address, and refuses a second record that no value is left for.
accepts_address :
    entry_matches
      (λ m. m)
      (record {
        domain = codes "a.co";
        valid_answers = record { status = noerror; a = codes "1.*" ∷ []; cname = [] } ∷ [];
      })
      (record {
        domain = codes "a.co";
        content = record { status = noerror; a = codes "1.1.1.1" ∷ []; cname = [] };
        truncated = false;
      })
    ≡ some true
unfolding entry_matches
accepts_address = refl

abbrev late_answer : DnsAnswer
late_answer = record { domain = codes "a.co"; content = late; truncated = false }

-- Two globs that want the same address: the first gives way to the second.
gives_way :
    match_records
      (λ m. m)
      (codes "1.*" ∷ codes "1.1.*" ∷ [])
      (codes "1.1.1.1" ∷ codes "1.2.3.4" ∷ [])
    ≡ some true
unfolding match_records
gives_way = refl

entry_matches-Answered_example : Answered (entry_matches (λ m. m) a_entry late_answer)
entry_matches-Answered_example = entry_matches-Answered (λ m. m) a_entry late_answer

abbrev two_globs : List Bytes
two_globs = codes "1.*" ∷ codes "1.1.*" ∷ []

abbrev two_values : List Bytes
two_values = codes "1.1.1.1" ∷ codes "1.2.3.4" ∷ []

two_globs-match : match_globs two_globs two_values ≡ some true
unfolding match_globs
two_globs-match = refl

match_globs_iff_example :
    (match_globs two_globs two_values ≡ some true)
    ↔ ((place : ℕ → ℕ) × IsMatching two_globs two_values place)
match_globs_iff_example = match_globs_iff two_globs two_values

-- Both globs want the one value that each of them matches.
two_globs-refused : match_globs two_globs (codes "1.1.1.1" ∷ codes "2.2.2.2" ∷ []) ≡ some false
unfolding match_globs
two_globs-refused = refl
