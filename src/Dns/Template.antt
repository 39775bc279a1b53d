-- ===== src/Dns/Template.antt =====
-- internal/dns/template.go: template entries, their text, and matching against answers.
pub mod RoundTrip
pub mod Total
pub mod Load
use dnsanity.Common.{
  ℕ, zero, suc, ◌+◌, ◌<◌, Bool, true, false, ◌&&◌, List, [], ◌∷◌, ◌++◌, map, Option, none, some,
  length, drop, ltb, leb, ◌==◌, if◌then◌else◌, Result, ok, fail, ◌>>=◌,
}
use dnsanity.Text.{Bytes, codes, str_eq, join, fields, trim_space}
use dnsanity.Text.Split.{split}
use dnsanity.Dns.Answer.{
  DnsAnswerData, DnsAnswer, ParseError, no_answer, to_string, new_dns_answer_data,
}
use dnsanity.Dns.Records.{Counts, match_records}

-- `TemplateEntry`
pub record TemplateEntry : Type 0 where
  pub domain : Bytes
  pub valid_answers : List DnsAnswerData

-- `Template`
abbrev pub Template : Type 0
Template = List TemplateEntry

-- The loop over the alternatives
pub parse_alternatives : List Bytes → Result ParseError (List DnsAnswerData)
parse_alternatives [] = ok []
parse_alternatives (alt ∷ alts) = do
  answer ← new_dns_answer_data (trim_space alt)
  rest ← parse_alternatives alts
  ok (answer ∷ rest)

pub parse_fields : Bytes → List Bytes → Result ParseError TemplateEntry
parse_fields line [] = fail no_answer
parse_fields line (domain ∷ []) = fail no_answer
parse_fields line (domain ∷ next ∷ parts) = do
  answers ← parse_alternatives (split (drop (length domain) line) (codes "||"))
  ok (record { domain = domain; valid_answers = answers })

-- `NewTemplateEntry`
unfoldable pub new_template_entry : Bytes → Result ParseError TemplateEntry
unfolding parse_fields parse_alternatives new_dns_answer_data split fields trim_space
new_template_entry line = parse_fields line (fields line)

-- `TemplateEntry.ToString`
unfoldable pub entry_to_string : TemplateEntry → Bytes
unfolding to_string
entry_to_string te =
    te.domain ++ (codes " " ++ join (map to_string te.valid_answers) (codes " || "))

-- `choice.Status == da.Status && matchRecords(choice.A, da.A) && matchRecords(choice.CNAME, da.CNAME)`
module _ (order : Counts → Counts) where
  pub choice_matches : DnsAnswerData → DnsAnswerData → Option Bool
  choice_matches choice da =
      if str_eq choice.status da.status
      then elim (match_records order choice.a da.a) [
        | none ↦ none
        | some false ↦ some false
        | some true ↦ match_records order choice.cname da.cname
      ]
      else some false

  pub any_choice : List DnsAnswerData → DnsAnswerData → Option Bool
  any_choice [] da = some false
  any_choice (choice ∷ choices) da = elim (choice_matches choice da) [
    | none ↦ none
    | some true ↦ some true
    | some false ↦ any_choice choices da
  ]

  -- `TemplateEntry.Matches`, on an entry and an answer that are not nil
  unfoldable pub entry_matches : TemplateEntry → DnsAnswer → Option Bool
  unfolding any_choice choice_matches match_records
  entry_matches te da =
      if str_eq te.domain da.domain then any_choice te.valid_answers da.content else some false
