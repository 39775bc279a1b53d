-- ===== src/Dns/Template/Total.antt =====
-- internal/dns/template.go, `TemplateEntry.Matches`: its answer, over those of `matchRecords`.
use dnsanity.Common.{
  ◌≡◌, refl, Bool, true, false, List, [], ◌∷◌, Option, some, Bool-cases, inl, inr, if◌then◌else◌,
}
use dnsanity.Text.{str_eq}
use dnsanity.Dns.Answer.{DnsAnswerData, DnsAnswer}
use dnsanity.Dns.Records.{Counts, match_records}
use dnsanity.Dns.Records.Total.{Answered, match_records-Answered}
use dnsanity.Dns.Template.{TemplateEntry, choice_matches, any_choice, entry_matches}

module _ (order : Counts → Counts) where
  records_case :
      (choice da : DnsAnswerData) (b : Bool)
      → str_eq choice.status da.status ≡ true
      → match_records order choice.a da.a ≡ some b
      → choice_matches order choice da
        ≡ (if b then match_records order choice.cname da.cname else some false)
  unfolding choice_matches
  records_case choice da true e q = rw (e, q, choice_matches) refl
  records_case choice da false e q = rw (e, q, choice_matches) refl

  if-Answered : (b : Bool) (o : Option Bool) → Answered o → Answered (if b then o else some false)
  if-Answered true o h = h
  if-Answered false o h = (false, refl)

  choice_matches-Answered : (choice da : DnsAnswerData) → Answered (choice_matches order choice da)
  unfolding choice_matches
  choice_matches-Answered choice da = elim (Bool-cases (str_eq choice.status da.status)) [
    | inr e ↦ (false, rw (e, choice_matches) refl)
    | inl e ↦
        let (b, q) = match_records-Answered order choice.a da.a in
        rw (records_case choice da b e q) (
          if-Answered b (match_records order choice.cname da.cname)
            (match_records-Answered order choice.cname da.cname))
  ]

  any_step :
      (choice : DnsAnswerData) (choices : List DnsAnswerData) (da : DnsAnswerData) (b : Bool)
      → choice_matches order choice da ≡ some b
      → any_choice order (choice ∷ choices) da
        ≡ (if b then some true else any_choice order choices da)
  unfolding any_choice
  any_step choice choices da true q = rw (q, any_choice) refl
  any_step choice choices da false q = rw (q, any_choice) refl

  any_choice-Answered :
      (choices : List DnsAnswerData) (da : DnsAnswerData) → Answered (any_choice order choices da)
  any_choice-Answered [] da = (false, unfold any_choice in refl)
  any_choice-Answered (choice ∷ choices) da =
      let (b, q) = choice_matches-Answered choice da in
      rw (any_step choice choices da b q) (go b (any_choice-Answered choices da))
    where
      go :
          (b : Bool)
          → Answered (any_choice order choices da)
          → Answered (if b then some true else any_choice order choices da)
      go true h = (true, refl)
      go false h = h

  -- `TemplateEntry.Matches` answers on every entry and answer, in whatever order a map is ranged over.
  pub entry_matches-Answered :
      (te : TemplateEntry) (da : DnsAnswer) → Answered (entry_matches order te da)
  unfolding entry_matches
  entry_matches-Answered te da = elim (Bool-cases (str_eq te.domain da.domain)) [
    | inl e ↦ rw e (any_choice-Answered te.valid_answers da.content)
    | inr e ↦ (false, rw e refl)
  ]
