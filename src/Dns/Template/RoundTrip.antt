-- ===== src/Dns/Template/RoundTrip.antt =====
-- The text of a template entry and its parser: `TemplateEntry.ToString` and `NewTemplateEntry`.
use dnsanity.Common.{
  ◌≡◌, refl, sym, ap, ◌∙◌, subst, ◌≢◌, List, [], ◌∷◌, ◌++◌, map, append_assoc, arith, All,
  All-append, ok, ◌>>=◌, length, drop, drop-append,
}
use dnsanity.Text.{Bytes, codes, join, fields, trim_space, Lacks}
use dnsanity.Text.Split.{split, split-join}
use dnsanity.Text.Words.{
  IsWord, fields-append, fields-space, fields-append_space, fields-word, fields-trim_space,
}
use dnsanity.Dns.Answer.{DnsAnswerData, from_tokens, to_string, new_dns_answer_data}
use dnsanity.Dns.Answer.RoundTrip.{IsPlain, new_dns_answer_data-to_string}
use dnsanity.Dns.Template.{
  TemplateEntry, parse_alternatives, parse_fields, new_template_entry, entry_to_string,
}

-- An answer that can stand among alternatives: its text holds no `|`.
abbrev pub IsAlternative : DnsAnswerData → Type 0
IsAlternative d = IsPlain d × Lacks b'|' (to_string d)

pub record IsPrintable (te : TemplateEntry) : Type 0 where
  pub domain_word : IsWord te.domain
  pub some_answer : te.valid_answers ≢ []
  pub alternatives : All IsAlternative te.valid_answers

-- What stands between the separators `||` of a printed entry.
padded : List Bytes → List Bytes
padded [] = []
padded (p ∷ []) = (b' ' ∷ p) ∷ []
padded (p ∷ q ∷ ps) = (b' ' ∷ (p ++ codes " ")) ∷ padded (q ∷ ps)

join-padded :
    (p : Bytes) (ps : List Bytes)
    → join (padded (p ∷ ps)) (codes "||") ≡ b' ' ∷ join (p ∷ ps) (codes " || ")
unfolding padded
join-padded p [] = refl
join-padded p (q ∷ []) = ap (◌∷◌ b' ') (append_assoc p (codes " ") (codes "|| " ++ q))
join-padded p (q ∷ r ∷ ps) =
    ap (◌∷◌ b' ')
      (append_assoc p (codes " ") _ ∙ ap (λ t. p ++ (codes " ||" ++ t)) (join-padded q (r ∷ ps)))

padded-ne-nil : (ps : List Bytes) → ps ≢ [] → padded ps ≢ []
unfolding padded
padded-ne-nil [] h e = h refl
padded-ne-nil (p ∷ []) h e = cc
padded-ne-nil (p ∷ q ∷ ps) h e = cc

padded-Lacks : (ps : List Bytes) → All (Lacks b'|') ps → All (Lacks b'|') (padded ps)
unfolding padded
padded-Lacks [] h = tt
padded-Lacks (p ∷ []) (hp, _) = ((omega arith, hp), tt)
padded-Lacks (p ∷ q ∷ ps) (hp, hps) =
    ((omega arith, All-append _ p (codes " ") hp (omega arith, tt)), padded-Lacks (q ∷ ps) hps)

new_dns_answer_data-fields :
    (s t : Bytes) → fields s ≡ fields t → new_dns_answer_data s ≡ new_dns_answer_data t
unfolding new_dns_answer_data
new_dns_answer_data-fields s t e = ap from_tokens e

parse_padded :
    (d : DnsAnswerData) (s : Bytes)
    → IsPlain d
    → fields s ≡ fields (to_string d)
    → new_dns_answer_data (trim_space s) ≡ ok d
parse_padded d s h e =
    new_dns_answer_data-fields (trim_space s) (to_string d) (fields-trim_space s ∙ e)
    ∙ new_dns_answer_data-to_string d h

parse_alternatives-padded :
    (ds : List DnsAnswerData)
    → All IsAlternative ds
    → parse_alternatives (padded (map to_string ds)) ≡ ok ds
unfolding parse_alternatives padded
parse_alternatives-padded [] h = refl
parse_alternatives-padded (d ∷ []) ((hd, _), _) =
    rw (parse_padded d (b' ' ∷ to_string d) hd (fields-space (to_string d)))
parse_alternatives-padded (d ∷ e ∷ ds) ((hd, _), hds) = rw (
  parse_padded d (b' ' ∷ (to_string d ++ codes " ")) hd
      (fields-space (to_string d ++ codes " ") ∙ fields-append_space (to_string d)),
  parse_alternatives-padded (e ∷ ds) hds,
)

map-Lacks : (ds : List DnsAnswerData) → All IsAlternative ds → All (Lacks b'|') (map to_string ds)
map-Lacks [] h = tt
map-Lacks (d ∷ ds) ((_, hd), hds) = (hd, map-Lacks ds hds)

from_tokens-nil : (d : DnsAnswerData) → from_tokens [] ≢ ok d
unfolding from_tokens
from_tokens-nil d q = cc

-- A plain answer's text has a field, and so has a text that begins with it.
plain-fields : (d : DnsAnswerData) → IsPlain d → fields (to_string d) ≢ []
plain-fields d h e = no_field (
    subst (λ t. from_tokens t ≡ ok d) e
      (unfold new_dns_answer_data in new_dns_answer_data-to_string d h))
  where
    no_field : from_tokens [] ≡ ok d → ⊥
    no_field = from_tokens-nil d

join-fields :
    (d : DnsAnswerData) (ds : List DnsAnswerData)
    → IsPlain d
    → fields (join (map to_string (d ∷ ds)) (codes " || ")) ≢ []
join-fields d [] h q = plain-fields d h q
join-fields d (e ∷ ds) h q =
    plain-fields d h (left_nil (fields (to_string d)) _ (sym (fields-append (to_string d) _) ∙ q))
  where
    left_nil : (xs ys : List Bytes) → xs ++ ys ≡ [] → xs ≡ []
    left_nil [] ys e = refl
    left_nil (x ∷ xs) ys e = cc

parse_fields-more :
    (line domain : Bytes) (parts : List Bytes)
    → parts ≢ []
    → parse_fields line (domain ∷ parts) ≡ (
        parse_alternatives (split (drop (length domain) line) (codes "||")) >>= λ answers.
        ok (record { domain = domain; valid_answers = answers }))
unfolding parse_fields
parse_fields-more line domain [] h = absurd (h refl)
parse_fields-more line domain (p ∷ ps) h = refl

line-fields :
    (domain rest : Bytes)
    → IsWord domain
    → fields rest ≢ []
    → new_template_entry (domain ++ (b' ' ∷ rest)) ≡ (
        parse_alternatives (split (b' ' ∷ rest) (codes "||")) >>= λ answers.
        ok (record { domain = domain; valid_answers = answers }))
unfolding new_template_entry
line-fields domain rest word more =
    ap (parse_fields (domain ++ (b' ' ∷ rest))) (fields-word domain rest word)
    ∙ parse_fields-more (domain ++ (b' ' ∷ rest)) domain (fields rest) more
    ∙ ap
        (λ t. parse_alternatives (split t (codes "||")) >>= λ answers.
          ok (record { domain = domain; valid_answers = answers }))
        (drop-append domain (b' ' ∷ rest))

alternatives-printed :
    (d : DnsAnswerData) (ds : List DnsAnswerData)
    → All IsAlternative (d ∷ ds)
    → parse_alternatives (split (b' ' ∷ join (map to_string (d ∷ ds)) (codes " || ")) (codes "||"))
      ≡ ok (d ∷ ds)
alternatives-printed d ds h =
    let texts = map to_string (d ∷ ds) in
    ap (λ t. parse_alternatives (split t (codes "||")))
      (sym (join-padded (to_string d) (map to_string ds)))
    ∙ ap parse_alternatives (
        split-join b'|' (codes "|") (padded texts) (padded-ne-nil texts (λ e. cc))
          (padded-Lacks texts (map-Lacks (d ∷ ds) h)))
    ∙ parse_alternatives-padded (d ∷ ds) h

entry-printed :
    (domain : Bytes) (ds : List DnsAnswerData)
    → IsWord domain
    → ds ≢ []
    → All IsAlternative ds
    → new_template_entry (domain ++ (b' ' ∷ join (map to_string ds) (codes " || ")))
      ≡ ok (record { domain = domain; valid_answers = ds })
entry-printed domain [] word ne h = absurd (ne refl)
entry-printed domain (d ∷ ds) word ne h =
    line-fields domain (join (map to_string (d ∷ ds)) (codes " || ")) word (join-fields d ds h.0.0)
    ∙ ap (λ r. r >>= λ answers. ok (record { domain = domain; valid_answers = answers }))
        (alternatives-printed d ds h)

-- The text of a printable entry is parsed back to that entry.
pub new_template_entry-entry_to_string :
    (te : TemplateEntry) → IsPrintable te → new_template_entry (entry_to_string te) ≡ ok te
unfolding entry_to_string
new_template_entry-entry_to_string te h =
    entry-printed te.domain te.valid_answers h.domain_word h.some_answer h.alternatives
