-- ===== src/Dns/Template/Load/Laws.antt =====
-- internal/dns/template.go, `loadTemplate`: the text of a template, and the line of an error.
use dnsanity.Common.{
  ℕ, suc, ◌+◌, ◌≡◌, refl, sym, ap, ◌∙◌, ◌≢◌, true, false, List, [], ◌∷◌, ◌++◌, map, Option, none,
  ok, ◌>>=◌, arith, All, inl, inr, length, subst, ◌<◌,
}
use dnsanity.Text.{Bytes, codes, join, trim_space, Lacks}
use dnsanity.Text.Split.{split-Lacks_self}
use dnsanity.Text.Words.{IsWord, fields-IsWord}
use dnsanity.Text.Trim.{
  IsTrimmed, trim_space-IsTrimmed, IsTrimmed-join, IsTrimmed-between, IsWord-IsTrimmed,
}
use dnsanity.Text.Lines.{ScanError, IsLine, text_of, scan_lines-text_of}
use dnsanity.Dns.Answer.{DnsAnswerData, records, is_status, to_string}
use dnsanity.Dns.Answer.RoundTrip.{
  IsPlain, records-IsWord, to_string-records, to_string-status, is_status-fields,
}
use dnsanity.Dns.Glob.{is_empty}
use dnsanity.Dns.Template.{TemplateEntry, Template, new_template_entry, entry_to_string}
use dnsanity.Dns.Template.RoundTrip.{IsAlternative, IsPrintable, new_template_entry-entry_to_string}
use dnsanity.Dns.Template.Load.{first_part, clean, load_lines, finish_load, load_template}

-- An entry whose text can stand on a line of a template: it begins no comment.
pub record IsLoadable (te : TemplateEntry) : Type 0 where
  pub printable : IsPrintable te
  pub no_comment : Lacks b'#' (entry_to_string te)
  pub one_line : IsLine (entry_to_string te)

lines_step :
    (n : ℕ) (line : Bytes) (lines : List Bytes) (te : TemplateEntry) (tpl : Template)
    → is_empty (clean line) ≡ false
    → new_template_entry (clean line) ≡ ok te
    → load_lines (suc n) lines ≡ ok tpl
    → load_lines n (line ∷ lines) ≡ ok (te ∷ tpl)
unfolding load_lines
lines_step n line lines te tpl e q r = rw (e, q, r, load_lines) refl

status-IsTrimmed : (s : Bytes) → is_status s ≡ true → IsTrimmed s
status-IsTrimmed s e =
    IsWord-IsTrimmed s (subst (All IsWord) (is_status-fields s e) (fields-IsWord s)).0

join-IsTrimmed :
    (ws : List Bytes) (sep : Bytes) → ws ≢ [] → All IsTrimmed ws → IsTrimmed (join ws sep)
join-IsTrimmed [] sep ne h = absurd (ne refl)
join-IsTrimmed (w ∷ ws) sep ne h = IsTrimmed-join w ws sep h

words-IsTrimmed : (ws : List Bytes) → All IsWord ws → All IsTrimmed ws
words-IsTrimmed [] h = tt
words-IsTrimmed (w ∷ ws) (h, hs) = (IsWord-IsTrimmed w h, words-IsTrimmed ws hs)

records-ne-nil : (d : DnsAnswerData) → 0 < length d.a + length d.cname → records d ≢ []
records-ne-nil d h e = go d.a d.cname h e
  where
    go :
        (a cname : List Bytes)
        → 0 < length a + length cname
        → map (λ r. codes "A=" ++ r) a ++ map (λ r. codes "CNAME=" ++ r) cname ≢ []
    go [] [] h e = omega arith
    go [] (c ∷ cname) h e = cc
    go (r ∷ a) cname h e = cc

to_string-IsTrimmed : (d : DnsAnswerData) → IsPlain d → IsTrimmed (to_string d)
to_string-IsTrimmed d h = elim h.status_fits [
  | inl (no_a, no_cname, known) ↦
      subst IsTrimmed (sym (to_string-status d no_a no_cname)) (status-IsTrimmed d.status known)
  | inr (plain, some_record) ↦ subst IsTrimmed (sym (to_string-records d some_record)) (
      join-IsTrimmed (records d) (codes " ") (records-ne-nil d some_record)
        (words-IsTrimmed (records d) (records-IsWord d h)))
]

texts-IsTrimmed :
    (ds : List DnsAnswerData) → All IsAlternative ds → All IsTrimmed (map to_string ds)
texts-IsTrimmed [] h = tt
texts-IsTrimmed (d ∷ ds) (h, hs) = (to_string-IsTrimmed d h.0, texts-IsTrimmed ds hs)

map-ne-nil : (ds : List DnsAnswerData) → ds ≢ [] → map to_string ds ≢ []
map-ne-nil [] ne e = ne refl
map-ne-nil (d ∷ ds) ne e = cc

entry_to_string-IsTrimmed : (te : TemplateEntry) → IsPrintable te → IsTrimmed (entry_to_string te)
unfolding entry_to_string
entry_to_string-IsTrimmed te h =
    IsTrimmed-between te.domain (codes " ") (join (map to_string te.valid_answers) (codes " || "))
      (IsWord-IsTrimmed te.domain h.domain_word)
      (join-IsTrimmed (map to_string te.valid_answers) (codes " || ")
        (map-ne-nil te.valid_answers h.some_answer)
        (texts-IsTrimmed te.valid_answers h.alternatives))

clean-entry : (te : TemplateEntry) → IsLoadable te → clean (entry_to_string te) ≡ entry_to_string te
unfolding clean
clean-entry te h =
    ap (λ ps. trim_space (first_part ps)) (split-Lacks_self b'#' (entry_to_string te) h.no_comment)
    ∙ trim_space-IsTrimmed (entry_to_string te) (entry_to_string-IsTrimmed te h.printable)

IsTrimmed-not_empty : (s : Bytes) → IsTrimmed s → is_empty s ≡ false
IsTrimmed-not_empty [] h = absurd (no_byte h.starts)
  where
    no_byte : [] ≡ h.head ∷ h.tail → ⊥
    no_byte e = cc
IsTrimmed-not_empty (c ∷ s) h = refl

load_lines-entries :
    (n : ℕ) (tpl : Template) → All IsLoadable tpl → load_lines n (map entry_to_string tpl) ≡ ok tpl
load_lines-entries n [] h = unfold load_lines in refl
load_lines-entries n (te ∷ tpl) (h, hs) =
    lines_step n (entry_to_string te) (map entry_to_string tpl) te tpl
      (ap is_empty (clean-entry te h)
        ∙ IsTrimmed-not_empty (entry_to_string te) (entry_to_string-IsTrimmed te h.printable))
      (ap new_template_entry (clean-entry te h) ∙ new_template_entry-entry_to_string te h.printable)
      (load_lines-entries (suc n) tpl hs)

entries-IsLine : (tpl : Template) → All IsLoadable tpl → All IsLine (map entry_to_string tpl)
entries-IsLine [] h = tt
entries-IsLine (te ∷ tpl) (h, hs) = (h.one_line, entries-IsLine tpl hs)

finish_load-some : (tpl : Template) → tpl ≢ [] → finish_load none tpl ≡ ok tpl
finish_load-some [] ne = absurd (ne refl)
finish_load-some (te ∷ tpl) ne = refl

-- A template that is not empty, written one entry on a line, is loaded back, where each entry is
-- printable, begins no comment and fits a line.
pub load_template-entry_to_string :
    (tpl : Template)
    → tpl ≢ []
    → All IsLoadable tpl
    → load_template (record { content = text_of (map entry_to_string tpl); broken = false })
      ≡ ok tpl
unfolding load_template
load_template-entry_to_string tpl ne h =
    ap (λ (r : List Bytes × Option ScanError). load_lines 1 r.0 >>= finish_load r.1)
      (scan_lines-text_of (map entry_to_string tpl) false (entries-IsLine tpl h))
    ∙ ap (λ r. r >>= finish_load none) (load_lines-entries 1 tpl h)
    ∙ finish_load-some tpl ne
