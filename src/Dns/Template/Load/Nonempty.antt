-- ===== src/Dns/Template/Load/Nonempty.antt =====
-- internal/dns/template.go: the entries of a template that was loaded.
use dnsanity.Common.{
  false, ◌<◌, ◌≡◌, [], ◌∷◌, Option, none, some, arith, length, Result, ok, fail, bind_parts,
  ok-injective, ap, subst,
}
use dnsanity.Text.{Bytes}
use dnsanity.Text.Lines.{Input, ScanError, scan_lines}
use dnsanity.Dns.Template.{Template}
use dnsanity.Dns.Template.Load.{
  LoadError, bad_line, unreadable, no_entries, load_lines, finish_load, load_template, of_input,
  of_file, new_template, new_template_from_file,
}

finish_load-length :
    (err : Option ScanError) (tpl : Template) {t : Template}
    → finish_load err tpl ≡ ok t
    → 0 < length t
finish_load-length (some err) tpl e = absurd (cc)
finish_load-length none [] e = absurd (cc)
finish_load-length none (entry ∷ tpl) e =
    subst (λ (t : Template). 0 < length t) (ok-injective e) (omega arith)

load_template-length : (input : Input) {t : Template} → load_template input ≡ ok t → 0 < length t
unfolding load_template
load_template-length input e =
    let (tpl, e1, e2) =
      bind_parts (load_lines 1 (scan_lines input).0) (finish_load (scan_lines input).1) e in
    finish_load-length (scan_lines input).1 tpl e2

of_input-ok : (r : Result LoadError Template) {t : Template} → of_input r ≡ ok t → r ≡ ok t
of_input-ok (ok tpl) e = ap ok (ok-injective e)
of_input-ok (fail no_entries) e = absurd (cc)
of_input-ok (fail (bad_line n q)) e = absurd (cc)
of_input-ok (fail (unreadable q)) e = absurd (cc)

of_file-ok :
    (path : Bytes) (r : Result LoadError Template) {t : Template} → of_file path r ≡ ok t → r ≡ ok t
of_file-ok path (ok tpl) e = ap ok (ok-injective e)
of_file-ok path (fail no_entries) e = absurd (cc)
of_file-ok path (fail (bad_line n q)) e = absurd (cc)
of_file-ok path (fail (unreadable q)) e = absurd (cc)

-- A template that `NewTemplate` returns has an entry.
pub new_template-length :
    (content : Bytes) {t : Template} → new_template content ≡ ok t → 0 < length t
unfolding new_template
new_template-length content e =
    load_template-length (record { content = content; broken = false }) (of_input-ok _ e)

-- So has one that `NewTemplateFromFile` returns.
pub new_template_from_file-length :
    (path : Bytes) (file : Option Input) {t : Template}
    → new_template_from_file path file ≡ ok t
    → 0 < length t
unfolding new_template_from_file
new_template_from_file-length path none e = absurd (cc)
new_template_from_file-length path (some input) e = load_template-length input (of_file-ok path _ e)
