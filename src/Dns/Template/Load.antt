-- ===== src/Dns/Template/Load.antt =====
-- internal/dns/template.go: `loadTemplate`, `NewTemplate` and `NewTemplateFromFile`.
pub mod Laws
pub mod Errors
pub mod Nonempty
use dnsanity.Common.{
  ℕ, suc, Bool, true, false, List, [], ◌∷◌, Option, none, some, Result, ok, fail, ◌>>=◌,
  if◌then◌else◌,
}
use dnsanity.Text.{Bytes, codes, trim_space}
use dnsanity.Text.Split.{split}
use dnsanity.Text.Lines.{Input, ScanError, scan_lines}
use dnsanity.Dns.Answer.{ParseError}
use dnsanity.Dns.Glob.{is_empty}
use dnsanity.Dns.Template.{TemplateEntry, Template, new_template_entry}

-- What `loadTemplate` returns in place of a template: the error of a line with its number, the error of
-- the scanner, or `errNoEntries`
pub data LoadError : Type 0 where
  bad_line : ℕ → ParseError → LoadError
  unreadable : ScanError → LoadError
  no_entries : LoadError

-- `strings.Split(line, "#")[0]`; `strings.Split` never returns none.
abbrev pub first_part : List Bytes → Bytes
first_part [] = []
first_part (part ∷ parts) = part

-- A line without its comment and without the space around it
unfoldable pub clean : Bytes → Bytes
unfolding split trim_space
clean line = trim_space (first_part (split line (codes "#")))

-- `wrapErr(err, lineNoCurrent)`
abbrev pub at_line : ℕ → Result ParseError TemplateEntry → Result LoadError TemplateEntry
at_line n (ok entry) = ok entry
at_line n (fail e) = fail (bad_line n e)

-- The loop over the lines, the first of which has number `n`
unfoldable pub load_lines : ℕ → List Bytes → Result LoadError Template
unfolding clean new_template_entry
load_lines n [] = ok []
load_lines n (line ∷ lines) =
    let rest = load_lines (suc n) lines in
    if is_empty (clean line)
    then rest
    else (at_line n (new_template_entry (clean line)) >>= λ entry. rest >>= λ tpl. ok (entry ∷ tpl))

-- What follows the loop
abbrev pub finish_load : Option ScanError → Template → Result LoadError Template
finish_load (some err) tpl = fail (unreadable err)
finish_load none [] = fail no_entries
finish_load none (entry ∷ tpl) = ok (entry ∷ tpl)

-- `loadTemplate`
unfoldable pub load_template : Input → Result LoadError Template
unfolding load_lines scan_lines
load_template input = let (lines, err) = scan_lines input in load_lines 1 lines >>= finish_load err

-- The errors of `NewTemplate` and `NewTemplateFromFile`
pub data TemplateError : Type 0 where
  unopened : Bytes → TemplateError
  no_entry : TemplateError
  in_input : LoadError → TemplateError
  in_file : Bytes → LoadError → TemplateError

abbrev pub of_input : Result LoadError Template → Result TemplateError Template
of_input (ok tpl) = ok tpl
of_input (fail no_entries) = fail no_entry
of_input (fail (bad_line n e)) = fail (in_input (bad_line n e))
of_input (fail (unreadable e)) = fail (in_input (unreadable e))

abbrev pub of_file : Bytes → Result LoadError Template → Result TemplateError Template
of_file path (ok tpl) = ok tpl
of_file path (fail no_entries) = fail no_entry
of_file path (fail (bad_line n e)) = fail (in_file path (bad_line n e))
of_file path (fail (unreadable e)) = fail (in_file path (unreadable e))

-- `NewTemplate`
unfoldable pub new_template : Bytes → Result TemplateError Template
unfolding load_template
new_template content = of_input (load_template (record { content = content; broken = false }))

-- `NewTemplateFromFile`; the file is `none` where it cannot be opened.
unfoldable pub new_template_from_file : Bytes → Option Input → Result TemplateError Template
unfolding load_template
new_template_from_file path none = fail (unopened path)
new_template_from_file path (some input) = of_file path (load_template input)
