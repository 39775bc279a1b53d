-- ===== src/Dns/Template/Load/Errors.antt =====
-- internal/dns/template.go, `loadTemplate`: its errors, against the lines of the input.
use dnsanity.Common.{
  ℕ, suc, ◌+◌, ◌≡◌, refl, sym, ap, ◌∙◌, true, false, List, [], ◌∷◌, ◌++◌, Option, none, some,
  Result, ok, fail, ◌>>=◌, Result-cases, arith, All, inl, inr, ◌⊎◌, Bool-cases, length, subst,
}
use dnsanity.Text.{Bytes}
use dnsanity.Text.Lines.{Input, ScanError, scan_lines}
use dnsanity.Dns.Answer.{ParseError}
use dnsanity.Dns.Glob.{is_empty}
use dnsanity.Dns.Template.{TemplateEntry, Template, new_template_entry}
use dnsanity.Dns.Template.Load.{LoadError, bad_line, clean, load_lines, finish_load, load_template}

-- A line that the loader passes over, or reads an entry from
abbrev pub Loads : Bytes → Type 0
Loads line =
    (is_empty (clean line) ≡ true)
    ⊎ ((te : TemplateEntry) × (new_template_entry (clean line) ≡ ok te))

-- Line `k` is the first that does not load, and `e` is its error; the first line has number `n`.
pub record IsBadLine (n k : ℕ) (e : ParseError) (lines : List Bytes) : Type 0 where
  pub before : List Bytes
  pub line : Bytes
  pub after : List Bytes
  pub place : lines ≡ before ++ line ∷ after
  pub number : k ≡ n + length before
  pub earlier : All Loads before
  pub some_text : is_empty (clean line) ≡ false
  pub error : new_template_entry (clean line) ≡ fail e

module _ (n : ℕ) (line : Bytes) (lines : List Bytes) where
  lines_skip : is_empty (clean line) ≡ true → load_lines n (line ∷ lines) ≡ load_lines (suc n) lines
  unfolding load_lines
  lines_skip e = rw (e, load_lines) refl

  lines_entry :
      (te : TemplateEntry)
      → is_empty (clean line) ≡ false
      → new_template_entry (clean line) ≡ ok te
      → load_lines n (line ∷ lines) ≡ (load_lines (suc n) lines >>= λ tpl. ok (te ∷ tpl))
  unfolding load_lines
  lines_entry te e q = rw (e, q, load_lines) refl

  lines_fail :
      (err : ParseError)
      → is_empty (clean line) ≡ false
      → new_template_entry (clean line) ≡ fail err
      → load_lines n (line ∷ lines) ≡ fail (bad_line n err)
  unfolding load_lines
  lines_fail err e q = rw (e, q, load_lines) refl

later :
    (n k : ℕ) (e : ParseError) (line : Bytes) (lines : List Bytes)
    → Loads line
    → IsBadLine (suc n) k e lines
    → IsBadLine n k e (line ∷ lines)
later n k e line lines loads h = record {
  before = line ∷ h.before;
  line = h.line;
  after = h.after;
  place = ap (◌∷◌ line) h.place;
  number = omega (arith, h.number);
  earlier = (loads, h.earlier);
  some_text = h.some_text;
  error = h.error;
}

fail_through :
    (te : TemplateEntry) (r : Result LoadError Template) (err : LoadError)
    → ◌≡◌ {A = Result LoadError Template} (r >>= λ tpl. ok (te ∷ tpl)) (fail err)
    → r ≡ fail err
fail_through te (ok tpl) err q = cc
fail_through te (fail e) err q = cc

-- The errors of the loop: only those of lines
load_lines-IsBadLine :
    (n : ℕ) (lines : List Bytes) (err : LoadError)
    → load_lines n lines ≡ fail err
    → (k : ℕ) × (e : ParseError) × (err ≡ bad_line k e) × IsBadLine n k e lines
load_lines-IsBadLine n [] err q = absurd (unfold load_lines in cc)
load_lines-IsBadLine n (line ∷ lines) err q = elim (Bool-cases (is_empty (clean line))) [
  | inl b ↦
      let (k, e, same, h) =
        load_lines-IsBadLine (suc n) lines err (sym (lines_skip n line lines b) ∙ q) in
      (k, e, same, later n k e line lines (inl b) h)
  | inr b ↦ elim (Result-cases (new_template_entry (clean line))) [
    | inl (te, p) ↦
        let (k, e, same, h) = load_lines-IsBadLine (suc n) lines err (
          fail_through te (load_lines (suc n) lines) err
            (sym (lines_entry n line lines te b p) ∙ q)) in
        (k, e, same, later n k e line lines (inr (te, p)) h)
    | inr (e, p) ↦ (
      n,
      e,
      cc (lines_fail n line lines e b p, q),
      record {
        before = [];
        line = line;
        after = lines;
        place = refl;
        number = omega arith;
        earlier = tt;
        some_text = b;
        error = p;
      },
    )
  ]
]

finish_load-line :
    (o : Option ScanError) (tpl : Template) (k : ℕ) (e : ParseError)
    → finish_load o tpl ≡ fail (bad_line k e)
    → ⊥
finish_load-line none [] k e q = cc
finish_load-line none (te ∷ tpl) k e q = cc
finish_load-line (some x) tpl k e q = cc

-- Where the error names a line, it is the first line read that does not load, counted from 1, and the
-- error is that line's.
pub load_template-IsBadLine :
    (input : Input) (k : ℕ) (e : ParseError)
    → load_template input ≡ fail (bad_line k e)
    → IsBadLine 1 k e (scan_lines input).0
unfolding load_template
load_template-IsBadLine input k e q = elim (Result-cases (load_lines 1 (scan_lines input).0)) [
  | inl (tpl, p) ↦ absurd (
      finish_load-line (scan_lines input).1 tpl k e
        (sym (ap (λ r. r >>= finish_load (scan_lines input).1) p) ∙ q))
  | inr (err, p) ↦
      let (k', e', same, h) = load_lines-IsBadLine 1 (scan_lines input).0 err p in
      let both : fail (bad_line k' e') ≡ fail (bad_line k e) =
        sym (ap fail same) ∙ sym (ap (λ r. r >>= finish_load (scan_lines input).1) p) ∙ q in
      subst (λ x. IsBadLine 1 x e (scan_lines input).0) (line_injective both)
        (subst (λ x. IsBadLine 1 k' x (scan_lines input).0) (error_injective both) h)
]
  where
    line_injective :
        {k k' : ℕ} {e e' : ParseError}
        → ◌≡◌ {A = Result LoadError Template} (fail (bad_line k e)) (fail (bad_line k' e'))
        → k ≡ k'
    line_injective h = cc

    error_injective :
        {k k' : ℕ} {e e' : ParseError}
        → ◌≡◌ {A = Result LoadError Template} (fail (bad_line k e)) (fail (bad_line k' e'))
        → e ≡ e'
    error_injective h = cc
