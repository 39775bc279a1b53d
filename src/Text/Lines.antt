-- ===== src/Text/Lines.antt =====
-- Go's `bufio.Scanner` as the program uses it, on lines: with the buffer of 64 KiB that it has unless
-- `Buffer` is called.
use dnsanity.Common.{
  ℕ, ◌≤◌, ◌<◌, ◌≡◌, refl, sym, ap, ◌∙◌, append_assoc, append-nil, Bool, List, [], ◌∷◌, ◌++◌, Option,
  none, some, arith, length, ltb, ltb_iff, All, ◌==◌, if◌then◌else◌,
}
use dnsanity.Text.{Bytes, Lacks}
use dnsanity.Text.Split.{split, split-append, split-Lacks_self}

abbrev pub newline : ℕ
newline = 10

-- `bufio.MaxScanTokenSize`. A line and its newline have to fit the buffer; a last line that fills it
-- is given up as well, before the end of the input is seen.
abbrev pub max_scan_token_size : ℕ
max_scan_token_size = 65536

-- Why `Scanner.Err` is not nil: `bufio.ErrTooLong`, or an error of the reader
pub data ScanError : Type 0 where
  too_long read_failed : ScanError

-- What a reader gives before its end, and whether it ends with an error
pub record Input : Type 0 where
  pub content : Bytes
  pub broken : Bool

-- `dropCR` of `bufio.ScanLines`
abbrev pub drop_cr : Bytes → Bytes
drop_cr [] = []
drop_cr (c ∷ []) = if c == 13 then [] else c ∷ []
drop_cr (c ∷ d ∷ s) = c ∷ drop_cr (d ∷ s)

-- One line in front of what follows, or the end where it does not fit
unfoldable pub take_line : Bytes → List Bytes × Option ScanError → List Bytes × Option ScanError
take_line line (lines, err) =
    if ltb (length line) max_scan_token_size
    then (drop_cr line ∷ lines, err)
    else ([], some too_long)

-- The lines that `Scan` gives, and the error with which it ends; what follows the last newline is a
-- line unless it is empty.
unfoldable pub scan_parts : Option ScanError → List Bytes → List Bytes × Option ScanError
unfolding take_line
scan_parts at_end [] = ([], at_end)
scan_parts at_end ([] ∷ []) = ([], at_end)
scan_parts at_end ((c ∷ s) ∷ []) = take_line (c ∷ s) ([], at_end)
scan_parts at_end (line ∷ next ∷ parts) = take_line line (scan_parts at_end (next ∷ parts))

abbrev pub end_error : Bool → Option ScanError
end_error broken = if broken then some read_failed else none

-- `for scanner.Scan() { … scanner.Text() … }`, and `scanner.Err()`
unfoldable pub scan_lines : Input → List Bytes × Option ScanError
unfolding scan_parts split
scan_lines input = scan_parts (end_error input.broken) (split input.content (newline ∷ []))

-- A line that is given back as it is: no newline in it, no carriage return at its end, and short enough
-- for the buffer.
pub record IsLine (line : Bytes) : Type 0 where
  pub one_line : Lacks newline line
  pub no_cr : drop_cr line ≡ line
  pub fits : length line < max_scan_token_size

take_line-fits :
    (line : Bytes) (r : List Bytes × Option ScanError)
    → length line < max_scan_token_size
    → take_line line r ≡ (drop_cr line ∷ r.0, r.1)
unfolding take_line
take_line-fits line (lines, err) h = ground (arith, ltb_iff (length line) max_scan_token_size)

take_line-long :
    (line : Bytes) (r : List Bytes × Option ScanError)
    → max_scan_token_size ≤ length line
    → take_line line r ≡ ([], some too_long)
unfolding take_line
take_line-long line (lines, err) h = ground (arith, ltb_iff (length line) max_scan_token_size)

scan-next :
    (at_end : Option ScanError) (line next : Bytes) (parts : List Bytes)
    → scan_parts at_end (line ∷ next ∷ parts) ≡ take_line line (scan_parts at_end (next ∷ parts))
unfolding scan_parts
scan-next at_end [] next parts = refl
scan-next at_end (c ∷ line) next parts = refl

scan-long :
    (at_end : Option ScanError) (line : Bytes) (parts : List Bytes)
    → max_scan_token_size ≤ length line
    → scan_parts at_end (line ∷ parts) ≡ ([], some too_long)
unfolding scan_parts
scan-long at_end [] parts ge = absurd (omega arith)
scan-long at_end (c ∷ line) [] ge = take_line-long (c ∷ line) ([], at_end) ge
scan-long at_end (c ∷ line) (next ∷ parts) ge =
    take_line-long (c ∷ line) (scan_parts at_end (next ∷ parts)) ge

-- Whole lines, each with its newline, and what follows them
scan-lines :
    (at_end : Option ScanError) (lines parts : List Bytes) (next : Bytes)
    → All IsLine lines
    → scan_parts at_end (lines ++ next ∷ parts)
      ≡ (lines ++ (scan_parts at_end (next ∷ parts)).0, (scan_parts at_end (next ∷ parts)).1)
scan-lines at_end [] parts next h = refl
scan-lines at_end (line ∷ lines) parts next (h, hs) =
    go lines
    ∙ ap (take_line line) (scan-lines at_end lines parts next hs)
    ∙ take_line-fits line _ h.fits
    ∙ rw h.no_cr refl
  where
    go :
        (lines : List Bytes)
        → scan_parts at_end (line ∷ (lines ++ next ∷ parts))
          ≡ take_line line (scan_parts at_end (lines ++ next ∷ parts))
    go [] = scan-next at_end line next parts
    go (l ∷ ls) = scan-next at_end line l (ls ++ next ∷ parts)

-- The text of whole lines
abbrev pub text_of : List Bytes → Bytes
text_of [] = []
text_of (line ∷ lines) = line ++ (newline ∷ text_of lines)

split-text_of :
    (lines : List Bytes) (rest : Bytes)
    → All IsLine lines
    → split (text_of lines ++ rest) (newline ∷ []) ≡ lines ++ split rest (newline ∷ [])
split-text_of [] rest h = refl
split-text_of (line ∷ lines) rest (h, hs) =
    ap (λ t. split t (newline ∷ [])) (append_assoc line (newline ∷ text_of lines) rest)
    ∙ split-append newline line (text_of lines ++ rest) h.one_line
    ∙ ap (◌∷◌ line) (split-text_of lines rest hs)

-- Whole lines are read back as they are.
pub scan_lines-text_of :
    (lines : List Bytes) (broken : Bool)
    → All IsLine lines
    → scan_lines (record { content = text_of lines; broken = broken }) ≡ (lines, end_error broken)
unfolding scan_lines
scan_lines-text_of lines broken h =
    ap (scan_parts (end_error broken)) (
      ap (λ t. split t (newline ∷ [])) (sym (append-nil (text_of lines)))
      ∙ split-text_of lines [] h
      ∙ ap (λ t. lines ++ t) (split-Lacks_self newline [] tt))
    ∙ scan-lines (end_error broken) lines [] [] h
    ∙ ends
  where
    ends :
        ◌≡◌ {A = List Bytes × Option ScanError}
          (
            lines ++ (scan_parts (end_error broken) ([] ∷ [])).0,
            (scan_parts (end_error broken) ([] ∷ [])).1,
          )
          (lines, end_error broken)
    ends = unfold scan_parts in ap (λ t. (t, end_error broken)) (append-nil lines)

-- From a line on that does not fit the buffer, nothing is read.
pub scan_lines-long :
    (lines : List Bytes) (long rest : Bytes) (broken : Bool)
    → All IsLine lines
    → Lacks newline long
    → max_scan_token_size ≤ length long
    → scan_lines (record { content = text_of lines ++ (long ++ (newline ∷ rest)); broken = broken })
      ≡ (lines, some too_long)
unfolding scan_lines
scan_lines-long lines long rest broken h one ge =
    ap (scan_parts (end_error broken)) (
      split-text_of lines (long ++ (newline ∷ rest)) h
      ∙ ap (λ t. lines ++ t) (split-append newline long rest one))
    ∙ scan-lines (end_error broken) lines (split rest (newline ∷ [])) long h
    ∙ rw (scan-long (end_error broken) long (split rest (newline ∷ [])) ge)
        (ap (λ t. (t, some too_long)) (append-nil lines))
