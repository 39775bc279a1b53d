-- ===== src/Report/Redraw.antt =====
-- internal/report/status.go: what the terminal is sent by the redraws of `loop`, and the lines that `fWrite`
-- keeps for them; both run under the lock.
pub mod Stopping
pub mod Shown
use dnsanity.Common.{
  ◌≡◌, refl, sym, ap, ◌∙◌, true, not, List, [], ◌∷◌, ◌++◌, append_assoc, append-nil, if◌then◌else◌,
  Bool-cases, inl, inr,
}
use dnsanity.Text.{Bytes, has_suffix}
use dnsanity.Report.Status.{File, write_to}

-- What is written to `TTYFile`, piece by piece: `pBarEraser`, the cached lines, the bar, and the two
-- newlines of `Stop`
pub data Piece : Type 0 where
  eraser bar last : Piece
  lines : Bytes → Piece

-- The terminal and `cacheStr`
pub record Terminal : Type 0 where
  pub sent : List Piece
  pub cache_str : Bytes

-- The work of one tick of `loop`
unfoldable pub redraw : Terminal → Terminal
redraw t = record { sent = t.sent ++ eraser ∷ lines t.cache_str ∷ bar ∷ []; cache_str = [] }

-- What happens while there is a bar: a text is written to a file, or a tick
pub data Action : Type 0 where
  write : File → Bytes → Action
  tick : Action

module _ (strip_ansi : Bytes → Bytes) where
  unfoldable pub act : Action → Terminal → Terminal
  unfolding write_to redraw
  act (write file str) t = record t {
    cache_str = (write_to strip_ansi true file str t.cache_str).1;
  }
  act tick t = redraw t

  unfoldable pub act_all : List Action → Terminal → Terminal
  unfolding act
  act_all [] t = t
  act_all (a ∷ more) t = act_all more (act a t)

-- The cached lines among what the terminal was sent
abbrev pub lines_of : List Piece → Bytes
lines_of [] = []
lines_of (lines text ∷ ps) = text ++ lines_of ps
lines_of (_ ∷ ps) = lines_of ps

-- A text with its newline
abbrev pub as_line : Bytes → Bytes
as_line str = if not (has_suffix str (10 ∷ [])) then str ++ 10 ∷ [] else str

-- The lines that are written to files that are terminals
abbrev pub written : List Action → Bytes
written [] = []
written (write file str ∷ more) = (if file.is_tty then as_line str else []) ++ written more
written (tick ∷ more) = written more

-- The lines on the terminal and those that wait for it
abbrev pub output_of : Terminal → Bytes
output_of t = lines_of t.sent ++ t.cache_str

pub lines_of-append : (ps qs : List Piece) → lines_of (ps ++ qs) ≡ lines_of ps ++ lines_of qs
lines_of-append [] qs = refl
lines_of-append (eraser ∷ ps) qs = lines_of-append ps qs
lines_of-append (bar ∷ ps) qs = lines_of-append ps qs
lines_of-append (last ∷ ps) qs = lines_of-append ps qs
lines_of-append (lines text ∷ ps) qs =
    ap (λ s. text ++ s) (lines_of-append ps qs)
    ∙ sym (append_assoc text (lines_of ps) (lines_of qs))

redraw-output : (t : Terminal) → output_of (redraw t) ≡ output_of t
unfolding redraw
redraw-output t =
    append-nil _
    ∙ lines_of-append t.sent (eraser ∷ lines t.cache_str ∷ bar ∷ [])
    ∙ ap (λ s. lines_of t.sent ++ s) (append-nil t.cache_str)

module _ (strip_ansi : Bytes → Bytes) where
  act-output :
      (a : Action) (t : Terminal) → output_of (act strip_ansi a t) ≡ output_of t ++ written (a ∷ [])
  unfolding act write_to
  act-output (write file str) t = elim (Bool-cases file.is_tty) [
    | inl e ↦ rw e (
        ap (λ s. lines_of t.sent ++ (t.cache_str ++ s)) (sym (append-nil (as_line str)))
        ∙ sym (append_assoc (lines_of t.sent) t.cache_str (as_line str ++ [])))
    | inr e ↦ rw e (sym (append-nil (output_of t)))
  ]
  act-output tick t = redraw-output t ∙ sym (append-nil (output_of t))

  written-cons :
      (a : Action) (more : List Action) → written (a ∷ more) ≡ written (a ∷ []) ++ written more
  written-cons (write file str) more =
      ap (λ s. s ++ written more) (sym (append-nil (if file.is_tty then as_line str else [])))
  written-cons tick more = refl

  -- Whatever texts are written while there is a bar, and however ticks fall between them, the terminal has
  -- shown, or holds back for the next tick, each text for a file that is a terminal as a line, once and in
  -- the order in which they were written, behind the lines that were there or waited before. What `Stop`
  -- does afterwards is not part of it.
  pub act_all-output :
      (more : List Action) (t : Terminal)
      → output_of (act_all strip_ansi more t) ≡ output_of t ++ written more
  unfolding act_all
  act_all-output [] t = sym (append-nil (output_of t))
  act_all-output (a ∷ more) t =
      act_all-output more (act strip_ansi a t)
      ∙ ap (λ s. s ++ written more) (act-output a t)
      ∙ append_assoc (output_of t) (written (a ∷ [])) (written more)
      ∙ ap (λ s. output_of t ++ s) (sym (written-cons a more))
