-- ===== src/Tests/Screen.antt =====
-- The bar and the lines on the terminal.
use dnsanity.Common.{
  refl, ℕ, Bool, ◌⊎◌, ◌+◌, ◌*◌, ◌/◌, ◌≤◌, ◌<◌, ◌≡◌, true, false, List, [], ◌∷◌, ◌++◌, some, arith,
  All,
}
use dnsanity.Text.{codes}
use dnsanity.Report.Status.{File, StatusReporter, is_finished, new_status_reporter}
use dnsanity.Report.Bar.{Runes, Rounded, full_block, repeated, sides, render_braille_bar}
use dnsanity.Report.Bar.Width.{IsNear, IsBar, render_braille_bar-IsBar}
use dnsanity.Report.Redraw.{
  Terminal, Action, write, tick, act_all, lines_of, written, output_of, act_all-output,
}
use dnsanity.Report.Redraw.Stopping.{ready, finished, race, before_stop}
use dnsanity.Report.Redraw.Shown.{race-shown}
use dnsanity.Dnsanitize.Displayed.{dnsanitize-IsBar}
use dnsanity.Tests.Run.{
  exact, small, settings, no_files, two_turns, small_ok, asked_system, run_asked,
}

-- Halves are rounded up; a total of 0 is not met.
abbrev half_up : Rounded
half_up = λ value total scale. (2 * scale * value + total) / (2 * total)

quotient : (n d : ℕ) → 0 < d → (d * (n / d) ≤ n) × (n < d * (n / d) + d)
quotient n d lt = omega arith

half_up-IsNear : IsNear half_up
half_up-IsNear value total scale le some_total small =
    let (low, high) = quotient (2 * scale * value + total) (2 * total) (omega arith) in
    (omega arith, omega arith)

abbrev two_of_three : StatusReporter
two_of_three =
    record (new_status_reporter no_files 0 (codes "1.1" ∷ codes "2.2" ∷ codes "3.3" ∷ []) [] 1 1) {
      valid_servers = 2;
      invalid_servers = 1;
    }

-- Two thirds of the bar are for the valid servers.
draws_bar : sides half_up two_of_three ≡ (repeated 40 full_block, repeated 20 full_block)
unfolding sides new_status_reporter
draws_bar = refl

render_braille_bar-IsBar_example :
    (text valid spaces invalid : Runes) × (render_braille_bar half_up two_of_three ≡ some text)
    × IsBar text valid spaces invalid
    × (is_finished two_of_three ≡ true
        → 0 < two_of_three.total_servers
        → (spaces ≡ []) × All (λ r. r ≡ full_block) valid × All (λ r. r ≡ full_block) invalid)
render_braille_bar-IsBar_example =
    render_braille_bar-IsBar half_up two_of_three half_up-IsNear three
  where
    three : two_of_three.valid_servers + two_of_three.invalid_servers ≤ two_of_three.total_servers
    three = unfold new_status_reporter in (omega arith)

dnsanitize-IsBar_example :
    (text valid spaces invalid : Runes) × (render_braille_bar half_up asked_system.status
      ≡ some text)
    × IsBar text valid spaces invalid
dnsanitize-IsBar_example =
    dnsanitize-IsBar exact small settings two_turns no_files 0 half_up small_ok half_up-IsNear
      run_asked

abbrev screen : File
screen = record { is_tty = true; is_buffer = false; content = [] }

abbrev file : File
file = record { is_tty = false; is_buffer = false; content = [] }

abbrev actions : List Action
actions =
    write screen (codes "1.1") ∷ tick ∷ write file (codes "x") ∷ write screen (codes "2.2") ∷ []

abbrev empty_terminal : Terminal
empty_terminal = record { sent = []; cache_str = [] }

act_all-output_example :
    output_of (act_all (λ s. s) actions empty_terminal)
    ≡ output_of empty_terminal ++ written actions
act_all-output_example = act_all-output (λ s. s) actions empty_terminal

abbrev waiting_terminal : Terminal
waiting_terminal = record { sent = []; cache_str = codes "1.1" }

-- The tick reads before `Stop` clears, and the line is shown twice.
abbrev overlap : List Bool
overlap = true ∷ false ∷ true ∷ false ∷ true ∷ false ∷ []

shown_twice : lines_of (race overlap (before_stop waiting_terminal)).terminal.sent ≡ codes "1.11.1"
unfolding race
shown_twice = refl

overlap_ends : (race overlap (before_stop waiting_terminal)).stopping ≡ finished
unfolding race
overlap_ends = refl

overlap_idle : (race overlap (before_stop waiting_terminal)).ticking ≡ ready
unfolding race
overlap_idle = refl

race-shown_example :
    ((race overlap (before_stop waiting_terminal)).terminal.cache_str ≡ [])
    × ((lines_of (race overlap (before_stop waiting_terminal)).terminal.sent
          ≡ output_of waiting_terminal)
        ⊎ (lines_of (race overlap (before_stop waiting_terminal)).terminal.sent
            ≡ output_of waiting_terminal ++ waiting_terminal.cache_str))
race-shown_example = race-shown overlap waiting_terminal overlap_ends overlap_idle
