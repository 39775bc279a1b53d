-- ===== src/Report/Redraw/Stopping.antt =====
-- internal/report/status.go: `Stop`, which takes no lock, beside the ticks of `loop`, each by the steps in which
-- it reads the cached lines, writes them and clears them. Nothing is written to a file any more when `main`
-- calls `Stop`.
use dnsanity.Common.{Bool, true, false, List, [], ◌∷◌, ◌++◌}
use dnsanity.Text.{Bytes}
use dnsanity.Report.Redraw.{eraser, bar, lines, last, Terminal}

-- How far a goroutine is: before its read, with the lines that it has read, after its write, and at the end
pub data Phase : Type 0 where
  ready written_out finished : Phase
  holding : Bytes → Phase

-- The terminal, the goroutine of `loop`, which is ready again after each tick, and `Stop`
pub record Race : Type 0 where
  pub terminal : Terminal
  pub ticking : Phase
  pub stopping : Phase

abbrev pub clear : Terminal → Terminal
clear t = record t { cache_str = [] }

abbrev pub tick_at : Phase → Race → Race
tick_at ready r = record r { ticking = holding r.terminal.cache_str }
tick_at (holding text) r = record r {
  terminal = record (r.terminal) { sent = r.terminal.sent ++ eraser ∷ lines text ∷ bar ∷ [] };
  ticking = written_out;
}
tick_at written_out r = record r { terminal = clear r.terminal; ticking = ready }
tick_at finished r = r

abbrev pub stop_at : Phase → Race → Race
stop_at ready r = record r { stopping = holding r.terminal.cache_str }
stop_at (holding text) r = record r {
  terminal = record (r.terminal) {
    sent = r.terminal.sent ++ eraser ∷ lines text ∷ bar ∷ last ∷ [];
  };
  stopping = written_out;
}
stop_at written_out r = record r { terminal = clear r.terminal; stopping = finished }
stop_at finished r = r

-- The steps of both in a given order: `true` is a step of `loop`, `false` one of `Stop`.
unfoldable pub race : List Bool → Race → Race
race [] r = r
race (true ∷ more) r = race more (tick_at r.ticking r)
race (false ∷ more) r = race more (stop_at r.stopping r)

abbrev pub before_stop : Terminal → Race
before_stop t = record { terminal = t; ticking = ready; stopping = ready }
