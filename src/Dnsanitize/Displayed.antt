-- ===== src/Dnsanitize/Displayed.antt =====
-- internal/dnsanitize/dnsanitize.go and internal/report/status.go: the bar that is drawn between any two
-- steps of a run.
use dnsanity.Common.{ℕ, ◌≡◌, Bool, List, some, arith}
use dnsanity.Report.Status.{IoFiles}
use dnsanity.Report.Bar.{Runes, Rounded, render_braille_bar}
use dnsanity.Report.Bar.Width.{IsNear, IsBar, render_braille_bar-IsBar}
use dnsanity.Dnsanitize.RateLimiter.{Floats}
use dnsanity.Dnsanitize.System.{System, Setup, Turn}
use dnsanity.Dnsanitize.Scheduler.{Settings, dnsanitize}
use dnsanity.Dnsanitize.Conservation.{IsSetup, fresh_status, dnsanitize-Inv}

-- With a bucket that fits 63 bits, a template of at least one check, and numbers that are scaled in
-- `float64` to at most 1024 and rounded within a half and a millionth, the bar can be drawn after any turns of a run of `DNSanitize`: its text
-- is made without a panic, and its two sides and the spaces between them are 60 runes.
pub dnsanitize-IsBar :
    (fl : Floats) (setup : Setup) (s : Settings) (turns : List Turn) (io : IoFiles) (now : ℕ)
    (rounded : Rounded) {sys : System} {done : Bool}
    → IsSetup fl setup s
    → IsNear rounded
    → dnsanitize fl setup s turns (fresh_status io now setup s) ≡ some (sys, done)
    → (text valid spaces invalid : Runes) × (render_braille_bar rounded sys.status ≡ some text)
      × IsBar text valid spaces invalid
dnsanitize-IsBar fl setup s turns io now rounded {sys} ok near e =
    let h = dnsanitize-Inv fl setup s turns io now ok e in
    let (text, valid, spaces, invalid, drawn, bar, full) =
      render_braille_bar-IsBar rounded sys.status near (omega (arith, h.accounted.servers_left)) in
    (text, valid, spaces, invalid, drawn, bar)
