-- ===== src/Report/Bar.antt =====
-- internal/report/status.go: `scaleValue` and `renderBrailleBar`. A text is a list of runes here.
pub mod Width
use dnsanity.Common.{
  ℕ, zero, suc, ◌+◌, ◌-◌, ◌/◌, ◌%◌, Bool, true, false, ◌&&◌, List, [], ◌∷◌, ◌++◌, map, Option, none,
  some, length, take, drop, get_elem?, ltb, leb, ◌==◌, if◌then◌else◌,
}
use dnsanity.Text.{codes}
use dnsanity.Report.Dump.{esc}
use dnsanity.Report.Status.{StatusReporter, is_finished}

abbrev pub Runes : Type 0
Runes = List ℕ

-- `int(math.Round(x))` for the `float64` that `scaleValue` computes from a total other than 0
abbrev pub Rounded : Type 0
Rounded = ℕ → ℕ → ℕ → ℕ

-- `int(math.Round(scaleValue(value, total, scale)))`
unfoldable pub scaled : Rounded → ℕ → ℕ → ℕ → ℕ
scaled rounded value total scale = if total == 0 then 0 else rounded value total scale

-- `⣿`
abbrev pub full_block : ℕ
full_block = 10495

-- `⡀⡄⡆⡇⣇⣧⣷` and `⠈⠘⠸⢸⢹⢻⢿`
abbrev left_parts : Runes
left_parts = 10304 ∷ 10308 ∷ 10310 ∷ 10311 ∷ 10439 ∷ 10471 ∷ 10487 ∷ []

abbrev right_parts : Runes
right_parts = 10248 ∷ 10264 ∷ 10296 ∷ 10424 ∷ 10425 ∷ 10427 ∷ 10431 ∷ []

abbrev pub repeated : ℕ → ℕ → Runes
repeated zero r = []
repeated (suc n) r = r ∷ repeated n r

abbrev pub one_rune : Option ℕ → Runes
one_rune none = []
one_rune (some r) = r ∷ []

-- The rune for 1 to 7 points, and none for 0
abbrev pub part : Runes → ℕ → Runes
part parts extra = if ltb 0 extra then one_rune (get_elem? parts (extra - 1)) else []

unfoldable pub build_left : ℕ → Runes
build_left pts = repeated (pts / 8) full_block ++ part left_parts (pts % 8)

unfoldable pub build_right : ℕ → Runes
build_right pts = part right_parts (pts % 8) ++ repeated (pts / 8) full_block

-- The overflow correction; `more_valid` is `extraValid >= extraInvalid`.
unfoldable pub trim : Bool → Runes → Runes → Runes × Runes
trim more_valid valid invalid =
    if ltb 60 (length valid + length invalid)
    then (if length valid == 1
        then (valid, drop 1 invalid)
        else if length invalid == 1
        then (take (length valid - 1) valid, invalid)
        else if leb 2 (length valid) && leb 2 (length invalid)
        then (if more_valid
            then (valid, drop 1 invalid)
            else (take (length valid - 1) valid, invalid))
        else (valid, invalid))
    else (valid, invalid)

-- The two sides of the bar
unfoldable pub sides : Rounded → StatusReporter → Runes × Runes
unfolding scaled build_left build_right trim is_finished
sides rounded s =
    let valid_pts = scaled rounded s.valid_servers s.total_servers 480 in
    let invalid_pts = scaled rounded s.invalid_servers s.total_servers 480 in
    let (valid, invalid) =
      trim (leb (invalid_pts % 8) (valid_pts % 8)) (build_left valid_pts)
        (build_right invalid_pts) in
    if is_finished s
    then (map (λ r. full_block) valid, map (λ r. full_block) invalid)
    else (valid, invalid)

-- The text of two sides; `strings.Repeat` panics on a negative count.
abbrev pub join_sides : Runes × Runes → Option Runes
join_sides (valid, invalid) =
    if ltb 60 (length valid + length invalid)
    then none
    else some (
        esc (codes "32m")
        ++ (valid
            ++ (repeated (60 - (length valid + length invalid)) b' '
                ++ (esc (codes "31m") ++ invalid))))

-- `renderBrailleBar`; `none` is a panic.
unfoldable pub render_braille_bar : Rounded → StatusReporter → Option Runes
unfolding sides
render_braille_bar rounded s = join_sides (sides rounded s)
