-- ===== src/Dns/Glob.antt =====
-- internal/dns/template.go, `globMatch`: a pattern is cut on `*`, and its segments are looked for from
-- left to right.
pub mod Spec
pub mod Correct
use dnsanity.Common.{
  ℕ, ◌+◌, Bool, true, false, not, ◌||◌, ◌&&◌, List, [], ◌∷◌, Option, none, some, length, drop,
  if◌then◌else◌,
}
use dnsanity.Text.{
  Bytes, codes, str_eq, has_prefix, has_suffix, index, contains, lower_byte, to_lower,
}
use dnsanity.Text.Split.{split}

-- `s == ""`
abbrev pub is_empty : Bytes → Bool
is_empty [] = true
is_empty (c ∷ s) = false

-- The first segment: what is left of the text behind it, or `none` where the function returns false.
pub strip_first : Bytes → Bytes → Option Bytes
strip_first first str =
    if not (is_empty first)
    then if has_prefix str first then some (drop (length first) str) else none
    else some str

-- One round of the loop over the intermediate segments
pub strip_middle : Bytes → Bytes → Option Bytes
strip_middle part str =
    if is_empty part
    then some str
    else elim (index str part) [ none ↦ none | some i ↦ some (drop (i + length part) str) ]

-- The last segment
pub ends_right : Bytes → Bytes → Bool
ends_right last str = if not (is_empty last) && not (has_suffix str last) then false else true

-- The segments after the first: intermediate ones, and the last.
pub walk : Bytes → List Bytes → Bytes → Bool
walk last [] str = ends_right last str
walk part (next ∷ parts) str = elim (strip_middle part str) [
  | none ↦ false
  | some str' ↦ walk next parts str'
]

-- All segments. A pattern with no `*` has only one; `strings.Split` never returns none.
pub glob_parts : List Bytes → Bytes → Bool
glob_parts [] str = true
glob_parts (first ∷ []) str = elim (strip_first first str) [
  | none ↦ false
  | some str' ↦ ends_right first str'
]
glob_parts (first ∷ next ∷ parts) str = elim (strip_first first str) [
  | none ↦ false
  | some str' ↦ walk next parts str'
]

-- `globMatch` on texts in lower case
pub glob_lower : Bytes → Bytes → Bool
glob_lower pattern str =
    if not (contains pattern b'*')
    then str_eq pattern str
    else glob_parts (split pattern (codes "*")) str

-- `globMatch`
unfoldable pub glob_match : Bytes → Bytes → Bool
unfolding glob_lower glob_parts walk ends_right strip_middle strip_first has_suffix index contains
    split
glob_match pattern str = glob_lower (to_lower pattern) (to_lower str)
