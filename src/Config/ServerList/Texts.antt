-- ===== src/Config/ServerList/Texts.antt =====
-- internal/config/serverlist.go, `ParseServerList`: the text of a list, and a line that is too long.
use dnsanity.Common.{
  ◌≡◌, ◌≤◌, refl, sym, ap, ◌∙◌, ◌≢◌, Bool, false, List, [], ◌∷◌, ◌++◌, ok, ◌>>=◌, All, length,
}
use dnsanity.Text.{Bytes, codes, Lacks}
use dnsanity.Text.Split.{split, split-Lacks_self, index-none}
use dnsanity.Text.Trim.{IsTrimmed, trim_space-IsTrimmed}
use dnsanity.Text.Lines.{
  newline, max_scan_token_size, IsLine, text_of, scan_lines-text_of, scan_lines-long,
}
use dnsanity.Dns.Glob.{is_empty}
use dnsanity.Config.ServerList.{cut_comment, parse_lines, finish_list, parse_input}
use dnsanity.Config.ServerList.Laws.{
  elements, uncommented, cut_comment-uncommented, all_elements, AllIps, parse_input_iff,
}

-- An address that can stand alone on a line of a list
pub record IsElement (ip : Bytes) : Type 0 where
  pub trimmed : IsTrimmed ip
  pub no_comma : Lacks b',' ip
  pub no_comment : Lacks b'#' ip
  pub one_line : IsLine ip

cut_comment-Lacks : (line : Bytes) → Lacks b'#' line → cut_comment line ≡ line
unfolding cut_comment
cut_comment-Lacks line h = rw (index-none b'#' [] line h, cut_comment) refl

uncommented-Lacks : (line : Bytes) → Lacks b'#' line → uncommented line ≡ line
uncommented-Lacks line h = sym (cut_comment-uncommented line) ∙ cut_comment-Lacks line h

IsTrimmed-not_empty : (s : Bytes) → IsTrimmed s → is_empty s ≡ false
IsTrimmed-not_empty [] h = absurd (no_byte h.starts)
  where
    no_byte : [] ≡ h.head ∷ h.tail → ⊥
    no_byte e = cc
IsTrimmed-not_empty (c ∷ s) h = refl

elements-one : (ip : Bytes) → IsTrimmed ip → elements (ip ∷ []) ≡ ip ∷ []
unfolding elements
elements-one ip h = rw (trim_space-IsTrimmed ip h, IsTrimmed-not_empty ip h) refl

all_elements-lines : (ips : List Bytes) → All IsElement ips → all_elements ips ≡ ips
unfolding all_elements
all_elements-lines [] h = refl
all_elements-lines (ip ∷ ips) (h, hs) =
    ap (λ t. elements (split t (codes ",")) ++ all_elements ips) (uncommented-Lacks ip h.no_comment)
    ∙ ap (λ ps. elements ps ++ all_elements ips) (split-Lacks_self b',' ip h.no_comma)
    ∙ ap (λ es. es ++ all_elements ips) (elements-one ip h.trimmed)
    ∙ ap (◌∷◌ ip) (all_elements-lines ips hs)

elements-IsLine : (ips : List Bytes) → All IsElement ips → All IsLine ips
elements-IsLine [] h = tt
elements-IsLine (ip ∷ ips) (h, hs) = (h.one_line, elements-IsLine ips hs)

module _ (is_ip : Bytes → Bool) where
  -- A list of addresses that is not empty, written one on a line, is read back in its order, where each
  -- address is trimmed, short enough for a line, and holds no comma, no `#` and no newline.
  pub parse_input-text_of :
      (ips : List Bytes)
      → ips ≢ []
      → AllIps is_ip ips
      → All IsElement ips
      → parse_input is_ip (record { content = text_of ips; broken = false }) ≡ ok ips
  parse_input-text_of ips ne valid h =
      (parse_input_iff is_ip (record { content = text_of ips; broken = false }) ips).1 (
        sym (
            ap (λ r. all_elements r.0) (scan_lines-text_of ips false (elements-IsLine ips h))
            ∙ all_elements-lines ips h),
        valid,
        ne,
      )

  -- Behind whole lines, a line of at least 64 KiB cuts the list off without an error: the result is that
  -- of the lines before it, whatever follows.
  pub parse_input_truncated :
      (lines : List Bytes) (long rest : Bytes) (broken : Bool)
      → All IsLine lines
      → Lacks newline long
      → max_scan_token_size ≤ length long
      → parse_input is_ip
          (record { content = text_of lines ++ (long ++ (newline ∷ rest)); broken = broken })
        ≡ parse_input is_ip (record { content = text_of lines; broken = false })
  unfolding parse_input
  parse_input_truncated lines long rest broken h one ge =
      ap (λ r. parse_lines is_ip r.0 >>= finish_list is_ip)
        (scan_lines-long lines long rest broken h one ge)
      ∙ sym
          (ap (λ r. parse_lines is_ip r.0 >>= finish_list is_ip) (scan_lines-text_of lines false h))
