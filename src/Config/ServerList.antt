-- ===== src/Config/ServerList.antt =====
-- internal/config/serverlist.go: `ParseServerList`.
pub mod Laws
pub mod Texts
use dnsanity.Common.{
  Bool, true, false, not, List, [], ◌∷◌, ◌++◌, Option, none, some, take, Result, ok, fail, ◌>>=◌,
  if◌then◌else◌,
}
use dnsanity.Text.{Bytes, codes, index, trim_space}
use dnsanity.Text.Split.{split}
use dnsanity.Text.Lines.{Input, scan_lines}
use dnsanity.Dns.Glob.{is_empty}

-- The errors of `ParseServerList`
pub data ListError : Type 0 where
  unopened invalid_ip : Bytes → ListError
  empty_list : ListError

-- What the file system holds at the input taken as a path: no file or a directory, a file that cannot be
-- opened, or the text of a file
pub data Lookup : Type 0 where
  no_file closed : Lookup
  opened : Input → Lookup

-- `if idx := strings.Index(line, "#"); idx != -1 { line = line[:idx] }`
unfoldable pub cut_comment : Bytes → Bytes
unfolding index
cut_comment line = elim (index line (codes "#")) [ none ↦ line | some i ↦ take i line ]

-- `is_ip` is whether `net.ParseIP` returns an address.
module _ (is_ip : Bytes → Bool) where
  -- The loop over the elements of a line, for what follows it
  unfoldable pub parse_elems : List Bytes → Result ListError (List Bytes)
  unfolding trim_space
  parse_elems [] = ok []
  parse_elems (elem ∷ elems) =
      let rest = parse_elems elems in
      let ip = trim_space elem in
      if is_empty ip
      then rest
      else if not (is_ip ip)
      then fail (invalid_ip ip)
      else (rest >>= λ servers. ok (ip ∷ servers))

  -- The loop over the lines
  unfoldable pub parse_lines : List Bytes → Result ListError (List Bytes)
  unfolding parse_elems split cut_comment
  parse_lines [] = ok []
  parse_lines (line ∷ lines) = parse_elems (split (cut_comment line) (codes ",")) >>= λ first.
      parse_lines lines >>= λ rest. ok (first ++ rest)

  -- What follows the loop. The scanner's error is not asked for.
  abbrev pub finish_list : List Bytes → Result ListError (List Bytes)
  finish_list [] = fail empty_list
  finish_list (ip ∷ servers) = ok (ip ∷ servers)

  unfoldable pub parse_input : Input → Result ListError (List Bytes)
  unfolding parse_lines scan_lines
  parse_input input = parse_lines (scan_lines input).0 >>= finish_list

  -- `ParseServerList`
  unfoldable pub parse_server_list : Bytes → Lookup → Result ListError (List Bytes)
  unfolding parse_input
  parse_server_list input no_file = parse_input (record { content = input; broken = false })
  parse_server_list input closed = fail (unopened input)
  parse_server_list input (opened file) = parse_input file
