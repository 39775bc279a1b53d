-- ===== src/Tests/Lists.antt =====
-- Lists of servers and templates, as texts.
use dnsanity.Common.{
  ℕ, zero, suc, ◌≤◌, ◌≢◌, ◌≡◌, ◌↔◌, refl, ap, Bool, true, false, List, [], ◌∷◌, ◌++◌, map, arith,
  Result, ok, fail, length,
}
use dnsanity.Text.{Bytes, codes, contains, contains→Lacks, Lacks, is_space}
use dnsanity.Text.Lines.{Input, scan_lines, newline, max_scan_token_size, IsLine, text_of}
use dnsanity.Dns.Answer.{no_answer}
use dnsanity.Dns.Template.{Template, entry_to_string}
use dnsanity.Dns.Template.Load.{TemplateError, load_template, new_template, bad_line}
use dnsanity.Dns.Template.Load.Laws.{IsLoadable, load_template-entry_to_string}
use dnsanity.Dns.Template.Load.Errors.{IsBadLine, load_template-IsBadLine}
use dnsanity.Config.Options.{default_template}
use dnsanity.Config.ServerList.{parse_input, parse_server_list, no_file}
use dnsanity.Config.ServerList.Laws.{all_elements, AllIps, parse_input_iff}
use dnsanity.Config.ServerList.Texts.{IsElement, parse_input-text_of, parse_input_truncated}
use dnsanity.Tests.Words.{a_entry, a_entry-IsPrintable}

-- An address is a text with a dot.
abbrev pub dotted : Bytes → Bool
dotted ip = contains ip b'.'

abbrev two_lines : Input
two_lines = record { content = codes "1.1, 2.2 # x" ++ newline ∷ codes "3.3"; broken = false }

parses_list :
    parse_server_list dotted (codes " 8.8,9.9 ") no_file ≡ ok (codes "8.8" ∷ codes "9.9" ∷ [])
unfolding parse_server_list contains
parses_list = refl

abbrev one_ip : Bytes
one_ip = codes "1.2"

one_ip-IsElement : IsElement one_ip
unfolding contains is_space
one_ip-IsElement = record {
  trimmed = record {
    head = b'1';
    tail = codes ".2";
    starts = refl;
    head_dark = refl;
    init = codes "1.";
    last = b'2';
    ends = refl;
    last_dark = refl;
  };
  no_comma = contains→Lacks one_ip b',' refl;
  no_comment = contains→Lacks one_ip b'#' refl;
  one_line = one_ip-IsLine;
}
  where
    one_ip-IsLine : IsLine one_ip
    one_ip-IsLine = record {
      one_line = contains→Lacks one_ip newline refl;
      no_cr = refl;
      fits = omega arith;
    }

dotted_ip : dotted one_ip ≡ true
unfolding contains
dotted_ip = refl

not_empty : {A : Type 0} (x : A) (xs : List A) → x ∷ xs ≢ []
not_empty x xs e = cc

parse_input-text_of_example :
    parse_input dotted (record { content = text_of (one_ip ∷ []); broken = false })
    ≡ ok (one_ip ∷ [])
parse_input-text_of_example =
    parse_input-text_of dotted (one_ip ∷ []) (not_empty one_ip []) (dotted_ip, tt)
      (one_ip-IsElement, tt)

-- Its three addresses, without the comment
abbrev three_ips : List Bytes
three_ips = codes "1.1" ∷ codes "2.2" ∷ codes "3.3" ∷ []

parses_lines : parse_input dotted two_lines ≡ ok three_ips
unfolding parse_input contains
parses_lines = refl

parse_input_iff_example : (parse_input dotted two_lines ≡ ok three_ips) ↔ (
    (three_ips ≡ all_elements (scan_lines two_lines).0)
    × AllIps dotted three_ips
    × (three_ips ≢ []))
parse_input_iff_example = parse_input_iff dotted two_lines three_ips

-- A line of a given length
dashes : ℕ → Bytes
dashes zero = []
dashes (suc n) = b'-' ∷ dashes n

length-dashes : (n : ℕ) → length (dashes n) ≡ n
unfolding dashes
length-dashes zero = refl
length-dashes (suc n) = ap suc (length-dashes n)

dashes-Lacks : (n : ℕ) → Lacks newline (dashes n)
unfolding dashes
dashes-Lacks zero = tt
dashes-Lacks (suc n) = (omega arith, dashes-Lacks n)

long_enough : max_scan_token_size ≤ length (dashes max_scan_token_size)
long_enough = omega (arith, length-dashes max_scan_token_size)

parse_input_truncated_example :
    parse_input dotted (record {
      content = text_of (one_ip ∷ []) ++ (dashes max_scan_token_size ++ (newline ∷ one_ip));
      broken = false;
    })
    ≡ parse_input dotted (record { content = text_of (one_ip ∷ []); broken = false })
parse_input_truncated_example =
    parse_input_truncated dotted (one_ip ∷ []) (dashes max_scan_token_size) one_ip false
      (one_ip-IsElement.one_line, tt) (dashes-Lacks max_scan_token_size) long_enough

a_entry-IsLoadable : IsLoadable a_entry
unfolding contains entry_to_string
a_entry-IsLoadable = record {
  printable = a_entry-IsPrintable;
  no_comment = contains→Lacks (entry_to_string a_entry) b'#' refl;
  one_line = record {
    one_line = contains→Lacks (entry_to_string a_entry) newline refl;
    no_cr = refl;
    fits = omega arith;
  };
}

load_template-entry_to_string_example :
    load_template
      (record { content = text_of (map entry_to_string (a_entry ∷ a_entry ∷ [])); broken = false })
    ≡ ok (a_entry ∷ a_entry ∷ [])
load_template-entry_to_string_example =
    load_template-entry_to_string (a_entry ∷ a_entry ∷ []) (not_empty a_entry (a_entry ∷ []))
      (a_entry-IsLoadable, (a_entry-IsLoadable, tt))

abbrev bad_text : Input
bad_text = record {
  content = codes "# x" ++ newline ∷ codes "a.co NXDOMAIN" ++ newline ∷ codes "b.co";
  broken = false;
}

bad_text-fails : load_template bad_text ≡ fail (bad_line 3 no_answer)
unfolding load_template
bad_text-fails = refl

load_template-IsBadLine_example : IsBadLine 1 3 no_answer (scan_lines bad_text).0
load_template-IsBadLine_example = load_template-IsBadLine bad_text 3 no_answer bad_text-fails

abbrev size_of : Result TemplateError Template → ℕ
size_of (ok tpl) = length tpl
size_of (fail e) = 0

-- The default template is loaded with its ten entries.
loads_default : size_of (new_template default_template) ≡ 10
unfolding new_template default_template
loads_default = refl
