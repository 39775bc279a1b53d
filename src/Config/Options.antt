-- ===== src/Config/Options.antt =====
-- internal/config/options.go: the options and their defaults; internal/config/constants.go: the default
-- template. `F` is the type `float64`.
use dnsanity.Common.{Bool, false, List, [], ◌∷◌}
use dnsanity.Common.Int.{ℤ, pos, negsuc}
use dnsanity.Text.{Bytes, codes}
use dnsanity.Text.Lines.{text_of}

-- `Options`, but for `ShowHelp` and `ShowVersion`, with which the program ends at once
pub record Options (F : Type 0) : Type 0 where
  pub untrusted_dns : Bytes
  pub trusted_dns : Bytes
  pub template : Bytes
  pub threads : ℤ
  pub max_pool_size : ℤ
  pub timeout : ℤ
  pub trusted_timeout : ℤ
  pub glob_rate_limit : ℤ
  pub rate_limit : F
  pub trusted_rate_limit : F
  pub attempts : ℤ
  pub max_mismatches : ℤ
  pub trusted_attempts : ℤ
  pub output_file_path : Bytes
  pub verbose : Bool
  pub debug : Bool

-- `-0xdead`
abbrev pub auto : ℤ
auto = negsuc 57004

-- The values that `ParseOptions` gives to options that are not on the command line; `two` and `ten` are
-- `2.0` and `10.0`.
abbrev pub default_options : {F : Type 0} → F → F → Options F
default_options two ten = record {
  untrusted_dns = codes "/dev/stdin";
  trusted_dns = codes "8.8.8.8, 1.1.1.1, 9.9.9.9";
  template = [];
  threads = auto;
  max_pool_size = auto;
  timeout = pos 4;
  trusted_timeout = pos 2;
  glob_rate_limit = pos 500;
  rate_limit = two;
  trusted_rate_limit = ten;
  attempts = pos 2;
  max_mismatches = pos 0;
  trusted_attempts = pos 2;
  output_file_path = codes "/dev/stdout";
  verbose = false;
  debug = false;
}

-- The lines of `DEFAULT_TEMPLATE`
abbrev pub default_lines : List Bytes
default_lines =
    []
    ∷ codes "# <FQDN>              <EXPECTED ANSWER>"
    ∷ []
    ∷ codes "# gambling (censored on many countries)"
    ∷ codes "bet365.com            A=5.226.17*"
    ∷ []
    ∷ codes "# pr0n (family censored)"
    ∷ codes
        "xnxx.com              A=152.233.100.1 A=152.233.100.2 A=152.233.100.3 A=152.233.100.4 A=152.233.100.5 A=152.233.100.6 A=152.233.100.7 A=152.233.100.8 A=152.233.100.9 A=152.233.100.10 A=152.233.100.11 A=152.233.100.12 A=152.233.100.13 A=152.233.100.14 A=152.233.100.15"
    ∷ []
    ∷ codes "# censored by many countries (AU/UK/DK/FR/GB/DE/RU/...)"
    ∷ codes "sci-hub.ru            A=190.115.31.218"
    ∷ []
    ∷ codes "# torrenting (frequently censored)"
    ∷ codes "sukebei.nyaa.si       A=198.251.89.38"
    ∷ []
    ∷ codes "# chinese (far away, slow servers might TIMEOUT)"
    ∷ codes "ustc.edu.cn           A=202.38.64.246"
    ∷ []
    ∷ codes "# Record-less registered SLD: allow SERVFAIL/FORMERR (not found),"
    ∷ codes "# NOERROR (empty), or TIMEOUT (resolver keeps searching)."
    ∷ codes "invalid.com           SERVFAIL || NOERROR || TIMEOUT || FORMERR"
    ∷ []
    ∷ codes "# resolvers MUST transmit CNAME info:"
    ∷ codes
        "test.nextos.com       CNAME=sec-5413.nextos.com.cdn.cloudflare.net. A=172.64.145.241 A=104.18.42.15"
    ∷ []
    ∷ codes "# non-existent FQDN:"
    ∷ codes "dn05jq2u.fr           NXDOMAIN"
    ∷ []
    ∷ codes "# japanese (far away, slow servers might TIMEOUT)"
    ∷ codes "ftp.kddilabs.jp       A=192.26.91.193"
    ∷ []
    ∷ codes "# corporate TLD (non-legacy TLD, filters-out very old resolvers)"
    ∷ codes "dns.google            A=8.8.8.8 A=8.8.4.4"
    ∷ []
    ∷ codes "# PS: Beware of geo-located domains for reliable results !"
    ∷ []

-- `DEFAULT_TEMPLATE`
unfoldable pub default_template : Bytes
default_template = text_of default_lines
