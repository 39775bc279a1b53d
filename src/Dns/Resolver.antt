-- ===== src/Dns/Resolver.antt =====
-- internal/dns/resolver.go: the answer that one exchange with a server gives.
pub mod Records
use dnsanity.Common.{
  ℕ, Bool, true, false, not, ◌&&◌, List, [], ◌∷◌, ◌++◌, Option, none, some, ◌==◌, if◌then◌else◌,
  Result, ok, fail,
}
use dnsanity.Text.{Bytes, codes}
use dnsanity.Dns.Answer.{DnsAnswer, DnsAnswerData, noerror, timeout}
use dnsanity.Dns.Glob.{is_empty}

-- A resource record of a response, by the type switch's cases: the address printed, or the target.
pub data Rr : Type 0 where
  address : Bytes → Rr
  target : Bytes → Rr
  other : Rr

-- What the program reads of a `dns.Msg`
pub record Response : Type 0 where
  pub rcode : ℕ
  pub answers : List Rr
  pub truncated : Bool

-- A `net.DNSError` in the chain of an error
pub record DnsError : Type 0 where
  pub is_timeout : Bool
  pub is_not_found : Bool

-- A `syscall.Errno` in the chain: its number, `unix.ErrnoName` and `Error()`
pub record Errno : Type 0 where
  pub number : ℕ
  pub name : Bytes
  pub text : Bytes

-- What the program asks of an error: `errors.Is` and `errors.As`, `Timeout()` of a `net.Error`, `Error()`.
pub record NetError : Type 0 where
  pub deadline_exceeded : Bool
  pub canceled : Bool
  pub dns_error : Option DnsError
  pub net_timeout : Option Bool
  pub errno : Option Errno
  pub text : Bytes

abbrev etimedout : ℕ
etimedout = 110

abbrev pub plain_error : NetError → Bytes
plain_error err = codes "ERROR - " ++ err.text

-- The last two parts of `mapResolveError`
pub map_errno : NetError → Option Errno → Bytes
map_errno err none = plain_error err
map_errno err (some e) =
    if e.number == 0
    then plain_error err
    else if e.number == etimedout
    then timeout
    else if not (is_empty e.name)
    then e.name
    else e.text

abbrev is_some_true : Option Bool → Bool
is_some_true none = false
is_some_true (some b) = b

pub map_net : NetError → Bytes
map_net err = if is_some_true err.net_timeout then timeout else map_errno err err.errno

pub map_dns : NetError → Option DnsError → Bytes
map_dns err none = map_net err
map_dns err (some e) =
    if e.is_timeout then timeout else if e.is_not_found then plain_error err else map_net err

-- `mapResolveError`; `none` is nil.
unfoldable pub map_resolve_error : Option NetError → Bytes
unfolding map_dns map_net map_errno
map_resolve_error none = []
map_resolve_error (some err) =
    if err.deadline_exceeded
    then timeout
    else if err.canceled
    then plain_error err
    else map_dns err err.dns_error

-- The loop over `response.Answer`
unfoldable pub collect_records : List Rr → DnsAnswerData → DnsAnswerData
collect_records [] d = d
collect_records (address s ∷ rrs) d = collect_records rrs (record d { a = d.a ++ s ∷ [] })
collect_records (target s ∷ rrs) d = collect_records rrs (record d { cname = d.cname ++ s ∷ [] })
collect_records (other ∷ rrs) d = collect_records rrs d

-- `ResolveDNS`, with the outcome of `client.Exchange` and the library's `RcodeToString`
unfoldable pub resolve_dns : (ℕ → Bytes) → Bytes → Result NetError Response → DnsAnswer
unfolding map_resolve_error collect_records
resolve_dns rcode_to_string domain (fail err) = record {
  domain = domain;
  content = record { status = map_resolve_error (some err); a = []; cname = [] };
  truncated = false;
}
resolve_dns rcode_to_string domain (ok response) = record {
  domain = domain;
  content =
      if not (response.rcode == 0)
      then record { status = rcode_to_string response.rcode; a = []; cname = [] }
      else record (collect_records response.answers (record { status = []; a = []; cname = [] })) {
        status = noerror;
      };
  truncated = response.truncated;
}
