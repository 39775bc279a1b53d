-- ===== src/Dns/Answer.antt =====
-- internal/dns/dnsanswer.go: the data of an answer, its text, and when a query is worth a retry.
pub mod RoundTrip
pub mod Parsed
use dnsanity.Common.{
  ℕ, ◌≡◌, refl, Bool, true, false, ◌||◌, List, [], ◌∷◌, ◌++◌, map, Option, none, some, length, ◌==◌,
  ◌&&◌, if◌then◌else◌, Result, ok, fail, ◌>>=◌,
}
use dnsanity.Text.{Bytes, codes, str_eq, has_prefix, trim_prefix, to_lower, join, fields}

-- The statuses that the program names. A status is any text.
abbrev pub noerror : Bytes
noerror = codes "NOERROR"

abbrev pub timeout : Bytes
timeout = codes "TIMEOUT"

abbrev pub servfail : Bytes
servfail = codes "SERVFAIL"

-- `DNSAnswerData`
pub record DnsAnswerData : Type 0 where
  pub status : Bytes
  pub a : List Bytes
  pub cname : List Bytes

-- `DNSAnswer`, with its embedded `DNSAnswerData`
pub record DnsAnswer : Type 0 where
  pub domain : Bytes
  pub content : DnsAnswerData
  pub open content use *
  pub truncated : Bool

-- The errors of the template's parser. `no_answer` is the error of a line with fewer than two fields.
pub data ParseError : Type 0 where
  empty_answer no_answer : ParseError
  invalid_record : Bytes → ParseError

-- The `records` that `DNSAnswerData.ToString` collects.
abbrev pub records : DnsAnswerData → List Bytes
records d = map (λ r. codes "A=" ++ r) d.a ++ map (λ r. codes "CNAME=" ++ r) d.cname

-- `DNSAnswerData.ToString`
unfoldable pub to_string : DnsAnswerData → Bytes
to_string d =
    if length d.a == 0 && length d.cname == 0 then d.status else join (records d) (codes " ")

-- The words of the `switch` in `NewDNSAnswerData`
abbrev pub status_words : List Bytes
status_words =
    codes "TIMEOUT"
    ∷ codes "NOERROR"
    ∷ codes "FORMERR"
    ∷ codes "NOTIMP"
    ∷ codes "NXDOMAIN"
    ∷ codes "SERVFAIL"
    ∷ []

pub is_one_of : Bytes → List Bytes → Bool
is_one_of s [] = false
is_one_of s (w ∷ ws) = str_eq s w || is_one_of s ws

unfoldable pub is_status : Bytes → Bool
unfolding is_one_of
is_status tok = is_one_of tok status_words

-- One round of the loop over the tokens
pub add_record : DnsAnswerData → Bytes → Result ParseError DnsAnswerData
add_record dad tok =
    if has_prefix tok (codes "A=")
    then ok (record dad { a = dad.a ++ trim_prefix tok (codes "A=") ∷ [] })
    else if has_prefix tok (codes "CNAME=")
    then ok (record dad { cname = dad.cname ++ to_lower (trim_prefix tok (codes "CNAME=")) ∷ [] })
    else fail (invalid_record tok)

pub add_records : DnsAnswerData → List Bytes → Result ParseError DnsAnswerData
add_records dad [] = ok dad
add_records dad (tok ∷ toks) = do dad' ← add_record dad tok; add_records dad' toks

abbrev pub blank : DnsAnswerData
blank = record { status = []; a = []; cname = [] }

-- The loop over the tokens and what follows it
pub from_records : List Bytes → Result ParseError DnsAnswerData
from_records tokens = do dad ← add_records blank tokens; ok (record dad { status = noerror })

unfoldable pub from_tokens : List Bytes → Result ParseError DnsAnswerData
unfolding from_records add_records add_record is_status trim_prefix
from_tokens [] = fail empty_answer
from_tokens (tok ∷ []) =
    if is_status tok then ok (record blank { status = tok }) else from_records (tok ∷ [])
from_tokens (tok ∷ next ∷ toks) = from_records (tok ∷ next ∷ toks)

-- `NewDNSAnswerData`
unfoldable pub new_dns_answer_data : Bytes → Result ParseError DnsAnswerData
unfolding from_tokens fields
new_dns_answer_data s = from_tokens (fields s)

-- `DNSAnswer.ToString`
unfoldable pub answer_to_string : DnsAnswer → Bytes
unfolding to_string
answer_to_string da =
    let out = da.domain ++ (codes " " ++ to_string da.content) in
    if da.truncated then out ++ codes " [TC=1]" else out

-- `DNSAnswer.IsWorthRetrying`; `none` is a nil receiver.
unfoldable pub is_worth_retrying : Option DnsAnswer → Bool
is_worth_retrying none = false
is_worth_retrying (some da) =
    if str_eq da.status timeout || str_eq da.status servfail
    then true
    else if str_eq da.status noerror
    then da.truncated
    else false
