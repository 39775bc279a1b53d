-- ===== src/Dns/Answer/Parsed.antt =====
-- internal/dns/dnsanswer.go, `NewDNSAnswerData`: what the parser returns.
use dnsanity.Common.{
  ℕ, zero, suc, ◌+◌, ◌<◌, ◌≤◌, ◌≡◌, refl, ap₂, ◌∙◌, subst, true, false, inl, inr, List, [], ◌∷◌,
  ◌++◌, arith, All, All-append, Bool-cases, length, length-append, drop, Result, ok, bind_parts,
  ok-injective,
}
use dnsanity.Text.{Bytes, codes, lower_byte, to_lower, fields, has_prefix, trim_prefix, is_space}
use dnsanity.Text.Words.{NoSpace, IsWord, fields-IsWord}
use dnsanity.Dns.Answer.{
  DnsAnswerData, ParseError, to_string, is_status, noerror, add_record, add_records, blank,
  from_records, from_tokens, new_dns_answer_data,
}
use dnsanity.Dns.Answer.RoundTrip.{IsPlain, new_dns_answer_data-to_string}

-- What the loop over the tokens keeps.
record Collected (d : DnsAnswerData) : Type 0 where
  a_words : All NoSpace d.a
  cname_words : All NoSpace d.cname
  lowered : All (λ r. to_lower r ≡ r) d.cname

to_lower_idem : (s : Bytes) → to_lower (to_lower s) ≡ to_lower s
to_lower_idem [] = refl
to_lower_idem (c ∷ s) = ap₂ ◌∷◌ (byte c) (to_lower_idem s)
  where
    byte : (c : ℕ) → lower_byte (lower_byte c) ≡ lower_byte c
    byte c = ground arith

to_lower-NoSpace : (s : Bytes) → NoSpace s → NoSpace (to_lower s)
to_lower-NoSpace [] h = tt
to_lower-NoSpace (c ∷ s) (hc, hs) = (byte c hc, to_lower-NoSpace s hs)
  where
    byte : (c : ℕ) → is_space c ≡ false → is_space (lower_byte c) ≡ false
    byte c h = unfold is_space in ground arith

drop-NoSpace : (n : ℕ) (s : Bytes) → NoSpace s → NoSpace (drop n s)
drop-NoSpace zero s h = h
drop-NoSpace (suc n) [] h = tt
drop-NoSpace (suc n) (c ∷ s) (_, h) = drop-NoSpace n s h

trim_prefix-NoSpace : (s p : Bytes) → NoSpace s → NoSpace (trim_prefix s p)
unfolding trim_prefix
trim_prefix-NoSpace s p h = elim (Bool-cases (has_prefix s p)) [
  | inl e ↦ rw e (drop-NoSpace (length p) s h)
  | inr e ↦ rw e h
]

-- An added record keeps what holds of the answer, and makes it longer.
add_record-Collected :
    (dad dad' : DnsAnswerData) (tok : Bytes)
    → NoSpace tok
    → Collected dad
    → add_record dad tok ≡ ok dad'
    → Collected dad' × (length dad.a + length dad.cname < length dad'.a + length dad'.cname)
unfolding add_record
add_record-Collected dad dad' tok word h e = elim (Bool-cases (has_prefix tok (codes "A="))) [
  | inl is_a ↦
      let r = trim_prefix tok (codes "A=") in
      let d : DnsAnswerData = record dad { a = dad.a ++ r ∷ [] } in
      let eq : ◌≡◌ {A = Result ParseError DnsAnswerData} (ok d) (ok dad') = rw is_a at e in
      subst Longer (ok-injective eq) (
        record {
          a_words =
              All-append NoSpace dad.a (r ∷ []) h.a_words (trim_prefix-NoSpace tok _ word, tt);
          cname_words = h.cname_words;
          lowered = h.lowered;
        },
        omega (arith, length-append {0} dad.a (r ∷ [])),
      )
  | inr not_a ↦ elim (Bool-cases (has_prefix tok (codes "CNAME="))) [
    | inl is_cname ↦
        let r = to_lower (trim_prefix tok (codes "CNAME=")) in
        let d : DnsAnswerData = record dad { cname = dad.cname ++ r ∷ [] } in
        let eq : ◌≡◌ {A = Result ParseError DnsAnswerData} (ok d) (ok dad') =
          rw (not_a, is_cname) at e in
        subst Longer (ok-injective eq) (
          record {
            a_words = h.a_words;
            cname_words =
                All-append NoSpace dad.cname (r ∷ []) h.cname_words
                  (to_lower-NoSpace (trim_prefix tok _) (trim_prefix-NoSpace tok _ word), tt);
            lowered =
                All-append _ dad.cname (r ∷ []) h.lowered (to_lower_idem (trim_prefix tok _), tt);
          },
          omega (arith, length-append {0} dad.cname (r ∷ [])),
        )
    | inr neither ↦ absurd (ground arith)
  ]
]
  where
    Longer : DnsAnswerData → Type 0
    Longer d = Collected d × (length dad.a + length dad.cname < length d.a + length d.cname)

add_records-Collected :
    (dad dad' : DnsAnswerData) (toks : List Bytes)
    → All IsWord toks
    → Collected dad
    → add_records dad toks ≡ ok dad'
    → Collected dad'
      × (length dad.a + length dad.cname + length toks ≤ length dad'.a + length dad'.cname)
unfolding add_records
add_records-Collected dad dad' [] words h e =
    subst (λ d. Collected d × (length dad.a + length dad.cname + 0 ≤ length d.a + length d.cname))
      (ok-injective e) (h, omega arith)
add_records-Collected dad dad' (tok ∷ toks) ((_, word), words) h e =
    let (mid, first, rest) = bind_parts (add_record dad tok) (λ d. add_records d toks) e in
    let (h', longer) = add_record-Collected dad mid tok word h first in
    let (h'', longest) = add_records-Collected mid dad' toks words h' rest in (h'', omega arith)

from_records-IsPlain :
    (tok : Bytes) (toks : List Bytes) (d : DnsAnswerData)
    → All IsWord (tok ∷ toks)
    → from_records (tok ∷ toks) ≡ ok d
    → IsPlain d
unfolding from_records
from_records-IsPlain tok toks d words e =
    let (dad, added, done) =
      bind_parts (add_records blank (tok ∷ toks)) (λ t. ok (record t { status = noerror })) e in
    let (h, longer) =
      add_records-Collected blank dad (tok ∷ toks) words
        (record { a_words = tt; cname_words = tt; lowered = tt }) added in
    subst IsPlain (ok-injective done) (record {
      a_words = h.a_words;
      cname_words = h.cname_words;
      lowered = h.lowered;
      status_fits = inr (refl, omega arith);
    })

from_tokens-status-inv :
    (tok : Bytes) (d : DnsAnswerData)
    → is_status tok ≡ true
    → from_tokens (tok ∷ []) ≡ ok d
    → record blank { status = tok } ≡ d
unfolding from_tokens
from_tokens-status-inv tok d known e = ground arith

from_tokens-record-inv :
    (tok : Bytes) → is_status tok ≡ false → from_records (tok ∷ []) ≡ from_tokens (tok ∷ [])
unfolding from_tokens
from_tokens-record-inv tok unknown = rw unknown

from_tokens-IsPlain :
    (toks : List Bytes) (d : DnsAnswerData) → All IsWord toks → from_tokens toks ≡ ok d → IsPlain d
from_tokens-IsPlain [] d words e = absurd (unfold from_tokens in cc)
from_tokens-IsPlain (tok ∷ u ∷ toks) d words e =
    from_records-IsPlain tok (u ∷ toks) d words (unfold from_tokens in e)
from_tokens-IsPlain (tok ∷ []) d words e = elim (Bool-cases (is_status tok)) [
  | inl known ↦ subst IsPlain (from_tokens-status-inv tok d known e) (record {
    a_words = tt;
    cname_words = tt;
    lowered = tt;
    status_fits = inl (refl, refl, known);
  })
  | inr unknown ↦ from_records-IsPlain tok [] d words (from_tokens-record-inv tok unknown ∙ e)
]

-- An answer that the parser returns is plain.
pub new_dns_answer_data-IsPlain :
    (s : Bytes) (d : DnsAnswerData) → new_dns_answer_data s ≡ ok d → IsPlain d
unfolding new_dns_answer_data
new_dns_answer_data-IsPlain s d e = from_tokens-IsPlain (fields s) d (fields-IsWord s) e

-- Printing what was parsed, and parsing that, gives the same answer.
pub new_dns_answer_data_stable :
    (s : Bytes) (d : DnsAnswerData)
    → new_dns_answer_data s ≡ ok d
    → new_dns_answer_data (to_string d) ≡ ok d
new_dns_answer_data_stable s d e =
    new_dns_answer_data-to_string d (new_dns_answer_data-IsPlain s d e)
