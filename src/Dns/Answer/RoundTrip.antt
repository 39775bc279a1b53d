-- ===== src/Dns/Answer/RoundTrip.antt =====
-- The text of an answer and its parser: `DNSAnswerData.ToString` and `NewDNSAnswerData`.
use dnsanity.Common.{
  ◌+◌, ◌<◌, ◌≡◌, refl, sym, ap, ◌∙◌, subst, true, false, ◌⊎◌, inl, inr, List, [], ◌∷◌, ◌++◌, map,
  append_assoc, append-nil, arith, All, All-append, Bool-cases, length, ok,
}
use dnsanity.Text.{Bytes, codes, to_lower, join, fields, trim_prefix, is_space, str_eq, str_eq_iff}
use dnsanity.Text.Words.{NoSpace, IsWord, fields-join}
use dnsanity.Dns.Answer.{
  DnsAnswerData, is_one_of, status_words, records, to_string, is_status, noerror, add_record,
  add_records, blank, from_records, from_tokens, new_dns_answer_data,
}

-- An answer that the parser can return: words for records, lower-case names, and the status of the
-- parser, which is one of its six words where there is no record and NOERROR where there is one.
pub record IsPlain (d : DnsAnswerData) : Type 0 where
  pub a_words : All NoSpace d.a
  pub cname_words : All NoSpace d.cname
  pub lowered : All (λ r. to_lower r ≡ r) d.cname
  pub status_fits :
      ((d.a ≡ []) × (d.cname ≡ []) × (is_status d.status ≡ true))
      ⊎ ((d.status ≡ noerror) × (0 < length d.a + length d.cname))

add_record-a :
    (dad : DnsAnswerData) (r : Bytes)
    → add_record dad (codes "A=" ++ r) ≡ ok (record dad { a = dad.a ++ r ∷ [] })
unfolding add_record trim_prefix
add_record-a dad r = refl

add_record-cname :
    (dad : DnsAnswerData) (r : Bytes)
    → add_record dad (codes "CNAME=" ++ r)
      ≡ ok (record dad { cname = dad.cname ++ to_lower r ∷ [] })
unfolding add_record trim_prefix
add_record-cname dad r = refl

add_records-cname :
    (dad : DnsAnswerData) (rs : List Bytes)
    → All (λ r. to_lower r ≡ r) rs
    → add_records dad (map (λ r. codes "CNAME=" ++ r) rs)
      ≡ ok (record dad { cname = dad.cname ++ rs })
unfolding add_records add_record trim_prefix
add_records-cname dad [] h = ap (λ t. ok (record dad { cname = t })) (sym (append-nil dad.cname))
add_records-cname dad (r ∷ rs) (hr, hrs) =
    add_records-cname (record dad { cname = dad.cname ++ to_lower r ∷ [] }) rs hrs
    ∙ ap (λ t. ok (record dad { cname = t }))
        (append_assoc dad.cname (to_lower r ∷ []) rs ∙ ap (λ t. dad.cname ++ t ∷ rs) hr)

add_records-a :
    (dad : DnsAnswerData) (rs toks : List Bytes)
    → add_records dad (map (λ r. codes "A=" ++ r) rs ++ toks)
      ≡ add_records (record dad { a = dad.a ++ rs }) toks
unfolding add_records add_record trim_prefix
add_records-a dad [] toks =
    ap (λ t. add_records (record dad { a = t }) toks) (sym (append-nil dad.a))
add_records-a dad (r ∷ rs) toks =
    add_records-a (record dad { a = dad.a ++ r ∷ [] }) rs toks
    ∙ ap (λ t. add_records (record dad { a = t }) toks) (append_assoc dad.a (r ∷ []) rs)

add_records-records :
    (d : DnsAnswerData)
    → IsPlain d
    → add_records blank (records d) ≡ ok (record blank { a = d.a; cname = d.cname })
add_records-records d h =
    add_records-a blank d.a (map (λ r. codes "CNAME=" ++ r) d.cname)
    ∙ add_records-cname (record blank { a = d.a }) d.cname h.lowered

-- A record is never taken for a status.
is_status-a : (r : Bytes) → is_status (codes "A=" ++ r) ≡ false
unfolding is_status
is_status-a r = refl

is_status-cname : (r : Bytes) → is_status (codes "CNAME=" ++ r) ≡ false
unfolding is_status
is_status-cname r = refl

from_tokens-records :
    (rs cs : List Bytes)
    → 0 < length rs + length cs
    → let toks = map (λ r. codes "A=" ++ r) rs ++ map (λ r. codes "CNAME=" ++ r) cs in
      from_tokens toks ≡ from_records toks
unfolding from_tokens is_status
from_tokens-records [] [] h = absurd (omega arith)
from_tokens-records [] (c ∷ []) h = refl
from_tokens-records [] (c ∷ d ∷ cs) h = refl
from_tokens-records (r ∷ []) [] h = refl
from_tokens-records (r ∷ []) (c ∷ cs) h = refl
from_tokens-records (r ∷ q ∷ rs) cs h = refl

All-map :
    (P : Bytes → Type 0) (f : Bytes → Bytes) (rs : List Bytes)
    → All (λ r. P (f r)) rs
    → All P (map f rs)
All-map P f [] h = tt
All-map P f (r ∷ rs) (hr, hrs) = (hr, All-map P f rs hrs)

All-mono :
    (P Q : Bytes → Type 0) (rs : List Bytes) → ((r : Bytes) → P r → Q r) → All P rs → All Q rs
All-mono P Q [] f h = tt
All-mono P Q (r ∷ rs) f (hr, hrs) = (f r hr, All-mono P Q rs f hrs)

pub records-IsWord : (d : DnsAnswerData) → IsPlain d → All IsWord (records d)
unfolding is_space
records-IsWord d h =
    All-append IsWord (map (λ r. codes "A=" ++ r) d.a) _
      (All-map IsWord _ d.a
        (All-mono NoSpace _ d.a (λ r s. (λ e. cc, (refl, (refl, s)))) h.a_words))
      (All-map IsWord _ d.cname (
        All-mono NoSpace _ d.cname
          (λ r s. (λ e. cc, (refl, (refl, (refl, (refl, (refl, (refl, s)))))))) h.cname_words))

pub to_string-records :
    (d : DnsAnswerData)
    → 0 < length d.a + length d.cname
    → to_string d ≡ join (records d) (codes " ")
unfolding to_string
to_string-records d h = ground arith

pub to_string-status : (d : DnsAnswerData) → d.a ≡ [] → d.cname ≡ [] → to_string d ≡ d.status
unfolding to_string
to_string-status d no_a no_cname = rw (no_a, no_cname)

from_tokens-status :
    (d : DnsAnswerData)
    → d.a ≡ []
    → d.cname ≡ []
    → is_status d.status ≡ true
    → from_tokens (d.status ∷ []) ≡ ok d
unfolding from_tokens
from_tokens-status d no_a no_cname known =
    rw known (λ i. ok (record { status = d.status; a = sym no_a i; cname = sym no_cname i }))

from_records-records :
    (d : DnsAnswerData) → IsPlain d → d.status ≡ noerror → from_records (records d) ≡ ok d
unfolding from_records
from_records-records d h plain =
    rw (add_records-records d h) (ap (λ t. ok (record d { status = t })) (sym plain))

pub is_one_of-elim :
    (P : Bytes → Type 0) (s : Bytes) (ws : List Bytes) → All P ws → is_one_of s ws ≡ true → P s
unfolding is_one_of
is_one_of-elim P s [] h e = cc
is_one_of-elim P s (w ∷ ws) (hw, hws) e = elim (Bool-cases (str_eq s w)) [
  | inl q ↦ subst P (sym ((str_eq_iff s w).0 q)) hw
  | inr q ↦ is_one_of-elim P s ws hws (ground arith)
]

pub is_status-fields : (s : Bytes) → is_status s ≡ true → fields s ≡ s ∷ []
unfolding is_status fields
is_status-fields s h =
    is_one_of-elim (λ t. fields t ≡ t ∷ []) s status_words
      (refl, (refl, (refl, (refl, (refl, (refl, tt)))))) h

-- The text of a plain answer is parsed back to that answer.
pub new_dns_answer_data-to_string :
    (d : DnsAnswerData) → IsPlain d → new_dns_answer_data (to_string d) ≡ ok d
unfolding new_dns_answer_data
new_dns_answer_data-to_string d h = elim h.status_fits [
  | inl (no_a, no_cname, known) ↦
      ap from_tokens
        (ap fields (to_string-status d no_a no_cname) ∙ is_status-fields d.status known)
      ∙ from_tokens-status d no_a no_cname known
  | inr (plain, some_record) ↦
      ap from_tokens
        (ap fields (to_string-records d some_record) ∙ fields-join (records d) (records-IsWord d h))
      ∙ from_tokens-records d.a d.cname some_record
      ∙ from_records-records d h plain
]
