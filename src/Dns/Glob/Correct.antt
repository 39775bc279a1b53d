-- ===== src/Dns/Glob/Correct.antt =====
-- internal/dns/template.go, `globMatch`, against the relation `Matches`.
use dnsanity.Common.{
  ℕ, zero, suc, ◌+◌, ◌≤◌, ◌≡◌, refl, sym, ap, ◌∙◌, subst, true, false, false≢true, ◌≢◌, ◌↔◌, inl,
  inr, some, List, [], ◌∷◌, ◌++◌, append_assoc, append-nil, arith, length, length-append, take,
  drop, drop-append, All, Bool-cases, Option-cases, some-injective,
}
use dnsanity.Text.{
  Bytes, codes, Lacks, str_eq, str_eq_iff, has_prefix, has_prefix→append, has_prefix-append,
  has_suffix, has_suffix→append, has_suffix-append, index, contains, contains→Lacks, Lacks→contains,
  join, to_lower,
}
use dnsanity.Text.Split.{split, index-some, index-append, join-split, split-Lacks, split-ne-nil}
use dnsanity.Dns.Glob.{
  strip_first, strip_middle, ends_right, walk, glob_parts, glob_lower, glob_match,
}
use dnsanity.Dns.Glob.Spec.{
  star, Matches, empty, leave, Matches-text, text-inv, Matches-star, star-inv, Matches-text_iff,
}

-- What the segments behind a star stand for.
abbrev Behind : List Bytes → Bytes → Type 0
Behind parts s = Matches (star ∷ join parts (codes "*")) s

ends_right→Matches :
    (last s : Bytes) → Lacks star last → ends_right last s ≡ true → Behind (last ∷ []) s
ends_right→Matches [] s h e = subst (Behind ([] ∷ [])) (append-nil s) (Matches-star [] s [] empty)
ends_right→Matches (c ∷ last) s h e =
    let (t, q) = has_suffix→append s (c ∷ last) (unfold ends_right in ground arith) in
    subst (Behind ((c ∷ last) ∷ [])) (sym q)
      (Matches-star (c ∷ last) t (c ∷ last) ((Matches-text_iff (c ∷ last) (c ∷ last) h).1 refl))

Matches→ends_right :
    (last s : Bytes) → Lacks star last → Behind (last ∷ []) s → ends_right last s ≡ true
Matches→ends_right [] s h m = unfold ends_right in refl
Matches→ends_right (c ∷ last) s h m =
    let (u, t, q, m') = star-inv (c ∷ last) s m in
    let suffix : has_suffix s (c ∷ last) ≡ true =
      subst (λ r. has_suffix r (c ∷ last) ≡ true)
        (sym (q ∙ ap (◌++◌ u) ((Matches-text_iff (c ∷ last) t h).0 m')))
        (has_suffix-append u (c ∷ last)) in
    unfold ends_right in rw suffix

-- Cutting at most a prefix of the text leaves a text that ends in the rest.
drop-append_le :
    {A : Type 0} (n : ℕ) (xs ys : List A) → n ≤ length xs → drop n (xs ++ ys) ≡ drop n xs ++ ys
drop-append_le zero xs ys h = refl
drop-append_le (suc n) [] ys h = absurd (omega arith)
drop-append_le (suc n) (x ∷ xs) ys h = drop-append_le n xs ys (omega arith)

-- A star that may take any run takes what stands before a match.
Behind-append : (p u s : Bytes) → Matches (star ∷ p) s → Matches (star ∷ p) (u ++ s)
Behind-append p u s m =
    let (v, t, q, m') = star-inv p s m in
    subst (Matches (star ∷ p)) (append_assoc u v t ∙ ap (◌++◌ u) (sym q))
      (Matches-star p (u ++ v) t m')

strip_middle-some :
    (c : ℕ) (part s : Bytes) (i : ℕ)
    → index s (c ∷ part) ≡ some i
    → strip_middle (c ∷ part) s ≡ some (drop (i + length (c ∷ part)) s)
unfolding strip_middle
strip_middle-some c part s i e = rw (e, strip_middle)

strip_middle-inv :
    (c : ℕ) (part s s' : Bytes)
    → strip_middle (c ∷ part) s ≡ some s'
    → (i : ℕ) × (index s (c ∷ part) ≡ some i) × (drop (i + length (c ∷ part)) s ≡ s')
strip_middle-inv c part s s' e = elim (Option-cases (index s (c ∷ part))) [
  | inl missing ↦ absurd (unfold strip_middle in ground arith)
  | inr (i, found) ↦ (i, found, some-injective (sym (strip_middle-some c part s i found) ∙ e))
]

-- An intermediate segment that is found leaves a text for the segments behind it.
strip_middle→Matches :
    (part p s s' : Bytes)
    → Lacks star part
    → strip_middle part s ≡ some s'
    → Matches (star ∷ p) s'
    → Matches (star ∷ (part ++ (star ∷ p))) s
strip_middle→Matches [] p s s' h e m =
    let q : s ≡ s' = some-injective {A = Bytes} (unfold strip_middle in e) in
    leave refl (subst (Matches (star ∷ p)) (sym q) m)
strip_middle→Matches (c ∷ part) p s s' h e m =
    let (i, found, q) = strip_middle-inv c part s s' e in
    subst (Matches (star ∷ ((c ∷ part) ++ (star ∷ p)))) (sym (index-some s (c ∷ part) i found)) (
      Matches-star ((c ∷ part) ++ (star ∷ p)) (take i s) _
        (Matches-text (c ∷ part) (star ∷ p) _ h (subst (Matches (star ∷ p)) (sym q) m)))

-- If the whole matches, the segment is found, and its leftmost place leaves enough for the rest.
Matches→strip_middle :
    (part p s : Bytes)
    → Lacks star part
    → Matches (star ∷ (part ++ (star ∷ p))) s
    → (s' : Bytes) × (strip_middle part s ≡ some s') × Matches (star ∷ p) s'
Matches→strip_middle [] p s h m =
    let (u, t, q, m') = star-inv (star ∷ p) s m in
    (s, (unfold strip_middle in refl), subst (Matches (star ∷ p)) (sym q) (Behind-append p u t m'))
Matches→strip_middle (c ∷ part) p s h m =
    let (u, t, q, m') = star-inv ((c ∷ part) ++ (star ∷ p)) s m in
    let (v, q', m'') = text-inv (c ∷ part) (star ∷ p) t h m' in
    let place : s ≡ u ++ ((c ∷ part) ++ v) = q ∙ ap (◌++◌ u) q' in
    let (i, found, le) = index-append u (c ∷ part) v in
    let found' : index s (c ∷ part) ≡ some i =
      subst (λ r. index r (c ∷ part) ≡ some i) (sym place) found in
    let n = i + length (c ∷ part) in
    let rest : drop n s ≡ drop n (u ++ (c ∷ part)) ++ v =
      ap (drop n) (place ∙ sym (append_assoc u (c ∷ part) v))
      ∙ drop-append_le n (u ++ (c ∷ part)) v (omega (arith, length-append {0} u (c ∷ part))) in
    (
      drop n s,
      strip_middle-some c part s i found',
      subst (Matches (star ∷ p)) (sym rest) (Behind-append p (drop n (u ++ (c ∷ part))) v m''),
    )

walk-some :
    (part next : Bytes) (parts : List Bytes) (s s' : Bytes)
    → strip_middle part s ≡ some s'
    → walk part (next ∷ parts) s ≡ walk next parts s'
unfolding walk
walk-some part next parts s s' found = rw (found, walk)

walk→Matches :
    (part : Bytes) (parts : List Bytes) (s : Bytes)
    → All (Lacks star) (part ∷ parts)
    → walk part parts s ≡ true
    → Behind (part ∷ parts) s
walk→Matches part [] s (h, _) e = ends_right→Matches part s h (unfold walk in e)
walk→Matches part (next ∷ parts) s (h, hs) e = elim (Option-cases (strip_middle part s)) [
  | inl missing ↦ absurd (unfold walk in ground arith)
  | inr (s', found) ↦
      strip_middle→Matches part (join (next ∷ parts) (codes "*")) s s' h found
        (walk→Matches next parts s' hs (sym (walk-some part next parts s s' found) ∙ e))
]

Matches→walk :
    (part : Bytes) (parts : List Bytes) (s : Bytes)
    → All (Lacks star) (part ∷ parts)
    → Behind (part ∷ parts) s
    → walk part parts s ≡ true
Matches→walk part [] s (h, _) m = unfold walk in Matches→ends_right part s h m
Matches→walk part (next ∷ parts) s (h, hs) m =
    let (s', found, m') = Matches→strip_middle part (join (next ∷ parts) (codes "*")) s h m in
    walk-some part next parts s s' found ∙ Matches→walk next parts s' hs m'

strip_first-there :
    (c : ℕ) (first s : Bytes)
    → has_prefix s (c ∷ first) ≡ true
    → some (drop (length (c ∷ first)) s) ≡ strip_first (c ∷ first) s
unfolding strip_first
strip_first-there c first s there = rw there

strip_first→append : (first s s' : Bytes) → strip_first first s ≡ some s' → s ≡ first ++ s'
strip_first→append [] s s' e = some-injective {A = Bytes} (unfold strip_first in e)
strip_first→append (c ∷ first) s s' e = elim (Bool-cases (has_prefix s (c ∷ first))) [
  | inl there ↦
      has_prefix→append s (c ∷ first) there
      ∙ ap (◌++◌ (c ∷ first)) (some-injective (strip_first-there c first s there ∙ e))
  | inr missing ↦ absurd (unfold strip_first in ground arith)
]

strip_first-append : (first s' : Bytes) → strip_first first (first ++ s') ≡ some s'
unfolding strip_first
strip_first-append [] s' = refl
strip_first-append (c ∷ first) s' =
    rw (has_prefix-append (c ∷ first) s') (ap some (drop-append (c ∷ first) s'))

glob_parts-some :
    (first next : Bytes) (parts : List Bytes) (s s' : Bytes)
    → strip_first first s ≡ some s'
    → glob_parts (first ∷ next ∷ parts) s ≡ walk next parts s'
unfolding glob_parts
glob_parts-some first next parts s s' found = rw (found, glob_parts)

-- A pattern cut into two segments or more
glob_parts_iff :
    (first next : Bytes) (parts : List Bytes) (s : Bytes)
    → All (Lacks star) (first ∷ next ∷ parts)
    → (glob_parts (first ∷ next ∷ parts) s ≡ true)
      ↔ Matches (join (first ∷ next ∷ parts) (codes "*")) s
glob_parts_iff first next parts s (h, hs) = (to, from)
  where
    rest : Bytes
    rest = star ∷ join (next ∷ parts) (codes "*")

    to : glob_parts (first ∷ next ∷ parts) s ≡ true → Matches (first ++ rest) s
    to e = elim (Option-cases (strip_first first s)) [
      | inl missing ↦ absurd (unfold glob_parts in ground arith)
      | inr (s', found) ↦
          subst (Matches (first ++ rest)) (sym (strip_first→append first s s' found)) (
            Matches-text first rest s' h (
              walk→Matches next parts s' hs
                (sym (glob_parts-some first next parts s s' found) ∙ e)))
    ]

    from : Matches (first ++ rest) s → glob_parts (first ∷ next ∷ parts) s ≡ true
    from m =
        let (s', q, m') = text-inv first rest s h m in
        glob_parts-some first next parts s s'
          (ap (strip_first first) q ∙ strip_first-append first s')
        ∙ Matches→walk next parts s' hs m'

glob_lower-starred :
    (p s : Bytes) → contains p star ≡ true → glob_lower p s ≡ glob_parts (split p (codes "*")) s
unfolding glob_lower
glob_lower-starred p s starred = rw starred

glob_lower-plain : (p s : Bytes) → contains p star ≡ false → glob_lower p s ≡ str_eq p s
unfolding glob_lower
glob_lower-plain p s plain = rw plain

parts_iff :
    (p s : Bytes)
    → contains p star ≡ true
    → (parts : List Bytes) → join parts (codes "*") ≡ p
    → All (Lacks star) parts
    → parts ≢ []
    → (glob_parts parts s ≡ true) ↔ Matches p s
parts_iff p s starred [] joined lacks ne = absurd (ne refl)
parts_iff p s starred (first ∷ []) joined (lacks, _) ne =
    absurd (false≢true (sym (Lacks→contains p star (subst (Lacks star) joined lacks)) ∙ starred))
parts_iff p s starred (first ∷ next ∷ parts) joined lacks ne =
    subst (λ q. (glob_parts (first ∷ next ∷ parts) s ≡ true) ↔ Matches q s) joined
      (glob_parts_iff first next parts s lacks)

glob_lower_iff : (p s : Bytes) → (glob_lower p s ≡ true) ↔ Matches p s
glob_lower_iff p s = elim (Bool-cases (contains p star)) [
  | inl starred ↦ rw (glob_lower-starred p s starred) (
      parts_iff p s starred (split p (codes "*")) (join-split p (codes "*")) (split-Lacks star p)
        (split-ne-nil p (codes "*")))
  | inr plain ↦
      let text = Matches-text_iff p s (contains→Lacks p star plain) in
      let eq = str_eq_iff p s in
      rw (glob_lower-plain p s plain) (λ e. text.1 (sym (eq.0 e)), λ m. eq.1 (sym (text.0 m)))
]

-- `globMatch` answers true exactly where the lower-case text matches the lower-case pattern.
pub glob_match_iff :
    (pattern str : Bytes)
    → (glob_match pattern str ≡ true) ↔ Matches (to_lower pattern) (to_lower str)
unfolding glob_match
glob_match_iff pattern str = glob_lower_iff (to_lower pattern) (to_lower str)
