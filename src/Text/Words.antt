-- ===== src/Text/Words.antt =====
-- `strings.Fields` returns the words of a text, and `strings.TrimSpace` does not change them.
use dnsanity.Common.{
  ℕ, ◌≡◌, refl, sym, ap, ◌∙◌, true, false, ◌≢◌, inl, inr, List, [], ◌∷◌, ◌++◌, append_assoc,
  append-nil, All, All-append, Bool-cases,
}
use dnsanity.Text.{
  Bytes, join, codes, is_space, flush, fields_loop, fields, trim_left, keep, trim_right, trim_space,
}

-- A text with no white space in it.
abbrev pub NoSpace : Bytes → Type 0
NoSpace = All (λ c. is_space c ≡ false)

abbrev pub IsWord : Bytes → Type 0
IsWord w = (w ≢ []) × NoSpace w

abbrev space : Bytes
space = codes " "

fields_loop-space :
    (c : ℕ) (s cur : Bytes)
    → is_space c ≡ true
    → fields_loop (c ∷ s) cur ≡ flush cur ++ fields_loop s []
unfolding fields_loop
fields_loop-space c s cur e = rw (e, fields_loop)

fields_loop-byte :
    (c : ℕ) (s cur : Bytes)
    → is_space c ≡ false
    → fields_loop (c ∷ s) cur ≡ fields_loop s (cur ++ c ∷ [])
unfolding fields_loop
fields_loop-byte c s cur e = rw (e, fields_loop)

fields_loop-word :
    (w rest cur : Bytes) → NoSpace w → fields_loop (w ++ rest) cur ≡ fields_loop rest (cur ++ w)
fields_loop-word [] rest cur h = rw append-nil
fields_loop-word (c ∷ w) rest cur (hc, hw) = rw (fields_loop-byte c (w ++ rest) cur hc) (
    fields_loop-word w rest (cur ++ c ∷ []) hw
    ∙ ap (fields_loop rest) (append_assoc cur (c ∷ []) w))

flush-word : (w : Bytes) → w ≢ [] → flush w ≡ w ∷ []
flush-word [] h = absurd (h refl)
flush-word (c ∷ w) h = refl

All-flush : (w : Bytes) → NoSpace w → All IsWord (flush w)
All-flush [] h = tt
All-flush (c ∷ w) h = ((λ e. cc, h), tt)

All-fields_loop : (s cur : Bytes) → NoSpace cur → All IsWord (fields_loop s cur)
All-fields_loop [] cur h = unfold fields_loop in All-flush cur h
All-fields_loop (c ∷ s) cur h = elim (Bool-cases (is_space c)) [
  | inl e ↦
      rw (fields_loop-space c s cur e) (
        All-append IsWord (flush cur) (fields_loop s []) (All-flush cur h)
          (All-fields_loop s [] tt))
  | inr e ↦
      rw (fields_loop-byte c s cur e)
        (All-fields_loop s (cur ++ c ∷ []) (All-append _ cur (c ∷ []) h (e, tt)))
]

-- Every field is a word.
pub fields-IsWord : (s : Bytes) → All IsWord (fields s)
unfolding fields
fields-IsWord s = All-fields_loop s [] tt

-- The fields of two texts with a space between are the fields of both.
fields_loop-append :
    (s t cur : Bytes) → fields_loop (s ++ (b' ' ∷ t)) cur ≡ fields_loop s cur ++ fields_loop t []
fields_loop-append [] t cur = unfold fields_loop is_space in refl
fields_loop-append (c ∷ s) t cur = elim (Bool-cases (is_space c)) [
  | inl e ↦
      fields_loop-space c (s ++ (b' ' ∷ t)) cur e
      ∙ ap (◌++◌ (flush cur)) (fields_loop-append s t [])
      ∙ sym (append_assoc (flush cur) (fields_loop s []) (fields_loop t []))
      ∙ ap (λ w. w ++ fields_loop t []) (sym (fields_loop-space c s cur e))
  | inr e ↦
      fields_loop-byte c (s ++ (b' ' ∷ t)) cur e
      ∙ fields_loop-append s t (cur ++ c ∷ [])
      ∙ ap (λ w. w ++ fields_loop t []) (sym (fields_loop-byte c s cur e))
]

pub fields-append : (s t : Bytes) → fields (s ++ (b' ' ∷ t)) ≡ fields s ++ fields t
unfolding fields
fields-append s t = fields_loop-append s t []

pub fields-space : (s : Bytes) → fields (b' ' ∷ s) ≡ fields s
unfolding fields
fields-space s = refl

pub fields-append_space : (s : Bytes) → fields (s ++ space) ≡ fields s
fields-append_space s = fields-append s [] ∙ (unfold fields in append-nil (fields_loop s []))

-- A word, a space and more text: the word is the first field.
pub fields-word : (w rest : Bytes) → IsWord w → fields (w ++ (b' ' ∷ rest)) ≡ w ∷ fields rest
unfolding fields
fields-word w rest (ne, hw) =
    fields_loop-word w (b' ' ∷ rest) [] hw
    ∙ fields_loop-space b' ' rest w (unfold is_space in refl)
    ∙ ap (λ t. t ++ fields_loop rest []) (flush-word w ne)

fields-one : (w : Bytes) → IsWord w → fields w ≡ w ∷ []
unfolding fields
fields-one w (ne, hw) =
    ap (λ t. fields_loop t []) (sym (append-nil w))
    ∙ fields_loop-word w [] [] hw
    ∙ (unfold fields_loop in flush-word w ne)

-- The fields of words joined by spaces are the words.
pub fields-join : (ws : List Bytes) → All IsWord ws → fields (join ws space) ≡ ws
fields-join [] h = unfold fields in refl
fields-join (w ∷ []) (hw, _) = fields-one w hw
fields-join (w ∷ v ∷ ws) (hw, hws) =
    fields-word w (join (v ∷ ws) space) hw ∙ ap (◌∷◌ w) (fields-join (v ∷ ws) hws)

fields_loop-trim_left : (s : Bytes) → fields_loop (trim_left s) [] ≡ fields_loop s []
unfolding trim_left
fields_loop-trim_left [] = refl
fields_loop-trim_left (c ∷ s) = elim (Bool-cases (is_space c)) [
  | inl e ↦ rw e (fields_loop-trim_left s ∙ sym (fields_loop-space c s [] e))
  | inr e ↦ rw e
]

fields_loop-keep : (c : ℕ) (s cur : Bytes) → fields_loop (keep c s) cur ≡ fields_loop (c ∷ s) cur
fields_loop-keep c [] cur = elim (Bool-cases (is_space c)) [
  | inl e ↦
      rw e (unfold fields_loop in sym (append-nil (flush cur)) ∙ sym (fields_loop-space c [] cur e))
  | inr e ↦ rw e
]
fields_loop-keep c (d ∷ s) cur = refl

fields_loop-trim_right : (s cur : Bytes) → fields_loop (trim_right s) cur ≡ fields_loop s cur
fields_loop-trim_right [] cur = unfold trim_right in refl
fields_loop-trim_right (c ∷ s) cur = elim (Bool-cases (is_space c)) [
  | inl e ↦
      kept
      ∙ fields_loop-space c (trim_right s) cur e
      ∙ ap (◌++◌ (flush cur)) (fields_loop-trim_right s [])
      ∙ sym (fields_loop-space c s cur e)
  | inr e ↦
      kept
      ∙ fields_loop-byte c (trim_right s) cur e
      ∙ fields_loop-trim_right s (cur ++ c ∷ [])
      ∙ sym (fields_loop-byte c s cur e)
]
  where
    kept : fields_loop (trim_right (c ∷ s)) cur ≡ fields_loop (c ∷ trim_right s) cur
    kept = unfold trim_right in fields_loop-keep c (trim_right s) cur

-- Trimming a text changes none of its fields.
pub fields-trim_space : (s : Bytes) → fields (trim_space s) ≡ fields s
unfolding fields trim_space
fields-trim_space s = fields_loop-trim_right (trim_left s) [] ∙ fields_loop-trim_left s
