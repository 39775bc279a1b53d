-- ===== src/Text/Trim.antt =====
-- `strings.TrimSpace` on a text that has no space at its ends.
use dnsanity.Common.{ℕ, ◌≡◌, refl, sym, ap, ◌∙◌, false, List, [], ◌∷◌, ◌++◌, append_assoc, All}
use dnsanity.Text.{Bytes, join, is_space, trim_space, trim_left, trim_right, keep}
use dnsanity.Text.Words.{IsWord, NoSpace}

-- The first and the last byte are no spaces.
pub record IsTrimmed (s : Bytes) : Type 0 where
  pub head : ℕ
  pub tail : Bytes
  pub starts : s ≡ head ∷ tail
  pub head_dark : is_space head ≡ false
  pub init : Bytes
  pub last : ℕ
  pub ends : s ≡ init ++ last ∷ []
  pub last_dark : is_space last ≡ false

trim_right-dark : (u : Bytes) (c : ℕ) → is_space c ≡ false → trim_right (u ++ c ∷ []) ≡ u ++ c ∷ []
unfolding trim_right
trim_right-dark [] c e = rw e refl
trim_right-dark (d ∷ u) c e = ap (keep d) (trim_right-dark u c e) ∙ keeps u
  where
    keeps : (u : Bytes) → keep d (u ++ c ∷ []) ≡ d ∷ (u ++ c ∷ [])
    keeps [] = refl
    keeps (x ∷ u) = refl

trim_left-dark : (c : ℕ) (s : Bytes) → is_space c ≡ false → trim_left (c ∷ s) ≡ c ∷ s
unfolding trim_left
trim_left-dark c s e = rw e refl

pub trim_space-IsTrimmed : (s : Bytes) → IsTrimmed s → trim_space s ≡ s
unfolding trim_space
trim_space-IsTrimmed s h =
    ap (λ t. trim_right (trim_left t)) h.starts
    ∙ ap trim_right (trim_left-dark h.head h.tail h.head_dark ∙ sym h.starts ∙ h.ends)
    ∙ trim_right-dark h.init h.last h.last_dark
    ∙ sym h.ends

last_of :
    (c : ℕ) (s : Bytes)
    → NoSpace (c ∷ s)
    → (u : Bytes) × (d : ℕ) × (c ∷ s ≡ u ++ d ∷ []) × (is_space d ≡ false)
last_of c [] (hc, _) = ([], c, refl, hc)
last_of c (d ∷ s) (hc, hs) = let (u, x, e, q) = last_of d s hs in (c ∷ u, x, ap (◌∷◌ c) e, q)

pub IsWord-IsTrimmed : (w : Bytes) → IsWord w → IsTrimmed w
IsWord-IsTrimmed [] (ne, h) = absurd (ne refl)
IsWord-IsTrimmed (c ∷ w) (ne, h) =
    let (u, x, e, q) = last_of c w h in
    record {
      head = c;
      tail = w;
      starts = refl;
      head_dark = h.0;
      init = u;
      last = x;
      ends = e;
      last_dark = q;
    }

-- Trimmed texts with anything between them
pub IsTrimmed-between : (s mid t : Bytes) → IsTrimmed s → IsTrimmed t → IsTrimmed (s ++ (mid ++ t))
IsTrimmed-between s mid t hs ht = record {
  head = hs.head;
  tail = hs.tail ++ (mid ++ t);
  starts = ap (λ x. x ++ (mid ++ t)) hs.starts;
  head_dark = hs.head_dark;
  init = s ++ (mid ++ ht.init);
  last = ht.last;
  ends =
      ap (λ x. s ++ (mid ++ x)) ht.ends
      ∙ ap (λ x. s ++ x) (sym (append_assoc mid ht.init (ht.last ∷ [])))
      ∙ sym (append_assoc s (mid ++ ht.init) (ht.last ∷ []));
  last_dark = ht.last_dark;
}

pub IsTrimmed-join :
    (p : Bytes) (ps : List Bytes) (sep : Bytes)
    → All IsTrimmed (p ∷ ps)
    → IsTrimmed (join (p ∷ ps) sep)
IsTrimmed-join p [] sep (h, _) = h
IsTrimmed-join p (q ∷ ps) sep (h, hs) =
    IsTrimmed-between p sep (join (q ∷ ps) sep) h (IsTrimmed-join q ps sep hs)
