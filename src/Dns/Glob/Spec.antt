-- ===== src/Dns/Glob/Spec.antt =====
-- What it means for a text to match a pattern: `*` stands for any run of bytes, and every other byte
-- for itself. No search order is in it.
use dnsanity.Common.{ℕ, ◌≡◌, refl, ap, sym, subst, ◌≢◌, ◌↔◌, [], ◌∷◌, ◌++◌}
use dnsanity.Text.{Bytes, Lacks}

abbrev pub star : ℕ
star = b'*'

pub data Matches : Bytes → Bytes → Type 0 where
  empty : Matches [] []
  byte : {c : ℕ} {p s : Bytes} → c ≢ star → Matches p s → Matches (c ∷ p) (c ∷ s)
  leave : {c : ℕ} {p s : Bytes} → c ≡ star → Matches p s → Matches (c ∷ p) s
  take_one : {c d : ℕ} {p s : Bytes} → c ≡ star → Matches (c ∷ p) s → Matches (c ∷ p) (d ∷ s)

-- A pattern that begins with text: the text stands at the beginning.
pub Matches-text : (w p t : Bytes) → Lacks star w → Matches p t → Matches (w ++ p) (w ++ t)
Matches-text [] p t h m = m
Matches-text (c ∷ w) p t (hc, hw) m = byte hc (Matches-text w p t hw m)

pub text-inv :
    (w p s : Bytes) → Lacks star w → Matches (w ++ p) s → (t : Bytes) × (s ≡ w ++ t) × Matches p t
text-inv [] p s h m = (s, refl, m)
text-inv (c ∷ w) p s (hc, hw) (byte ne m) =
    let (t, e, m') = text-inv w p _ hw m in (t, ap (◌∷◌ c) e, m')
text-inv (c ∷ w) p s (hc, hw) (leave e m) = absurd (hc e)
text-inv (c ∷ w) p s (hc, hw) (take_one e m) = absurd (hc e)

-- A pattern that begins with a star: any run of bytes stands at the beginning.
pub Matches-star : (p u t : Bytes) → Matches p t → Matches (star ∷ p) (u ++ t)
Matches-star p [] t m = leave refl m
Matches-star p (c ∷ u) t m = take_one refl (Matches-star p u t m)

pub star-inv : (p s : Bytes) → Matches (star ∷ p) s → (u t : Bytes) × (s ≡ u ++ t) × Matches p t
star-inv p s m = go star refl m
  where
    go :
        (c : ℕ)
        → c ≡ star
        → {s : Bytes} → Matches (c ∷ p) s
        → (u t : Bytes) × (s ≡ u ++ t) × Matches p t
    go c e (byte ne m) = absurd (ne e)
    go c e (leave {s = s} _ m) = ([], s, refl, m)
    go c e (take_one {d = d} _ m) = let (u, t, q, m') = go c e m in (d ∷ u, t, ap (◌∷◌ d) q, m')

Matches-eq : (p s : Bytes) → Lacks star p → Matches p s → s ≡ p
Matches-eq [] s h empty = refl
Matches-eq (c ∷ p) s (hc, hp) (byte ne m) = ap (◌∷◌ c) (Matches-eq p _ hp m)
Matches-eq (c ∷ p) s (hc, hp) (leave e m) = absurd (hc e)
Matches-eq (c ∷ p) s (hc, hp) (take_one e m) = absurd (hc e)

Matches-refl : (p : Bytes) → Lacks star p → Matches p p
Matches-refl [] h = empty
Matches-refl (c ∷ p) (hc, hp) = byte hc (Matches-refl p hp)

-- A pattern with no star matches itself alone.
pub Matches-text_iff : (p s : Bytes) → Lacks star p → Matches p s ↔ (s ≡ p)
Matches-text_iff p s h = (Matches-eq p s h, λ e. subst (Matches p) (sym e) (Matches-refl p h))
