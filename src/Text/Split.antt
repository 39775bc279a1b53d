-- ===== src/Text/Split.antt =====
-- `strings.Index` finds the first occurrence, and `strings.Split` cuts at every separator.

use native.Mathlib.Nat.{zero-add, suc-add}
use dnsanity.Common.{
  ℕ, zero, suc, ◌+◌, ◌≤◌, ◌<◌, ◌≡◌, refl, sym, ap, ◌∙◌, true, ◌≢◌, inl, inr, none, some, List, [],
  ◌∷◌, ◌++◌, arith, length, take, drop, take-append, drop-append, ap₂, length-append, length-drop,
  All, Bool-cases, Option-cases,
}
use dnsanity.Text.{Bytes, has_prefix, index, join, Lacks, has_prefix→append, has_prefix-append}

-- The loop of `strings.Split`: one round for each separator found.
split_loop : ℕ → Bytes → Bytes → List Bytes
split_loop zero s sep = s ∷ []
split_loop (suc f) s sep = elim (index s sep) [
  | none ↦ s ∷ []
  | some i ↦ take i s ∷ split_loop f (drop (i + length sep) s) sep
]

-- `strings.Split(s, sep)` for a separator that is not empty
unfoldable pub split : Bytes → Bytes → List Bytes
unfolding split_loop index
split s sep = split_loop (length s) s sep

index-zero : (s part : Bytes) → index s part ≡ some 0 → has_prefix s part ≡ true
unfolding index
index-zero [] part h = ground arith
index-zero (c ∷ s) part h = elim (Bool-cases (has_prefix (c ∷ s) part)) [
  | inl e ↦ e
  | inr e ↦ ground arith
]

index-suc :
    (c : ℕ) (s part : Bytes) (i : ℕ) → index (c ∷ s) part ≡ some (suc i) → index s part ≡ some i
unfolding index
index-suc c s part i h = ground arith

-- The index found is the place of an occurrence.
pub index-some :
    (s part : Bytes) (i : ℕ)
    → index s part ≡ some i
    → s ≡ take i s ++ (part ++ drop (i + length part) s)
index-some s part zero h = rw zero-add (has_prefix→append s part (index-zero s part h))
index-some [] part (suc i) h = absurd (no_suc h)
  where
    no_suc : index [] part ≡ some (suc i) → ⊥
    no_suc e = unfold index in ground arith
index-some (c ∷ s) part (suc i) h =
    rw suc-add (ap (◌∷◌ c) (index-some s part i (index-suc c s part i h)))

-- Where there is an occurrence the index is not behind it.
pub index-append :
    (u part v : Bytes) → (i : ℕ) × (index (u ++ (part ++ v)) part ≡ some i) × (i ≤ length u)
unfolding index
index-append [] [] [] = (0, refl, omega arith)
index-append [] [] (x ∷ v) = (0, refl, omega arith)
index-append [] (d ∷ part) v = (0, rw (has_prefix-append (d ∷ part) v), omega arith)
index-append (c ∷ u) part v = elim (Bool-cases (has_prefix (c ∷ u ++ (part ++ v)) part)) [
  | inl e ↦ (0, rw e, omega arith)
  | inr e ↦ let (i, found, le) = index-append u part v in (suc i, rw (e, found), omega arith)
]

index-pos : (b : ℕ) (s : Bytes) (i : ℕ) → index s (b ∷ []) ≡ some i → 0 < length s
unfolding index
index-pos b [] i h = cc
index-pos b (c ∷ s) i h = omega arith

split_loop-none : (f : ℕ) (s sep : Bytes) → index s sep ≡ none → split_loop (suc f) s sep ≡ s ∷ []
unfolding split_loop
split_loop-none f s sep e = rw (e, split_loop)

split_loop-some :
    (f : ℕ) (s sep : Bytes) (i : ℕ)
    → index s sep ≡ some i
    → split_loop (suc f) s sep ≡ take i s ∷ split_loop f (drop (i + length sep) s) sep
unfolding split_loop
split_loop-some f s sep i e = rw (e, split_loop)

join-cons :
    (p : Bytes) (ps : List Bytes) (sep : Bytes)
    → ps ≢ []
    → join (p ∷ ps) sep ≡ p ++ (sep ++ join ps sep)
join-cons p [] sep h = absurd (h refl)
join-cons p (q ∷ ps) sep h = refl

split_loop-ne-nil : (f : ℕ) (s sep : Bytes) → split_loop f s sep ≢ []
unfolding split_loop
split_loop-ne-nil zero s sep h = cc
split_loop-ne-nil (suc f) s sep h = ground arith

join-split_loop : (f : ℕ) (s sep : Bytes) → join (split_loop f s sep) sep ≡ s
join-split_loop zero s sep = unfold split_loop in refl
join-split_loop (suc f) s sep = elim (Option-cases (index s sep)) [
  | inl e ↦ rw (split_loop-none f s sep e)
  | inr (i, e) ↦ rw (split_loop-some f s sep i e) (
      join-cons (take i s) (split_loop f (drop (i + length sep) s) sep) sep
        (split_loop-ne-nil f (drop (i + length sep) s) sep)
      ∙ (ap (λ t. take i s ++ (sep ++ t)) (join-split_loop f (drop (i + length sep) s) sep)
          ∙ sym (index-some s sep i e)))
]

-- Joining the parts of a split gives the text back.
pub join-split : (s sep : Bytes) → join (split s sep) sep ≡ s
unfolding split
join-split s sep = join-split_loop (length s) s sep

pub split-ne-nil : (s sep : Bytes) → split s sep ≢ []
unfolding split
split-ne-nil s sep = split_loop-ne-nil (length s) s sep

module _ (b : ℕ) where
  index-none→Lacks : (s : Bytes) → index s (b ∷ []) ≡ none → Lacks b s
  unfolding index
  index-none→Lacks [] h = tt
  index-none→Lacks (c ∷ s) h = ground (arith, index-none→Lacks s)

  Lacks-take : (s : Bytes) (i : ℕ) → index s (b ∷ []) ≡ some i → Lacks b (take i s)
  Lacks-take s zero h = tt
  Lacks-take [] (suc i) h = tt
  Lacks-take (c ∷ s) (suc i) h = (first, Lacks-take s i (index-suc c s (b ∷ []) i h))
    where
      first : c ≢ b
      first e = unfold index in ground arith

  All-Lacks-split_loop :
      (f : ℕ) (s : Bytes) → length s ≤ f → All (Lacks b) (split_loop f s (b ∷ []))
  All-Lacks-split_loop zero [] h = unfold split_loop in (tt, tt)
  All-Lacks-split_loop zero (c ∷ s) h = absurd (omega arith)
  All-Lacks-split_loop (suc f) s h = elim (Option-cases (index s (b ∷ []))) [
    | inl e ↦ rw (split_loop-none f s (b ∷ []) e) (index-none→Lacks s e, tt)
    | inr (i, e) ↦ rw (split_loop-some f s (b ∷ []) i e) (
      Lacks-take s i e,
      All-Lacks-split_loop f (drop (i + 1) s) (omega (arith, length-drop (i + 1) s, lt i e)),
    )
  ]
    where
      lt : (i : ℕ) → index s (b ∷ []) ≡ some i → 0 < length s
      lt i e = index-pos b s i e

  -- No part of a split by one byte holds that byte.
  pub split-Lacks : (s : Bytes) → All (Lacks b) (split s (b ∷ []))
  unfolding split
  split-Lacks s = All-Lacks-split_loop (length s) s (omega arith)

module _ (b : ℕ) (sep : Bytes) where
  pub index-none : (s : Bytes) → Lacks b s → index s (b ∷ sep) ≡ none
  unfolding index
  index-none [] h = refl
  index-none (c ∷ s) h = ground (arith, index-none s)

  index-first :
      (s rest : Bytes) → Lacks b s → index (s ++ (b ∷ (sep ++ rest))) (b ∷ sep) ≡ some (length s)
  unfolding index
  index-first [] rest h = ground (arith, has_prefix-append (b ∷ sep) rest)
  index-first (c ∷ s) rest h = ground (arith, index-first s rest)

  drop-join :
      (p rest : Bytes) → drop (length p + length (b ∷ sep)) (p ++ (b ∷ (sep ++ rest))) ≡ rest
  drop-join [] rest = rw zero-add (drop-append sep rest)
  drop-join (c ∷ p) rest = rw suc-add (drop-join p rest)

  split_loop-join :
      (f : ℕ) (p : Bytes) (ps : List Bytes)
      → All (Lacks b) (p ∷ ps)
      → length (join (p ∷ ps) (b ∷ sep)) ≤ f
      → split_loop f (join (p ∷ ps) (b ∷ sep)) (b ∷ sep) ≡ p ∷ ps
  unfolding split_loop
  split_loop-join zero p [] h le = refl
  split_loop-join zero p (q ∷ ps) h le = absurd (omega (arith, length-append {0} p))
  split_loop-join (suc f) p [] (hp, _) le = split_loop-none f p (b ∷ sep) (index-none p hp)
  split_loop-join (suc f) p (q ∷ ps) (hp, hps) le =
      let rest = join (q ∷ ps) (b ∷ sep) in
      split_loop-some f _ (b ∷ sep) (length p) (index-first p rest hp)
      ∙ ap₂ ◌∷◌ (take-append p (b ∷ (sep ++ rest))) (
          ap (λ t. split_loop f t (b ∷ sep)) (drop-join p rest)
          ∙ split_loop-join f q ps hps
              (omega (arith, length-append {0} p (b ∷ (sep ++ rest)), length-append {0} sep rest)))

  -- Splitting a join gives the parts back, where no part holds the separator's first byte.
  pub split-join :
      (ps : List Bytes) → ps ≢ [] → All (Lacks b) ps → split (join ps (b ∷ sep)) (b ∷ sep) ≡ ps
  unfolding split
  split-join [] h _ = absurd (h refl)
  split-join (p ∷ ps) _ h = split_loop-join _ p ps h (omega arith)

-- Splitting by one byte takes off what stands before its first occurrence.
pub split-append :
    (b : ℕ) (s rest : Bytes)
    → Lacks b s
    → split (s ++ (b ∷ rest)) (b ∷ []) ≡ s ∷ split rest (b ∷ [])
split-append b s rest h =
    let ps = split rest (b ∷ []) in
    ap (λ t. split (s ++ (b ∷ t)) (b ∷ [])) (sym (join-split rest (b ∷ [])))
    ∙ ap (λ t. split t (b ∷ [])) (sym (join-cons s ps (b ∷ []) (split-ne-nil rest (b ∷ []))))
    ∙ split-join b [] (s ∷ ps) (λ e. cc) (h, split-Lacks b rest)

-- A text without the byte is one part.
pub split-Lacks_self : (b : ℕ) (s : Bytes) → Lacks b s → split s (b ∷ []) ≡ s ∷ []
split-Lacks_self b s h = split-join b [] (s ∷ []) (λ e. cc) (h, tt)
